-- ===== src/Models/Gate.antt =====
-- `goal_gate_satisfied` of src/vibe/models.py: whether a run may succeed. The state is one that
-- `validate_run_state` accepts: a plan version that is no integer, or a history that is no list, is TypeError.
pub mod Satisfied
use vibe_coding_harness.Prelude.{
  ℕ, String, Bool, true, false, not, ◌&&◌, ◌||◌, Option, none, some, List, [], ◌∷◌, map, Result, ok,
  err, ◌>>=◌, expect, type_error, length, any, contains, eqb, leb, if◌then◌else◌,
}
use vibe_coding_harness.Prelude.Text.{has_part}
use vibe_coding_harness.Json.{
  ℤ, pos, negsuc, Json, Fields, null, bool, int, float, str, list, dict, nil, entries, items, keys,
  get_or, get_value, as_dict, as_list, as_str, is_null, is_dict, is_list, is_word, truthy, eq,
}

-- A chain of tests with `and`: the first that fails, or raises, leaves out the rest.
unfoldable pub all_hold : List (Result Bool) → Result Bool
all_hold [] = ok true
all_hold (err e ∷ tests) = err e
all_hold (ok false ∷ tests) = ok false
all_hold (ok true ∷ tests) = all_hold tests

-- `v in container`
unfoldable pub value_in : Json → Json → Result Bool
unfolding eq has_part
value_in v (list xs) = ok (any (λ x. eq x v) (items xs))
value_in (str s) (dict d) = ok (contains s (keys d))
value_in (list xs) (dict d) = err type_error
value_in (dict e) (dict d) = err type_error
value_in _ (dict d) = ok false
value_in (str s) (str text) = ok (has_part s text)
value_in _ _ = err type_error

-- `v.get("k")`, which the tests reach for a dict only.
unfoldable pub value_at : String → Json → Json
unfolding get_value
value_at k (dict d) = get_value k d
value_at k _ = null

pub items_of : Json → List Json
items_of (list xs) = items xs
items_of _ = []

pub values_of : Json → List Json
values_of (dict d) = map (λ (k, v). v) (entries d)
values_of _ = []

-- `state.get("k", [])`
pub history : String → Fields → Json
unfolding get_or
history k state = get_or k (list nil) state

abbrev is_string : Json → Bool
is_string (str s) = true
is_string _ = false

pub entry : Json → Json → Json
unfolding value_at
entry (str k) catalog = value_at k catalog
entry _ catalog = null

-- One piece of evidence of a criterion.
unfoldable pub check_evidence : Fields → Json → Json → Json → Json → Result Bool
unfolding entry value_at get_or eq value_in history
check_evidence state head catalog criterion evidence_id = all_hold (
    ok (is_string evidence_id)
    ∷ ok (is_dict (entry evidence_id catalog))
    ∷ ok (eq (value_at "integration_head" (entry evidence_id catalog)) head)
    ∷ value_in (value_at "id" criterion) (elim (as_dict (entry evidence_id catalog)) [
      | none ↦ null
      | some d ↦ get_or "criterion_ids" (list nil) d
    ])
    ∷ value_in (value_at "verification" (entry evidence_id catalog)) (history "verifications" state)
    ∷ [])

unfoldable pub check_criterion : Fields → Json → Json → Json → Result Bool
unfolding value_at truthy items_of check_evidence
check_criterion state head catalog criterion = all_hold (
    ok (is_dict criterion)
    ∷ ok (is_word "PASS" (value_at "verdict" criterion))
    ∷ ok (is_list (value_at "evidence_ids" criterion))
    ∷ ok (truthy (value_at "evidence_ids" criterion))
    ∷ all_hold (
        map (check_evidence state head catalog criterion)
          (items_of (value_at "evidence_ids" criterion)))
    ∷ [])

unfoldable pub evidence_is_complete : Fields → Json → Fields → Result Bool
unfolding get_value truthy items_of check_criterion
evidence_is_complete state head envelope = all_hold (
    ok (is_dict (get_value "evidence_catalog" envelope))
    ∷ ok (is_list (get_value "criteria" envelope))
    ∷ ok (truthy (get_value "criteria" envelope))
    ∷ all_hold (
        map (check_criterion state head (get_value "evidence_catalog" envelope))
          (items_of (get_value "criteria" envelope)))
    ∷ [])

unfoldable pub check_task : Fields → Json → Result Bool
unfolding value_at truthy value_in history
check_task state task = all_hold (
    ok (is_dict task)
    ∷ ok (is_word "COMPLETED" (value_at "status" task))
    ∷ ok (truthy (value_at "attempts" task))
    ∷ ok (is_dict (value_at "result" task))
    ∷ ok (is_dict (value_at "verification" task))
    ∷ value_in (value_at "verification" task) (history "verifications" state)
    ∷ [])

at_least_one : Json → Result Bool
at_least_one (int (pos n)) = ok (leb 1 n)
at_least_one (int (negsuc n)) = ok false
at_least_one _ = err type_error

is_length : Json → Json → Result Bool
unfolding eq
is_length v (list xs) = ok (eq v (int (pos (length (items xs)))))
is_length v _ = err type_error

last_of : List Json → Option Json
last_of [] = none
last_of (v ∷ []) = some v
last_of (v ∷ w ∷ vs) = last_of (w ∷ vs)

pub is_last : Json → Json → Result Bool
unfolding last_of eq
is_last v (list xs) = expect (last_of (items xs)) type_error >>= λ w. ok (eq v w)
is_last v _ = err type_error

pub is_true : Json → Bool
is_true (bool b) = b
is_true _ = false

unfoldable pub check_plans : Fields → Result Bool
unfolding get_value get_or at_least_one is_length history
check_plans state = all_hold (
    at_least_one (get_or "plan_version" (int (pos 0)) state)
    ∷ is_length (get_value "plan_version" state) (history "plans" state)
    ∷ [])

unfoldable pub check_tasks : Fields → Result Bool
unfolding get_or truthy values_of check_task
check_tasks state = all_hold (
    ok (is_dict (get_or "tasks" (dict Fields.end) state))
    ∷ ok (truthy (get_or "tasks" (dict Fields.end) state))
    ∷ all_hold (map (check_task state) (values_of (get_or "tasks" (dict Fields.end) state)))
    ∷ [])

unfoldable pub check_evaluation : Fields → Json → Fields → Result Bool
unfolding get_value value_at truthy history is_last eq
check_evaluation state head envelope = all_hold (
    ok (is_dict (get_value "latest_evaluation" state))
    ∷ ok (is_dict (get_value "global_verification" state))
    ∷ ok (is_word "PASS" (value_at "verdict" (get_value "latest_evaluation" state)))
    ∷ ok (truthy (get_value "evaluations" state))
    ∷ is_last (value_at "evaluation" (get_value "latest_evaluation" state))
        (history "evaluations" state)
    ∷ ok (eq (value_at "integration_head" (get_value "latest_evaluation" state)) head)
    ∷ ok (is_word "PASS" (get_value "verdict" envelope))
    ∷ ok (eq (get_value "integration_head" envelope) head)
    ∷ [])

unfoldable pub check_verification : Fields → Json → Result Bool
unfolding get_value value_at value_in history is_true eq
check_verification state head = all_hold (
    ok (is_true (value_at "passed" (get_value "global_verification" state)))
    ∷ value_in (value_at "verification" (get_value "global_verification" state))
        (history "verifications" state)
    ∷ ok (eq (value_at "integration_head" (get_value "global_verification" state)) head)
    ∷ [])

unfoldable pub nothing_pending : Fields → Bool
unfolding get_value truthy
nothing_pending state =
    not (truthy (get_value "pending_dispatches" state))
    && is_null (get_value "pending_source_commit" state)
    && is_null (get_value "pending_integration" state)
    && is_null (get_value "pending_evaluation" state)
    && is_null (get_value "last_error" state)

-- The conjunction that the function gives back, for a repository that is a dict.
unfoldable pub gate : Fields → Fields → String → Json → Bool → Result Bool
unfolding check_plans check_tasks check_evaluation check_verification nothing_pending truthy
    get_value eq
gate state envelope actual_integration_head head complete = all_hold (
    check_plans state
    ∷ check_tasks state
    ∷ check_evaluation state head envelope
    ∷ ok complete
    ∷ ok (not (truthy (get_value "findings" envelope)))
    ∷ check_verification state head
    ∷ ok (eq (str actual_integration_head) head)
    ∷ ok (nothing_pending state)
    ∷ [])

unfoldable pub goal_gate_satisfied : Fields → Fields → String → Result Bool
unfolding get_value evidence_is_complete gate
goal_gate_satisfied state envelope actual_integration_head =
    elim (as_dict (get_value "repository" state)) [
      | none ↦ ok false
      | some repository ↦
          evidence_is_complete state (get_value "integration_head" repository) envelope
          >>= gate state envelope actual_integration_head (get_value "integration_head" repository)
    ]
