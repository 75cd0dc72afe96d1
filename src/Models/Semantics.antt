-- ===== src/Models/Semantics.antt =====
-- `validate_bound_state_semantics` of src/vibe/models.py: the run state against the manifests of the
-- Attempts that it binds. `load` stands for the call of the artifact loader and of
-- `_parse_artifact_bytes` on a path: the JSON object in that artifact.
pub mod Bound
use vibe_coding_harness.Prelude.{
  ℕ, String, Bool, true, false, not, ◌&&◌, ◌||◌, Option, none, some, List, [], ◌∷◌, ◌++◌, Result,
  ok, ◌>>=◌, ◌>>◌, expect, reject_if, contract, key_error, leb, eqb, contains, each, ◌==◌,
  if◌then◌else◌,
}
use vibe_coding_harness.Prelude.Dict.{lookup, insert}
use vibe_coding_harness.Json.{ℤ, Json, Fields, entries, keys, as_dict, is_word, eq}
use vibe_coding_harness.Models.Contracts.{ArtifactRef, AttemptManifest, artifact_as_dict}
use vibe_coding_harness.Models.Validation.Basic.{item}
use vibe_coding_harness.Models.Access.{dict_item, list_item, str_item}
use vibe_coding_harness.Models.Manifest.{validate_attempt_manifest, is_succeeded}

active_token : Json → Result (List String)
unfolding dict_item item str_item
active_token v = do
  task ← expect (as_dict v) key_error
  active ← item "active_attempt" task
  elim (as_dict active) [
    | none ↦ ok []
    | some a ↦ str_item "attempt_token" a >>= λ token. ok (token ∷ [])
  ]

active_tokens_of : List (String × Json) → Result (List String)
unfolding active_token
active_tokens_of [] = ok []
active_tokens_of ((task_id, v) ∷ rest) = do
  here ← active_token v
  others ← active_tokens_of rest
  ok (here ++ others)

-- The tokens of the pending dispatches and of the active Attempts.
unfoldable pub active_tokens : Fields → Result (List String)
unfolding dict_item active_tokens_of
active_tokens state = do
  pending ← dict_item "pending_dispatches" state
  tasks ← dict_item "tasks" state
  of_tasks ← active_tokens_of (entries tasks)
  ok (keys pending ++ of_tasks)

module _ (from_isoformat : String → Option (Bool × ℤ)) (load : String → Result Json) where
  unfoldable pub bound_manifest : Json → Result AttemptManifest
  unfolding str_item validate_attempt_manifest
  bound_manifest v = do
    reference ← expect (as_dict v) key_error
    path ← str_item "path" reference
    body ← load path
    validate_attempt_manifest from_isoformat body

  is_task : String → Option String → Bool
  is_task role none = false
  is_task role (some task_id) = task_id == role

  or_zero : Option ℕ → ℕ
  or_zero none = 0
  or_zero (some n) = n

  seen_before : String → ℕ → List (String × ℕ) → Bool
  seen_before operation n [] = false
  seen_before operation n ((o, m) ∷ seen) =
      (o == operation && eqb m n) || seen_before operation n seen

  has_owner : AttemptManifest → Bool
  has_owner m = elim m.task_id [ none ↦ false | some t ↦ true ]

  -- The history of a role: `seen` holds the identities, `previous` the last number of each operation.
  unfoldable pub check_role_history :
      String → List String → List (String × ℕ) → List (String × ℕ) → List Json → Result (Unit {0})
  unfolding bound_manifest has_owner seen_before lookup insert or_zero
  check_role_history role active seen previous [] = ok tt
  check_role_history role active seen previous (v ∷ history) = do
    m ← bound_manifest v
    reject_if (not (m.role == role) || has_owner m) "role attempt history owner mismatch"
    reject_if (seen_before m.operation_id m.attempt_no seen) "duplicate role attempt identity"
    reject_if (leb m.attempt_no (or_zero (lookup m.operation_id previous)))
        "role attempt numbers are not increasing"
    reject_if (contains m.attempt_token active) "terminal attempt token remains active"
    check_role_history role active ((m.operation_id, m.attempt_no) ∷ seen)
        (insert m.operation_id m.attempt_no previous) history

  -- The history of a task, with the manifests that it binds.
  unfoldable pub check_task_history :
      String → List String → ℕ → List Json → Result (List AttemptManifest)
  unfolding bound_manifest is_task
  check_task_history task_id active previous [] = ok []
  check_task_history task_id active previous (v ∷ history) = do
    m ← bound_manifest v
    reject_if (not (m.role == "worker") || not (is_task task_id m.task_id))
        "Worker attempt history owner mismatch"
    reject_if (leb m.attempt_no previous) "Worker attempt numbers are not increasing"
    reject_if (contains m.attempt_token active) "terminal Worker token remains active"
    rest ← check_task_history task_id active m.attempt_no history
    ok (m ∷ rest)

  pub last_manifest : List AttemptManifest → Option AttemptManifest
  last_manifest [] = none
  last_manifest (m ∷ []) = some m
  last_manifest (m ∷ m' ∷ rest) = last_manifest (m' ∷ rest)

  pub refers_to : Option ArtifactRef → Json → Bool
  unfolding eq artifact_as_dict
  refers_to none v = false
  refers_to (some r) v = eq (artifact_as_dict r) v

  pub is_done : Json → Bool
  is_done v = is_word "INTEGRATING" v || is_word "COMPLETED" v

  check_final : Fields → List AttemptManifest → Result (Unit {0})
  unfolding last_manifest refers_to item
  check_final task manifests = do
    final ← expect (last_manifest manifests) (contract "integrated Task lacks successful Attempt")
    reject_if (not (is_succeeded final.status)) "integrated Task lacks successful Attempt"
    result ← item "result" task
    verification ← item "verification" task
    reject_if
        (not (refers_to final.result result) || not (refers_to final.verification verification))
        "successful Attempt pointers disagree"

  unfoldable pub check_task_semantics : List String → String × Json → Result (Unit {0})
  unfolding list_item check_task_history item is_done check_final
  check_task_semantics active (task_id, v) = do
    task ← expect (as_dict v) key_error
    history ← list_item "attempts" task
    manifests ← check_task_history task_id active 0 history
    status ← item "status" task
    (if is_done status then check_final task manifests else ok tt)

  nat_is : ℕ → Json → Bool
  unfolding eq
  nat_is n v = eq (Json.int (ℤ.pos n)) v

  check_evaluation : Json → Result (Unit {0})
  unfolding item bound_manifest nat_is refers_to
  check_evaluation v = elim (as_dict v) [
    | none ↦ ok tt
    | some marker ↦ do
      attempt ← item "attempt" marker
      m ← bound_manifest attempt
      operation ← item "operation_id" marker
      attempt_no ← item "attempt_no" marker
      token ← item "attempt_token" marker
      raw_result ← item "raw_result" marker
      reject_if
          (not (m.role == "evaluator")
            || not (is_word m.operation_id operation)
            || not (nat_is m.attempt_no attempt_no)
            || not (is_word m.attempt_token token)
            || not (refers_to m.result raw_result))
          "pending_evaluation does not match Attempt"
  ]

  unfoldable pub validate_bound_state_semantics : Fields → Result (Unit {0})
  unfolding active_tokens dict_item list_item check_role_history check_task_semantics item
      check_evaluation
  validate_bound_state_semantics state = do
    active ← active_tokens state
    role_attempts ← dict_item "role_attempts" state
    planner ← list_item "planner" role_attempts
    check_role_history "planner" active [] [] planner
    evaluator ← list_item "evaluator" role_attempts
    check_role_history "evaluator" active [] [] evaluator
    tasks ← dict_item "tasks" state
    each (check_task_semantics active) (entries tasks)
    (item "pending_evaluation" state >>= check_evaluation)
