-- ===== src/Models/Gate/Satisfied.antt =====
-- What a run has when `goal_gate_satisfied` of src/vibe/models.py lets it succeed.
use vibe_coding_harness.Prelude.{
  String, Bool, true, false, not, ◌≡◌, refl, sym, ◌∙◌, List, [], ◌∷◌, map, Result, ok, err, next,
  ok-injective, All,
}
use vibe_coding_harness.Json.{
  Json, Fields, dict, str, get_value, get_or, is_dict, is_word, truthy, eq,
}
use vibe_coding_harness.Models.Gate.{
  all_hold, value_in, value_at, items_of, values_of, history, entry, check_evidence,
  check_criterion, evidence_is_complete, check_task, is_last, is_true, check_tasks,
  check_evaluation, check_verification, nothing_pending, gate, goal_gate_satisfied,
}

all_hold-All :
    (tests : List (Result Bool)) → all_hold tests ≡ ok true → All (λ t. t ≡ ok true) tests
unfolding all_hold
all_hold-All [] h = tt
all_hold-All (ok true ∷ tests) h = (refl, all_hold-All tests h)
all_hold-All (ok false ∷ tests) h = cc
all_hold-All (err e ∷ tests) h = cc

module _ (P : Json → Type 0) (f : Json → Result Bool) (k : (v : Json) → f v ≡ ok true → P v) where
  All-tested : (vs : List Json) → All (λ t. t ≡ ok true) (map f vs) → All P vs
  All-tested [] a = tt
  All-tested (v ∷ vs) (first, rest) = (k v first, All-tested vs rest)

  All-mapped : (vs : List Json) → all_hold (map f vs) ≡ ok true → All P vs
  All-mapped vs h = All-tested vs (all_hold-All (map f vs) h)

-- A Task that is finished, with its verification among those of the run.
pub record Done (state : Fields) (task : Json) : Type 0 where
  pub completed : is_word "COMPLETED" (value_at "status" task) ≡ true
  pub attempted : truthy (value_at "attempts" task) ≡ true
  pub verified : value_in (value_at "verification" task) (history "verifications" state) ≡ ok true

-- A piece of evidence about the integrated commit that is cited for its criterion.
pub record Cited (state : Fields) (head catalog criterion evidence_id : Json) : Type 0 where
  pub catalogued : is_dict (entry evidence_id catalog) ≡ true
  pub current : eq (value_at "integration_head" (entry evidence_id catalog)) head ≡ true
  pub verified :
      value_in (value_at "verification" (entry evidence_id catalog)) (history "verifications" state)
      ≡ ok true

pub record Passed (state : Fields) (head catalog criterion : Json) : Type 0 where
  pub verdict : is_word "PASS" (value_at "verdict" criterion) ≡ true
  pub some_evidence : truthy (value_at "evidence_ids" criterion) ≡ true
  pub evidence :
      All (Cited state head catalog criterion) (items_of (value_at "evidence_ids" criterion))

check_task-Done : (state : Fields) (task : Json) → check_task state task ≡ ok true → Done state task
unfolding check_task
check_task-Done state task h =
    let (_, (done, (tried, (_, (_, (bound, _)))))) = all_hold-All _ h in
    record { completed = ok-injective done; attempted = ok-injective tried; verified = bound }

check_evidence-Cited :
    (state : Fields) (head catalog criterion evidence_id : Json)
    → check_evidence state head catalog criterion evidence_id ≡ ok true
    → Cited state head catalog criterion evidence_id
unfolding check_evidence
check_evidence-Cited state head catalog criterion evidence_id h =
    let (_, (there, (at, (_, (bound, _))))) = all_hold-All _ h in
    record { catalogued = ok-injective there; current = ok-injective at; verified = bound }

check_criterion-Passed :
    (state : Fields) (head catalog criterion : Json)
    → check_criterion state head catalog criterion ≡ ok true
    → Passed state head catalog criterion
unfolding check_criterion
check_criterion-Passed state head catalog criterion h =
    let (_, (passed, (_, (several, (each, _))))) = all_hold-All _ h in
    record {
      verdict = ok-injective passed;
      some_evidence = ok-injective several;
      evidence =
          All-mapped (Cited state head catalog criterion)
            (check_evidence state head catalog criterion)
            (check_evidence-Cited state head catalog criterion)
            (items_of (value_at "evidence_ids" criterion)) each;
    }

false_of_not : (b : Bool) → not b ≡ true → b ≡ false
false_of_not true h = sym h
false_of_not false h = refl

-- The repository's head, the tasks and the criteria of a run that may succeed.
pub record Satisfied (state envelope : Fields) (actual : String) : Type 0 where
  pub repository : Fields
  pub repository_read : get_value "repository" state ≡ dict repository
  pub at_head : eq (str actual) (get_value "integration_head" repository) ≡ true
  pub some_task : truthy (get_or "tasks" (dict Fields.end) state) ≡ true
  pub tasks : All (Done state) (values_of (get_or "tasks" (dict Fields.end) state))
  pub some_criterion : truthy (get_value "criteria" envelope) ≡ true
  pub criteria :
      All
        (Passed state
          (get_value "integration_head" repository)
          (get_value "evidence_catalog" envelope))
        (items_of (get_value "criteria" envelope))
  pub no_finding : truthy (get_value "findings" envelope) ≡ false
  pub verdict : is_word "PASS" (value_at "verdict" (get_value "latest_evaluation" state)) ≡ true
  pub evaluated_head :
      eq
        (value_at "integration_head" (get_value "latest_evaluation" state))
        (get_value "integration_head" repository)
      ≡ true
  pub last_evaluation :
      is_last
        (value_at "evaluation" (get_value "latest_evaluation" state))
        (history "evaluations" state)
      ≡ ok true
  pub verified : is_true (value_at "passed" (get_value "global_verification" state)) ≡ true
  pub verified_head :
      eq
        (value_at "integration_head" (get_value "global_verification" state))
        (get_value "integration_head" repository)
      ≡ true
  pub quiet : nothing_pending state ≡ true

gate-Satisfied :
    (state envelope : Fields) (actual : String) (repository : Fields) (complete : Bool)
    → get_value "repository" state ≡ dict repository
    → evidence_is_complete state (get_value "integration_head" repository) envelope ≡ ok complete
    → gate state envelope actual (get_value "integration_head" repository) complete ≡ ok true
    → Satisfied state envelope actual
unfolding gate evidence_is_complete check_tasks check_evaluation check_verification
gate-Satisfied state envelope actual repository complete read evidence h =
    let (_, (tasked, (evaluated, (is_complete, (found, (verified, (here, (quiet, _)))))))) =
      all_hold-All _ h in
    let (_, (some_task, (done, _))) = all_hold-All _ tasked in
    let (_, (_, (verdict, (_, (last, (evaluated_head, _)))))) = all_hold-All _ evaluated in
    let (passed, (_, (verified_head, _))) = all_hold-All _ verified in
    let (_, (_, (some_criterion, (criteria, _)))) = all_hold-All _ (evidence ∙ is_complete) in
    record {
      repository = repository;
      repository_read = read;
      at_head = ok-injective here;
      some_task = ok-injective some_task;
      tasks =
          All-mapped (Done state) (check_task state) (check_task-Done state)
            (values_of (get_or "tasks" (dict Fields.end) state)) done;
      some_criterion = ok-injective some_criterion;
      criteria =
          All-mapped
            (Passed state (get_value "integration_head" repository)
              (get_value "evidence_catalog" envelope))
            (check_criterion state (get_value "integration_head" repository)
              (get_value "evidence_catalog" envelope))
            (check_criterion-Passed state (get_value "integration_head" repository)
              (get_value "evidence_catalog" envelope))
            (items_of (get_value "criteria" envelope)) criteria;
      no_finding = false_of_not (truthy (get_value "findings" envelope)) (ok-injective found);
      verdict = ok-injective verdict;
      evaluated_head = ok-injective evaluated_head;
      last_evaluation = last;
      verified = ok-injective passed;
      verified_head = ok-injective verified_head;
      quiet = ok-injective quiet;
    }

of_repository :
    (state envelope : Fields) (actual : String) (v : Json)
    → get_value "repository" state ≡ v
    → goal_gate_satisfied state envelope actual ≡ ok true
    → Satisfied state envelope actual
unfolding goal_gate_satisfied
of_repository state envelope actual (dict repository) read h =
    next (evidence_is_complete state (get_value "integration_head" repository) envelope) _
      (rw (goal_gate_satisfied, read) at h)
      (λ complete evidence passes.
        gate-Satisfied state envelope actual repository complete read evidence passes)
of_repository state envelope actual _ read h =
    let broken = rw (goal_gate_satisfied, read) at h in cc

-- A run that the gate lets succeed has an integration head that is the head of the branch, at which its latest
-- evaluation and its global verification passed. There is at least one Task, and each is COMPLETED with a bound
-- verification; there is at least one criterion, and each passed with evidence about that very
-- head. No finding, no pending dispatch or marker, and no error is left.
pub goal_gate_satisfied-Satisfied :
    (state envelope : Fields) (actual_integration_head : String)
    → goal_gate_satisfied state envelope actual_integration_head ≡ ok true
    → Satisfied state envelope actual_integration_head
goal_gate_satisfied-Satisfied state envelope actual h =
    of_repository state envelope actual (get_value "repository" state) refl h
