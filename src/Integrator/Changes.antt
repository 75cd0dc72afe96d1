-- ===== src/Integrator/Changes.antt =====
-- What the two endings of an integration in src/vibe/integrator.py leave in the state.
use vibe_coding_harness.Prelude.{
  ℕ, String, not, ◌≡◌, sym, ap, ◌∙◌, some, ok, expect, expect-some, next, reject_if, key_error,
  ok-injective, eq_refl,
}
use vibe_coding_harness.Prelude.Dict.{lookup}
use vibe_coding_harness.Json.{Json, Fields, null, str, dict, get, put, eq, is_word}
use vibe_coding_harness.Json.Laws.{get-put}
use vibe_coding_harness.Models.Contracts.{nat}
use vibe_coding_harness.Models.Validation.Basic.{item}
use vibe_coding_harness.Models.Access.{dict_item, modify_item}
use vibe_coding_harness.Store.Transactions.{References}
use vibe_coding_harness.Integrator.{
  PendingIntegration, pending_as_dict, complete, complete_task, evidence_path, pause_run,
}

-- The state of a run whose integration is finished.
pub record Completed (p : PendingIntegration) (new : Fields) : Type 0 where
  pub no_marker : get "pending_integration" new ≡ some null
  pub no_error : get "last_error" new ≡ some null
  pub repository : Fields
  pub repository_read : get "repository" new ≡ some (dict repository)
  pub head : get "integration_head" repository ≡ some (str p.candidate_head)
  pub tasks : Fields
  pub tasks_read : get "tasks" new ≡ some (dict tasks)
  pub task : Fields
  pub task_read : get p.task_id tasks ≡ some (dict task)
  pub task_status : get "status" task ≡ some (str "COMPLETED")

complete_task-status :
    (p : PendingIntegration) (task done : Fields)
    → complete_task p task ≡ ok done
    → get "status" done ≡ some (str "COMPLETED")
unfolding complete_task
complete_task-status p task done h = next (item "status" task) _ h (λ status _ h1.
    next (reject_if (not (is_word "INTEGRATING" status)) "integrating Task status changed") _ h1
      (λ _ _ h2. let e = ok-injective h2 in rw (← e) (simp get-put)))

moved_repository :
    (k : String) (v : Json) (d d' : Fields)
    → modify_item "repository" (λ r. ok (put k v r)) d ≡ ok d'
    → (r : Fields) × (d' ≡ put "repository" (dict (put k v r)) d)
unfolding modify_item
moved_repository k v d d' h =
    next (dict_item "repository" d) _ h (λ r _ h1. (r, sym (ok-injective h1)))

pub complete-Completed :
    (p : PendingIntegration) (now : String) (given : Fields) (refs : References)
    (updated new : Fields) (n : ℕ)
    → complete p now given refs ≡ ok updated
    → new ≡ put "revision" (nat n) updated
    → Completed p new
unfolding complete
complete-Completed p now given refs updated new n h e =
    next (item "pending_integration" given) _ h (λ marker _ h1.
      next
        (reject_if (not (eq marker (pending_as_dict p)))
          "pending integration changed before completion")
        _ h1
        (λ _ _ h2. next (dict_item "tasks" given) _ h2 (λ tasks _ h3.
          next (dict_item p.task_id tasks) _ h3 (λ task _ h4.
            next (complete_task p task) _ h4 (λ done finished h5.
              next
                (modify_item "repository"
                  (λ r. ok (put "integration_head" (str p.candidate_head) r)) given)
                _ h5
                (λ moved movement h6.
                  let (r, moved_is) =
                    moved_repository "integration_head" (str p.candidate_head) given moved
                      movement in
                  let all_is = e ∙ ap (put "revision" (nat n)) (sym (ok-injective h6)) in
                  record {
                    no_marker = rw all_is (simp get-put);
                    no_error = rw all_is (simp get-put);
                    repository = put "integration_head" (str p.candidate_head) r;
                    repository_read = rw all_is (rw moved_is (simp get-put));
                    head = rw get-put;
                    tasks = put p.task_id (dict done) tasks;
                    tasks_read = rw all_is (simp get-put);
                    task = done;
                    task_read = rw (get-put, eq_refl);
                    task_status = complete_task-status p task done finished;
                  }))))))

-- The state of a run that is paused because its branch was moved by someone else.
pub record PausedForRef (p : PendingIntegration) (old new : Fields) : Type 0 where
  pub paused : get "status" new ≡ some (str "PAUSED")
  pub resumes : get "resume_status" new ≡ get "status" old
  pub marker_kept : get "pending_integration" new ≡ get "pending_integration" old

item-get : (k : String) (d : Fields) (v : Json) → item k d ≡ ok v → get k d ≡ some v
unfolding item
item-get k d v h = expect-some (get k d) _ v h

pub pause_run-PausedForRef :
    (p : PendingIntegration) (now : String) (old given : Fields) (index : Json) (refs : References)
    (updated new : Fields) (n : ℕ)
    → given ≡ put "artifact_index" index old
    → pause_run p now given refs ≡ ok updated
    → new ≡ put "revision" (nat n) updated
    → PausedForRef p old new
unfolding pause_run
pause_run-PausedForRef p now old given index refs updated new n from h e =
    next (item "pending_integration" given) _ h (λ marker _ h1.
      next
        (reject_if (not (eq marker (pending_as_dict p))) "pending integration changed before pause")
        _ h1
        (λ _ _ h2. next (item "status" given) _ h2 (λ status was h3.
          next (expect (lookup (evidence_path p) refs) key_error) _ h3 (λ evidence _ h4.
            let all_is = e ∙ ap (put "revision" (nat n)) (sym (ok-injective h4)) in
            let old_status : get "status" old ≡ some status =
              rw (from, get-put) at (item-get "status" given status was) in
            record {
              paused = rw all_is (simp get-put);
              resumes = rw all_is (simp (get-put) (sym old_status));
              marker_kept = rw all_is (rw from (simp get-put));
            }))))
