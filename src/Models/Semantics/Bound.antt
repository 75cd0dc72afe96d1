-- ===== src/Models/Semantics/Bound.antt =====
-- The histories of a state that `validate_bound_state_semantics` of src/vibe/models.py accepts.
use vibe_coding_harness.Prelude.{
  ℕ, String, Bool, true, false, not, ◌||◌, ◌≡◌, ◌<◌, ap, subst, Option, none, some, List, [], ◌∷◌,
  Result, ok, expect, expect-some, reject_if, reject_if-ok, contract, key_error, next, ok-injective,
  All, each, map_result, leb, contains, or-false_parts, true_of_not, eq_iff, arith, ◌==◌,
  if◌then◌else◌,
}
use vibe_coding_harness.Json.{ℤ, Json, Fields, entries, as_dict}
use vibe_coding_harness.Models.Contracts.{AttemptManifest}
use vibe_coding_harness.Models.Validation.Basic.{item}
use vibe_coding_harness.Models.Access.{dict_item, list_item}
use vibe_coding_harness.Models.Manifest.{is_succeeded}
use vibe_coding_harness.Models.Semantics.{
  active_tokens, bound_manifest, is_task, check_role_history, check_task_history, last_manifest,
  refers_to, is_done, check_final, check_task_semantics, validate_bound_state_semantics,
}

module _ (from_isoformat : String → Option (Bool × ℤ)) (load : String → Result Json) where
  -- The manifests of a Task: a worker's, for this Task, numbered upwards, none with an active token.
  abbrev pub Upwards : String → List String → ℕ → List AttemptManifest → Type 0
  Upwards task_id active n [] = Unit
  Upwards task_id active n (m ∷ manifests) =
      (m.role ≡ "worker")
      × (m.task_id ≡ some task_id)
      × (n < m.attempt_no)
      × (contains m.attempt_token active ≡ false)
      × Upwards task_id active m.attempt_no manifests

  is_task-some :
      (task_id : String) (o : Option String)
      → is_task from_isoformat load task_id o ≡ true
      → o ≡ some task_id
  unfolding is_task
  is_task-some task_id none h = cc
  is_task-some task_id (some t) h = ap some ((eq_iff t task_id).0 h)

  above : (a b : ℕ) → leb a b ≡ false → b < a
  above a b h = ground arith

  check_task_history-Upwards :
      (task_id : String) (active : List String) (n : ℕ) (history : List Json)
      (manifests : List AttemptManifest)
      → check_task_history from_isoformat load task_id active n history ≡ ok manifests
      → (map_result (bound_manifest from_isoformat load) history ≡ ok manifests)
        × Upwards task_id active n manifests
  unfolding check_task_history
  check_task_history-Upwards task_id active n [] manifests h =
      (h, subst (Upwards task_id active n) (ok-injective h) tt)
  check_task_history-Upwards task_id active n (v ∷ history) manifests h =
      next (bound_manifest from_isoformat load v) _ h (λ m read h1.
        next
          (reject_if
            (not (m.role == "worker") || not (is_task from_isoformat load task_id m.task_id))
            "Worker attempt history owner mismatch")
          _ h1
          (λ _ owned h2.
            next (reject_if (leb m.attempt_no n) "Worker attempt numbers are not increasing") _ h2
              (λ _ rises h3.
                next
                  (reject_if (contains m.attempt_token active)
                    "terminal Worker token remains active")
                  _ h3
                  (λ _ inactive h4.
                    next
                      (check_task_history from_isoformat load task_id active m.attempt_no history) _
                      h4
                      (λ rest later h5.
                        let (reads, up) =
                          check_task_history-Upwards task_id active m.attempt_no history rest
                            later in
                        let (worker, own) =
                          or-false_parts (not (m.role == "worker")) _
                            (reject_if-ok _ "Worker attempt history owner mismatch" owned) in
                        (
                          rw (read, reads) h5,
                          subst (Upwards task_id active n) (ok-injective h5) (
                            (eq_iff m.role "worker").0 (true_of_not _ worker),
                            is_task-some task_id m.task_id (true_of_not _ own),
                            above m.attempt_no n
                                (reject_if-ok _ "Worker attempt numbers are not increasing" rises),
                            reject_if-ok _ "terminal Worker token remains active" inactive,
                            up,
                          ),
                        ))))))

  -- The last manifest of a Task whose integration is prepared or done.
  pub record Final (task : Fields) (manifests : List AttemptManifest) : Type 0 where
    pub final : AttemptManifest
    pub is_last : last_manifest from_isoformat load manifests ≡ some final
    pub succeeded : is_succeeded final.status ≡ true
    pub result : Json
    pub result_read : item "result" task ≡ ok result
    pub same_result : refers_to from_isoformat load final.result result ≡ true
    pub verification : Json
    pub verification_read : item "verification" task ≡ ok verification
    pub same_verification : refers_to from_isoformat load final.verification verification ≡ true

  check_final-Final :
      (task : Fields) (manifests : List AttemptManifest)
      → check_final from_isoformat load task manifests ≡ ok tt
      → Final task manifests
  unfolding check_final
  check_final-Final task manifests h =
      next
        (expect (last_manifest from_isoformat load manifests)
          (contract "integrated Task lacks successful Attempt"))
        _ h
        (λ final last h1.
          next
            (reject_if (not (is_succeeded final.status)) "integrated Task lacks successful Attempt")
            _ h1
            (λ _ good h2. next (item "result" task) _ h2 (λ result result_read h3.
              next (item "verification" task) _ h3 (λ verification verification_read h4.
                let (same_result, same_verification) =
                  or-false_parts (not (refers_to from_isoformat load final.result result)) _
                    (reject_if-ok _ "successful Attempt pointers disagree" h4) in
                record {
                  final = final;
                  is_last = expect-some (last_manifest from_isoformat load manifests) _ final last;
                  succeeded =
                      true_of_not _
                        (reject_if-ok _ "integrated Task lacks successful Attempt" good);
                  result = result;
                  result_read = result_read;
                  same_result = true_of_not _ same_result;
                  verification = verification;
                  verification_read = verification_read;
                  same_verification = true_of_not _ same_verification;
                }))))

  pub record TaskBound (active : List String) (task_id : String) (v : Json) : Type 0 where
    pub task : Fields
    pub is_dict : as_dict v ≡ some task
    pub history : List Json
    pub history_read : list_item "attempts" task ≡ ok history
    pub manifests : List AttemptManifest
    pub manifests_read : map_result (bound_manifest from_isoformat load) history ≡ ok manifests
    pub upwards : Upwards task_id active 0 manifests
    pub status : Json
    pub status_read : item "status" task ≡ ok status
    pub final : is_done from_isoformat load status ≡ true → Final task manifests

  when_done :
      (done : Bool) (task : Fields) (manifests : List AttemptManifest)
      → (if done then check_final from_isoformat load task manifests else ok tt) ≡ ok tt
      → done ≡ true
      → Final task manifests
  when_done true task manifests h done = check_final-Final task manifests h
  when_done false task manifests h done = cc

  check_task_semantics-TaskBound :
      (active : List String) (task_id : String) (v : Json)
      → check_task_semantics from_isoformat load active (task_id, v) ≡ ok tt
      → TaskBound active task_id v
  unfolding check_task_semantics
  check_task_semantics-TaskBound active task_id v h =
      next (expect (as_dict v) key_error) _ h (λ task is_dict h1.
        next (list_item "attempts" task) _ h1 (λ history history_read h2.
          next (check_task_history from_isoformat load task_id active 0 history) _ h2
            (λ manifests checked h3. next (item "status" task) _ h3 (λ status status_read h4.
              let (reads, up) =
                check_task_history-Upwards task_id active 0 history manifests checked in
              record {
                task = task;
                is_dict = expect-some (as_dict v) _ task is_dict;
                history = history;
                history_read = history_read;
                manifests = manifests;
                manifests_read = reads;
                upwards = up;
                status = status;
                status_read = status_read;
                final = when_done (is_done from_isoformat load status) task manifests h4;
              }))))

  abbrev pub IsTaskBound : List String → String × Json → Type 0
  IsTaskBound active (task_id, v) = TaskBound active task_id v

  tasks-bound :
      (active : List String) (tasks : List (String × Json))
      → each (check_task_semantics from_isoformat load active) tasks ≡ ok tt
      → All (IsTaskBound active) tasks
  tasks-bound active [] h = tt
  tasks-bound active ((task_id, v) ∷ tasks) h =
      next (check_task_semantics from_isoformat load active (task_id, v)) _ h (λ _ here rest.
        (check_task_semantics-TaskBound active task_id v here, tasks-bound active tasks rest))

  abbrev pub Bound : Fields → Type 0
  Bound state =
      (active : List String) × (active_tokens state ≡ ok active)
      × ((tasks : Fields) × (dict_item "tasks" state ≡ ok tasks)
          × All (IsTaskBound active) (entries tasks))

  -- In a state that is accepted with the artifacts that it binds, the history of each Task names
  -- manifests of this Task's worker with rising numbers, none of which has a token that is still active; and a Task
  -- that is INTEGRATING or COMPLETED has a last manifest that succeeded, with the Task's own result and verification.
  pub validate_bound_state_semantics-Bound :
      (state : Fields)
      → validate_bound_state_semantics from_isoformat load state ≡ ok tt
      → Bound state
  unfolding validate_bound_state_semantics
  validate_bound_state_semantics-Bound state h =
      next (active_tokens state) _ h (λ active active_read h1.
        next (dict_item "role_attempts" state) _ h1 (λ roles _ h2.
          next (list_item "planner" roles) _ h2 (λ planner _ h3.
            next (check_role_history from_isoformat load "planner" active [] [] planner) _ h3
              (λ _ _ h4. next (list_item "evaluator" roles) _ h4 (λ evaluator _ h5.
                next (check_role_history from_isoformat load "evaluator" active [] [] evaluator) _
                  h5
                  (λ _ _ h6. next (dict_item "tasks" state) _ h6 (λ tasks tasks_read h7.
                    next (each (check_task_semantics from_isoformat load active) (entries tasks)) _
                      h7
                      (λ _ bound _. (
                        active,
                        active_read,
                        (tasks, tasks_read, tasks-bound active (entries tasks) bound),
                      )))))))))
