-- ===== src/Scheduler/Attempts/Counters.antt =====
-- What the operations on a task state do to its counters and its status.
use vibe_coding_harness.Prelude.{
  ℕ, suc, ◌≤◌, ◌<◌, String, Bool, true, false, not, ◌||◌, ◌&&◌, ◌≡◌, refl, sym, subst, ◌∙◌, some,
  Option, ok, ◌>>◌, >>=-eq-ok, past_reject_if, expect, reject_if, arith, ◌==◌, if◌then◌else◌, [],
  ◌∷◌, ltb, ok-injective, le_of_ltb-false,
}
use vibe_coding_harness.Json.{
  Json, Fields, int, str, null, pos, get, get_or, get_value, ℤ, put, as_dict,
}
use vibe_coding_harness.Prelude.Patterns.{task_id_re}
use vibe_coding_harness.Json.Laws.{get-put}
use vibe_coding_harness.Models.Contracts.{ArtifactRef, TaskContract}
use vibe_coding_harness.Scheduler.Attempts.{
  TaskWorktree, status_in, next_int, new_task_state, start_attempt, bind_attempt_preflight,
  close_attempt, finish_attempt, count_failure, check_counters, check_close, check_preflight,
  not_ready, begin_attempt, pending_task, check_identity, error_value, control_relative_path,
  new_attempt,
}

-- The state of a task as far as its Attempts are counted.
abbrev pub Counts : Fields → String → ℕ → ℕ → ℕ → Type 0
Counts s status attempts failures maximum =
    (get "status" s ≡ some (str status))
    × (get "attempt_no" s ≡ some (int (pos attempts)))
    × (get "failure_count" s ≡ some (int (pos failures)))
    × (get "max_attempts" s ≡ some (int (pos maximum)))

value_of : (k : String) (v : Json) (s : Fields) → get k s ≡ some v → get_value k s ≡ v
unfolding get_value
value_of k v s h = rw (h, get_or)

pending_task-Counts : (m : ℕ) → Counts (pending_task m) "PENDING" 0 0 m
unfolding pending_task get
pending_task-Counts m = (refl, refl, refl, refl)

pub new_task_state-Counts :
    (c : TaskContract) (s : Fields)
    → new_task_state c ≡ ok s
    → Counts s "PENDING" 0 0 c.max_attempts × (1 ≤ c.max_attempts)
unfolding new_task_state
new_task_state-Counts c s h =
    let (_, h') =
      past_reject_if (not (task_id_re c.id)) "task contract has an invalid ID"
        (reject_if (ltb c.max_attempts 1) "task contract max_attempts is invalid"
          >> ok (pending_task c.max_attempts))
        h in
    let (many, h'') =
      past_reject_if (ltb c.max_attempts 1) "task contract max_attempts is invalid"
        (ok (pending_task c.max_attempts)) h' in
    (
      subst (λ x. Counts x "PENDING" 0 0 c.max_attempts) (ok-injective h'')
          (pending_task-Counts c.max_attempts),
      omega (arith, le_of_ltb-false c.max_attempts 1 many),
    )

-- A failure that may be retried, among the four outcomes of an Attempt.
abbrev pub is_retry : String → Bool → Bool
is_retry outcome retryable =
    not (outcome == "SUCCEEDED" || outcome == "CANCELLED" || outcome == "ABANDONED") && retryable

-- The status behind an outcome that does not allow another Attempt.
abbrev pub closed_word : String → String
closed_word outcome =
    if outcome == "SUCCEEDED"
    then "INTEGRATING"
    else if outcome == "CANCELLED"
    then "CANCELLED"
    else "FAILED"

module _ (s : Fields) (status : String) (n f m : ℕ) (c : Counts s status n f m) where
  check_counters-lt : (k : ℤ) → check_counters s ≡ ok k → (k ≡ pos n) × (f < m)
  unfolding check_counters
  check_counters-lt k h =
      let h' =
        rw
          (
            value_of "attempt_no" _ s c.1,
            value_of "failure_count" _ s c.2,
            value_of "max_attempts" _ s c.3,
          )
          at h in
      ground arith

  not_ready-status : not_ready s ≡ false → status_in ("PENDING" ∷ "READY" ∷ []) (str status) ≡ true
  unfolding not_ready
  not_ready-status h = let h' = rw (value_of "status" _ s c.0) at h in ground arith

  begin_attempt-Counts :
      (attempt : Json) → Counts (begin_attempt s attempt (pos (suc n))) "RUNNING" (suc n) f m
  unfolding begin_attempt
  begin_attempt-Counts attempt = (simp get-put, simp get-put, simp get-put c.2, simp get-put c.3)

  pub start_attempt-Counts :
      (s' : Fields) (base : String) (worktree : TaskWorktree) (token now : String)
      → start_attempt s base worktree token now ≡ ok s'
      → Counts s' "RUNNING" (suc n) f m
        × (f < m)
        × (status_in ("PENDING" ∷ "READY" ∷ []) (str status) ≡ true)
  unfolding start_attempt
  start_attempt-Counts s' base worktree token now h =
      let (ready, h1) = past_reject_if (not_ready s) "task is not ready for a new Attempt" _ h in
      let (k, counted, h2) = >>=-eq-ok (check_counters s) _ h1 in
      let (k_n, room) = check_counters-lt k counted in
      let (_, _, h3) = >>=-eq-ok (check_identity base worktree token (next_int k)) _ h2 in
      let (relative, _, h4) = >>=-eq-ok (control_relative_path worktree.path) _ h3 in
      (
        subst (λ x. Counts x "RUNNING" (suc n) f m) (ok-injective h4)
            (subst
              (λ i.
                Counts
                  (begin_attempt s (new_attempt base worktree token now (next_int k) relative)
                    (next_int i))
                  "RUNNING" (suc n) f m)
              (sym k_n) (begin_attempt-Counts _)),
        room,
        not_ready-status ready,
      )

  pub bind_attempt_preflight-Counts :
      (s' : Fields) (token : String) (preflight : ArtifactRef)
      → bind_attempt_preflight s token preflight ≡ ok s'
      → Counts s' status n f m
  unfolding bind_attempt_preflight
  bind_attempt_preflight-Counts s' token preflight h =
      let (active, _, h1) = >>=-eq-ok (expect (as_dict (get_value "active_attempt" s)) _) _ h in
      let (_, _, h2) = >>=-eq-ok (check_preflight s active token preflight) _ h1 in
      rw (← ok-injective h2)
        (simp get-put c.0, simp get-put c.1, simp get-put c.2, simp get-put c.3)

  count_failure-eq :
      count_failure s
      ≡ ok (
          put "status"
            (str (if ltb (suc f) m then "READY" else "FAILED"))
            (put "failure_count" (int (pos (suc f))) s))
  unfolding count_failure
  count_failure-eq = rw (value_of "failure_count" _ s c.2, value_of "max_attempts" _ s c.3)

finish-word :
    (s s' : Fields) (outcome : String) (retryable : Bool)
    → is_retry outcome retryable ≡ false
    → finish_attempt s outcome retryable ≡ ok s'
    → s' ≡ put "status" (str (closed_word outcome)) s
unfolding finish_attempt
finish-word s s' outcome retryable final h = ground arith

finish-retry :
    (s : Fields) (outcome : String) (retryable : Bool)
    → is_retry outcome retryable ≡ true
    → finish_attempt s outcome retryable ≡ count_failure s
unfolding finish_attempt
finish-retry s outcome retryable again = ground arith

closed-Counts :
    (s : Fields) (status : String) (n f m : ℕ) (error : Option Fields)
    → Counts s status n f m
    → Counts (put "last_error" (error_value error) (put "active_attempt" null s)) status n f m
closed-Counts s status n f m error c =
    (simp get-put c.0, simp get-put c.1, simp get-put c.2, simp get-put c.3)

-- Closing an Attempt either ends the task's Attempts, or counts one more failure and leaves the
-- task READY while fewer failures are counted than it may have.
module _ (s s' : Fields) (status : String) (n f m : ℕ) (c : Counts s status n f m)
    (outcome : String) (error : Option Fields) (retryable : Bool)
    (h : close_attempt s outcome error retryable ≡ ok s') where
  close-finish :
      (status_in ("RUNNING" ∷ "READY_TO_INTEGRATE" ∷ []) (str status) ≡ true)
      × (finish_attempt
            (put "last_error" (error_value error) (put "active_attempt" null s))
            outcome
            retryable
          ≡ ok s')
  unfolding close_attempt check_close
  close-finish =
      let (_, checked, h') = >>=-eq-ok (check_close s outcome) _ h in
      let (active, _) =
        past_reject_if
          (not (status_in ("RUNNING" ∷ "READY_TO_INTEGRATE" ∷ []) (get_value "status" s)))
          "task has no active Attempt to close" _ checked in
      let active' = rw (value_of "status" _ s c.0) at active in (ground arith, h')

  pub close_attempt-busy : status_in ("RUNNING" ∷ "READY_TO_INTEGRATE" ∷ []) (str status) ≡ true
  close_attempt-busy = close-finish.0

  pub close_attempt-final :
      is_retry outcome retryable ≡ false → Counts s' (closed_word outcome) n f m
  close_attempt-final final =
      let e = finish-word _ s' outcome retryable final close-finish.1 in
      rw e (simp get-put, simp get-put c.1, simp get-put c.2, simp get-put c.3)

  pub close_attempt-retry :
      is_retry outcome retryable ≡ true
      → Counts s' (if ltb (suc f) m then "READY" else "FAILED") n (suc f) m
  close_attempt-retry again =
      let k = closed-Counts s status n f m error c in
      let e =
        sym (finish-retry _ outcome retryable again ∙ count_failure-eq _ status n f m k)
        ∙ close-finish.1 in
      rw (← ok-injective e) (simp get-put, simp get-put c.1, simp get-put, simp get-put c.3)
