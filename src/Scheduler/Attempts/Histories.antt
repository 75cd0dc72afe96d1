-- ===== src/Scheduler/Attempts/Histories.antt =====
-- Whole lives of a task: any sequence of the operations on its state.
use vibe_coding_harness.Prelude.{
  ℕ, suc, ◌+◌, ◌≤◌, ◌<◌, String, Bool, true, false, ◌≡◌, refl, sym, subst, ◌∙◌, Option, Result, ok,
  ◌>>=◌, >>=-eq-ok, ok-injective, arith, ◌==◌, if◌then◌else◌, List, [], ◌∷◌, ltb, Bool-cases, inl,
  inr,
}
use vibe_coding_harness.Json.{Fields, str}
use vibe_coding_harness.Models.Contracts.{ArtifactRef, TaskContract}
use vibe_coding_harness.Scheduler.Attempts.{
  TaskWorktree, status_in, new_task_state, start_attempt, bind_attempt_preflight, close_attempt,
}
use vibe_coding_harness.Scheduler.Attempts.Counters.{
  Counts, is_retry, closed_word, new_task_state-Counts, start_attempt-Counts,
  bind_attempt_preflight-Counts, close_attempt-busy, close_attempt-final, close_attempt-retry,
}

-- A call on a task state, with its arguments.
pub data Event : Type 0 where
  start : (base : String) (worktree : TaskWorktree) (token now : String) → Event
  bind : (token : String) (preflight : ArtifactRef) → Event
  close : (outcome : String) (error : Option Fields) (retryable : Bool) → Event

unfoldable pub apply : Fields → Event → Result Fields
apply s (start base worktree token now) = start_attempt s base worktree token now
apply s (bind token preflight) = bind_attempt_preflight s token preflight
apply s (close outcome error retryable) = close_attempt s outcome error retryable

unfoldable pub apply_all : Fields → List Event → Result Fields
unfolding apply
apply_all s [] = ok s
apply_all s (e ∷ es) = apply s e >>= λ s'. apply_all s' es

abbrev pub starts : List Event → ℕ
starts [] = 0
starts (start base worktree token now ∷ es) = suc (starts es)
starts (_ ∷ es) = starts es

abbrev pub retries : List Event → ℕ
retries [] = 0
retries (close outcome error retryable ∷ es) =
    (if is_retry outcome retryable then 1 else 0) + retries es
retries (_ ∷ es) = retries es

abbrev idle : String → Bool
idle status = status_in ("PENDING" ∷ "READY" ∷ []) (str status)

abbrev busy : String → Bool
busy status = status_in ("RUNNING" ∷ "READY_TO_INTEGRATE" ∷ []) (str status)

-- The invariant: the Attempts are one more than the retryable failures while one is open, and
-- as many between two Attempts; there are never more than the task may have.
record Inv (s : Fields) (m : ℕ) : Type 0 where
  status : String
  attempts : ℕ
  failures : ℕ
  counted : Counts s status attempts failures m
  between : idle status ≡ true → attempts ≡ failures
  open_attempt : busy status ≡ true → (attempts ≡ suc failures) × (failures < m)
  bounded : attempts ≤ m
  failed_less : failures ≤ attempts
  started_more : attempts ≤ suc failures

abbrev retry_count : Event → ℕ
retry_count (close outcome error retryable) = if is_retry outcome retryable then 1 else 0
retry_count _ = 0

abbrev start_count : Event → ℕ
start_count (start base worktree token now) = 1
start_count _ = 0

record Next (s' : Fields) (m n f : ℕ) (e : Event) : Type 0 where
  inv : Inv s' m
  attempts' : inv.attempts ≡ n + start_count e
  failures' : inv.failures ≡ f + retry_count e

word_after : (b : Bool) → busy (if b then "READY" else "FAILED") ≡ false
word_after true = refl
word_after false = refl

closed_word-final :
    (outcome : String) → (idle (closed_word outcome) ≡ false) × (busy (closed_word outcome) ≡ false)
closed_word-final outcome = elim (Bool-cases (outcome == "SUCCEEDED")) [
  | inl a ↦ rw a (refl, refl)
  | inr b ↦ elim (Bool-cases (outcome == "CANCELLED")) [
    | inl c ↦ rw (b, c) (refl, refl)
    | inr d ↦ rw (b, d) (refl, refl)
  ]
]

module _ (s s' : Fields) (m : ℕ) (i : Inv s m) where
  open i use {
    status, attempts, failures, counted, between, open_attempt, bounded, failed_less, started_more,
  }

  start-Next :
      (base : String) (worktree : TaskWorktree) (token now : String)
      → start_attempt s base worktree token now ≡ ok s'
      → Next s' m attempts failures (start base worktree token now)
  start-Next base worktree token now h =
      let (c, room, was_idle) =
        start_attempt-Counts s status attempts failures m counted s' base worktree token now h in
      let level = between was_idle in
      record {
        inv = record {
          status = "RUNNING";
          attempts = suc attempts;
          failures = failures;
          counted = c;
          between = λ x. cc;
          open_attempt = λ x. (omega arith, room);
          bounded = omega arith;
          failed_less = omega arith;
          started_more = omega arith;
        };
        attempts' = omega arith;
        failures' = omega arith;
      }

  bind-Next :
      (token : String) (preflight : ArtifactRef)
      → bind_attempt_preflight s token preflight ≡ ok s'
      → Next s' m attempts failures (bind token preflight)
  bind-Next token preflight h = record {
    inv = record {
      status = status;
      attempts = attempts;
      failures = failures;
      counted =
          bind_attempt_preflight-Counts s status attempts failures m counted s' token preflight h;
      between = between;
      open_attempt = open_attempt;
      bounded = bounded;
      failed_less = failed_less;
      started_more = started_more;
    };
    attempts' = omega arith;
    failures' = omega arith;
  }

  module _ (outcome : String) (error : Option Fields) (retryable : Bool)
      (h : close_attempt s outcome error retryable ≡ ok s') where
    close-final :
        is_retry outcome retryable ≡ false
        → Next s' m attempts failures (close outcome error retryable)
    close-final final = record {
      inv = record {
        status = closed_word outcome;
        attempts = attempts;
        failures = failures;
        counted =
            close_attempt-final s s' status attempts failures m counted outcome error retryable h
              final;
        between = λ x. let e = sym (closed_word-final outcome).0 ∙ x in cc;
        open_attempt = λ x. let e = sym (closed_word-final outcome).1 ∙ x in cc;
        bounded = bounded;
        failed_less = failed_less;
        started_more = started_more;
      };
      attempts' = omega arith;
      failures' = rw final (omega arith);
    }

    close-retry :
        is_retry outcome retryable ≡ true
        → Next s' m attempts failures (close outcome error retryable)
    close-retry again =
        let (level, room) =
          open_attempt (
            close_attempt-busy s s' status attempts failures m counted outcome error retryable h) in
        let after = word_after (ltb (suc failures) m) in
        record {
          inv = record {
            status = if ltb (suc failures) m then "READY" else "FAILED";
            attempts = attempts;
            failures = suc failures;
            counted =
                close_attempt-retry s s' status attempts failures m counted outcome error retryable
                  h again;
            between = λ x. level;
            open_attempt = λ x. let e = sym after ∙ x in cc;
            bounded = bounded;
            failed_less = omega arith;
            started_more = omega arith;
          };
          attempts' = omega arith;
          failures' = rw again (omega arith);
        }

  apply-Next : (e : Event) → apply s e ≡ ok s' → Next s' m attempts failures e
  unfolding apply
  apply-Next (start base worktree token now) h = start-Next base worktree token now h
  apply-Next (bind token preflight) h = bind-Next token preflight h
  apply-Next (close outcome error retryable) h = elim (Bool-cases (is_retry outcome retryable)) [
    | inl again ↦ close-retry outcome error retryable h again
    | inr final ↦ close-final outcome error retryable h final
  ]

starts-cons : (e : Event) (es : List Event) → starts (e ∷ es) ≡ start_count e + starts es
starts-cons (start base worktree token now) es = omega arith
starts-cons (bind token preflight) es = omega arith
starts-cons (close outcome error retryable) es = omega arith

retries-cons : (e : Event) (es : List Event) → retries (e ∷ es) ≡ retry_count e + retries es
retries-cons (start base worktree token now) es = omega arith
retries-cons (bind token preflight) es = omega arith
retries-cons (close outcome error retryable) es = refl

apply_all-Inv :
    (es : List Event) (s s' : Fields) (m : ℕ) (i : Inv s m)
    → apply_all s es ≡ ok s'
    → (j : Inv s' m) × (j.attempts ≡ i.attempts + starts es)
      × (j.failures ≡ i.failures + retries es)
unfolding apply_all
apply_all-Inv [] s s' m i h =
    subst (λ x. (j : Inv x m) × (j.attempts ≡ i.attempts + 0) × (j.failures ≡ i.failures + 0))
      (ok-injective h) (i, omega arith, omega arith)
apply_all-Inv (e ∷ es) s s' m i h =
    let (u, first, rest) = >>=-eq-ok (apply s e) (λ s'. apply_all s' es) h in
    let next = apply-Next s u m i e first in
    let (j, a, b) = apply_all-Inv es u s' m next.inv rest in
    (
      j,
      omega (arith, starts-cons e es, next.attempts'),
      omega (arith, retries-cons e es, next.failures'),
    )

pending-Inv : (c : TaskContract) (s : Fields) → new_task_state c ≡ ok s → Inv s c.max_attempts
pending-Inv c s h =
    let (counted, some_left) = new_task_state-Counts c s h in
    record {
      status = "PENDING";
      attempts = 0;
      failures = 0;
      counted = counted;
      between = λ x. refl;
      open_attempt = λ x. cc;
      bounded = omega arith;
      failed_less = omega arith;
      started_more = omega arith;
    }

-- However the operations are called on the state of a new task, as long as each is accepted: the
-- task gets at most `max_attempts` Attempts, and each Attempt but the last one is ended by a
-- retryable failure.
pub attempts_bounded :
    (c : TaskContract) (s s' : Fields) (es : List Event)
    → new_task_state c ≡ ok s
    → apply_all s es ≡ ok s'
    → (starts es ≤ c.max_attempts) × (starts es ≤ retries es + 1) × (retries es ≤ starts es)
unfolding pending-Inv
attempts_bounded c s s' es h run =
    let i = pending-Inv c s h in
    let (j, a, b) = apply_all-Inv es s s' c.max_attempts i run in
    (
      omega (arith, j.bounded, j.failed_less, j.started_more),
      omega (arith, j.bounded, j.failed_less, j.started_more),
      omega (arith, j.bounded, j.failed_less, j.started_more),
    )
