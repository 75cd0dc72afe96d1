-- ===== src/Models/Transition/Traces.antt =====
-- Whole runs of `transition_run`: a list of targets, applied one after the other.
use vibe_coding_harness.Prelude.{
  String, Bool, ◌≡◌, refl, sym, ◌∙◌, true, false, some, Result, ok, ◌>>=◌, >>=-eq-ok, List, [], ◌∷◌,
  In, arith, ap, expect, key_error, Option, eq_iff, ◌⊎◌, inl, inr,
}
use mathlib.Core.Bool.{false≢true}
use vibe_coding_harness.Json.{Fields, null, str, get, put}
use vibe_coding_harness.Json.Laws.{get-put}
use vibe_coding_harness.Models.Status.{
  RunStatus, created, planning, executing, global_verifying, evaluating, repairing, run_value,
}
use vibe_coding_harness.Models.Transition.{transition_run, is_halt, to_run_status}
use vibe_coding_harness.Models.Transition.Phases.{
  Phase, live, halted, ended, Represents, after, shown, plan, execute, verify, evaluate,
  verification_failed, repaired, ◌⟶◌, Advances, advance, succeed, fail, pause, stop, stop_paused,
  resume,
}
use vibe_coding_harness.Models.Transition.Moves.{
  halt-live, resume-halted, accepted, update-resuming, to_run_status-value,
}
use vibe_coding_harness.Models.Transition.Refinement.{transition_run-refines}

unfoldable pub run_targets : Fields → List RunStatus → Result Fields
run_targets s [] = ok s
run_targets s (t ∷ ts) = transition_run s t >>= λ s'. run_targets s' ts

-- Being in a phase from which success is only reached through a milestone.
abbrev needs : RunStatus → RunStatus → Bool
needs planning created = true
needs executing created = true
needs executing planning = true
needs executing repairing = true
needs global_verifying created = true
needs global_verifying planning = true
needs global_verifying repairing = true
needs global_verifying executing = true
needs evaluating created = true
needs evaluating planning = true
needs evaluating repairing = true
needs evaluating executing = true
needs evaluating global_verifying = true
needs _ _ = false

abbrev before : RunStatus → Phase → Bool
before m (live a) = needs m a
before m (halted h a) = needs m a
before m (ended RunStatus.succeeded) = false
before m (ended _) = true

-- An advance out of a state that still needs a milestone reaches it, or still needs it.
advance-needs :
    (m : RunStatus) {a b : RunStatus}
    → Advances a b
    → needs m a ≡ true
    → (b ≡ m) ⊎ (needs m b ≡ true)
advance-needs created _ h = absurd (false≢true h)
advance-needs planning plan h = inl refl
advance-needs planning _ h = absurd (false≢true h)
advance-needs executing plan h = inr refl
advance-needs executing execute h = inl refl
advance-needs executing repaired h = inl refl
advance-needs executing _ h = absurd (false≢true h)
advance-needs global_verifying plan h = inr refl
advance-needs global_verifying execute h = inr refl
advance-needs global_verifying repaired h = inr refl
advance-needs global_verifying verify h = inl refl
advance-needs global_verifying _ h = absurd (false≢true h)
advance-needs evaluating plan h = inr refl
advance-needs evaluating execute h = inr refl
advance-needs evaluating repaired h = inr refl
advance-needs evaluating verify h = inr refl
advance-needs evaluating evaluate h = inl refl
advance-needs evaluating verification_failed h = inr refl
advance-needs evaluating _ h = absurd (false≢true h)
advance-needs _ _ h = absurd (false≢true h)

no-needs_evaluating : (m : RunStatus) → needs m evaluating ≡ false
no-needs_evaluating created = refl
no-needs_evaluating _ = refl

step-needs :
    (m : RunStatus) {p q : Phase} → p ⟶ q → before m p ≡ true → (shown q ≡ m) ⊎ (before m q ≡ true)
step-needs m (advance step) h = advance-needs m step h
step-needs m succeed h = absurd (false≢true (sym (no-needs_evaluating m) ∙ h))
step-needs m (fail i started) h = inr refl
step-needs m (pause i) h = inr h
step-needs m (stop i) h = inr h
step-needs m (stop_paused i) h = inr h
step-needs m (resume halts i) h = inr h

shown-after : (p : Phase) (t : RunStatus) {q : Phase} → p ⟶ q → shown (after p t) ≡ t
shown-after (live a) t _ = ground arith
shown-after (halted h a) t _ = ground arith
shown-after (ended e) t step = elim (none_left step refl) [ ]
  where
    none_left : {p q : Phase} → p ⟶ q → p ≡ ended e → ⊥
    none_left (advance x) h = cc
    none_left _ h = cc

status-injective :
    (s : Fields) (c d : RunStatus)
    → get "status" s ≡ some (str (run_value c))
    → get "status" s ≡ some (str (run_value d))
    → c ≡ d
status-injective s c d p q =
    let same : Option.some (str (run_value c)) ≡ some (str (run_value d)) = sym p ∙ q in
    cc (
      ap (λ v. expect v key_error >>= to_run_status) same,
      to_run_status-value c,
      to_run_status-value d,
    )

-- A run that still needs a milestone has not succeeded.
unfinished :
    (m : RunStatus) (p : Phase) (s : Fields)
    → Represents s p
    → before m p ≡ true
    → get "status" s ≡ some (str (run_value RunStatus.succeeded))
    → ⊥
unfinished m (live a) s r b done =
    let e = status-injective s a RunStatus.succeeded r.0 done in absurd (false≢true (rw e at r.2))
unfinished m (halted h a) s r b done =
    let e = status-injective s h RunStatus.succeeded r.0 done in absurd (false≢true (rw e at r.2))
unfinished m (ended o) s r b done =
    let e = status-injective s o RunStatus.succeeded r.0 done in absurd (false≢true (rw e at b))

run-needs :
    (m : RunStatus) (ts : List RunStatus) (s s' : Fields) (p : Phase)
    → Represents s p
    → before m p ≡ true
    → run_targets s ts ≡ ok s'
    → get "status" s' ≡ some (str (run_value RunStatus.succeeded))
    → In m ts
unfolding run_targets
run-needs m [] s s' p r b e done =
    let same : s' ≡ s = cc in absurd (unfinished m p s r b (rw same at done))
run-needs m (t ∷ ts) s s' p r b e done =
    let (u, first, rest) = >>=-eq-ok (transition_run s t) (λ s'. run_targets s' ts) e in
    let (r', step) = transition_run-refines s u p t r first in
    elim (step-needs m step b) [
      | inl here ↦ inl (sym here ∙ shown-after p t step)
      | inr later ↦ inr (run-needs m ts u s' (after p t) r' later rest done)
    ]

-- A run that starts as CREATED and reaches SUCCEEDED has been moved to PLANNING, to EXECUTING, to
-- GLOBAL_VERIFYING and to EVALUATING on the way, whatever pauses, stops and repairs it had.
pub success-needs :
    (ts : List RunStatus) (s s' : Fields)
    → Represents s (live created)
    → run_targets s ts ≡ ok s'
    → get "status" s' ≡ some (str (run_value RunStatus.succeeded))
    → In planning ts × In executing ts × In global_verifying ts × In evaluating ts
success-needs ts s s' r e done = (
  run-needs planning ts s s' (live created) r refl e done,
  run-needs executing ts s s' (live created) r refl e done,
  run-needs global_verifying ts s s' (live created) r refl e done,
  run-needs evaluating ts s s' (live created) r refl e done,
)

ok-injective : {a b : Fields} → ok a ≡ ok b → a ≡ b
ok-injective e = cc

-- The fields of a state that a halt and the resumption after it have rewritten.
restored :
    (k : String) (s : Fields) (a h : RunStatus)
    → Represents s (live a)
    → get k (
        put "status" (str (run_value a)) (
          put "resume_status" null
            (put "status" (str (run_value h)) (put "resume_status" (str (run_value a)) s))))
      ≡ get k s
restored k s a h r = simp get-put (ground (arith, eq_iff "status" k, eq_iff "resume_status" k))

-- Halting a working run and resuming it gives back every field of the state, and the only target
-- at which a halted run goes on is the activity that it was halted in.
pub halt-resume :
    (s s' s'' : Fields) (a h t : RunStatus)
    → Represents s (live a)
    → is_halt h ≡ true
    → is_halt t ≡ false
    → transition_run s h ≡ ok s'
    → transition_run s' t ≡ ok s''
    → (t ≡ a) × ((k : String) → get k s'' ≡ get k s)
halt-resume s s' s'' a h t r halts goes_on e e' =
    let (r', _) = transition_run-refines s s' (live a) h r e in
    let q : Represents s' (halted h a) = rw halts at r' in
    let (u, _, made, _) = accepted s' s'' h t q.0 e' in
    let same = (update-resuming h t s' u made a q.1 q.2 goes_on).0 in
    let back = rw same at e' in
    (
      same,
      λ k.
          let first = sym e ∙ halt-live s a h r.0 r.2 halts in
          let second = sym back ∙ resume-halted s' h a q.0 q.1 q.2 q.3 in
          let s'_eq = ok-injective first in
          let s''_eq = ok-injective second in
          ap (get k)
            (s''_eq ∙ ap (λ x. put "status" (str (run_value a)) (put "resume_status" null x)) s'_eq)
          ∙ restored k s a h r,
    )
