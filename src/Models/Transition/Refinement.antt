-- ===== src/Models/Transition/Refinement.antt =====
-- `transition_run` implements the phases: each accepted call is a step, and each step is accepted.
use vibe_coding_harness.Prelude.{◌≡◌, refl, ok, err, contract, sym, ◌∙◌, ap, inl, inr, Bool-cases}
use vibe_coding_harness.Json.{Fields, get}
use vibe_coding_harness.Models.Status.{
  RunStatus, created, planning, executing, global_verifying, evaluating, repairing, paused, stopped,
}
use vibe_coding_harness.Models.Transition.{transition_run, update_resume, is_halt}
use vibe_coding_harness.Models.Transition.Phases.{
  Phase, live, halted, ended, Represents, after, shown, is_terminal, ◌⟶◌, plan, execute, verify,
  evaluate, verification_failed, evaluate_again, findings, repaired, advance, succeed, fail, pause,
  stop, stop_paused, resume,
}
use vibe_coding_harness.Models.Transition.Table.{
  active-fails, allows-step, halt-step, kind, not-halt_of_active, refused, resume-step,
}
use vibe_coding_harness.Models.Transition.Moves.{
  accepted, transition_run-read, written, update-halting, update-going, update-halted,
  update-resuming, go-live, halt-live, resume-halted,
}

module _ (s s' : Fields) (a t : RunStatus) (e : transition_run s t ≡ ok s') where
  live-next : Represents s (live a) → Represents s' (after (live a) t) × (live a ⟶ after (live a) t)
  live-next r =
      let (u, allowed, made, w) = accepted s s' a t r.0 e in
      let (status', resume') = written u s' t w in
      let calm = not-halt_of_active a r.2 in
      let run : Represents s' (after (live a) t) = elim (Bool-cases (is_halt t)) [
        | inl halts ↦
            rw halts (status', resume' ∙ update-halting a t s u made calm halts, halts, r.2)
        | inr goes_on ↦
            let same =
              resume' ∙ ap (get "resume_status") (update-going a t s u made calm goes_on) ∙ r.1 in
            elim (Bool-cases (is_terminal t)) [
              | inl ends ↦ rw (goes_on, ends) (status', same, ends)
              | inr works ↦ rw (goes_on, works) (status', same, kind t goes_on works)
            ]
      ] in
      (run, allows-step a t r.2 allowed)

  halted-next :
      (h : RunStatus)
      → Represents s (halted h a)
      → Represents s' (after (halted h a) t) × (halted h a ⟶ after (halted h a) t)
  halted-next h r =
      let (u, allowed, made, w) = accepted s s' h t r.0 e in
      let (status', resume') = written u s' t w in
      elim (Bool-cases (is_halt t)) [
        | inl halts ↦ (
          rw halts (
            status',
            resume' ∙ ap (get "resume_status") (update-halted h t s u made r.2 halts) ∙ r.1,
            halts,
            r.3,
          ),
          halt-step h a t r.2 r.3 halts allowed,
        )
        | inr goes_on ↦
            let (same, cleared) = update-resuming h t s u made a r.1 r.2 goes_on in
            (
              rw (same, not-halt_of_active a r.3) ((rw same at status'), resume' ∙ cleared, r.3),
              resume-step h a t r.2 r.3 same,
            )
      ]

-- A run that ended stays as it is: every transition is refused, whatever its target.
pub ended-transition :
    (s : Fields) (e t : RunStatus)
    → Represents s (ended e)
    → transition_run s t ≡ err (contract "invalid run transition")
ended-transition s e t r = transition_run-read s e t r.0 ∙ (rw (refused e t r.2))

-- Each accepted transition of a coherent run is a step of the abstract life, and the new state is
-- coherent and stands for the phase that the target names.
pub transition_run-refines :
    (s s' : Fields) (p : Phase) (t : RunStatus)
    → Represents s p
    → transition_run s t ≡ ok s'
    → Represents s' (after p t) × (p ⟶ after p t)
transition_run-refines s s' (live a) t r e = live-next s s' a t e r
transition_run-refines s s' (halted h a) t r e = halted-next s s' a t e h r
transition_run-refines s s' (ended o) t r e = let clash = sym (ended-transition s o t r) ∙ e in cc

-- Each step of the abstract life is a transition that the code accepts.
pub transition_run-accepts :
    (s : Fields) (p q : Phase)
    → Represents s p
    → p ⟶ q
    → (s' : Fields) × (transition_run s (shown q) ≡ ok s')
unfolding update_resume
transition_run-accepts s _ _ r (advance plan) = (_, go-live s created planning r.0 refl refl refl)
transition_run-accepts s _ _ r (advance execute) =
    (_, go-live s planning executing r.0 refl refl refl)
transition_run-accepts s _ _ r (advance verify) =
    (_, go-live s executing global_verifying r.0 refl refl refl)
transition_run-accepts s _ _ r (advance evaluate) =
    (_, go-live s global_verifying evaluating r.0 refl refl refl)
transition_run-accepts s _ _ r (advance verification_failed) =
    (_, go-live s global_verifying repairing r.0 refl refl refl)
transition_run-accepts s _ _ r (advance evaluate_again) =
    (_, go-live s evaluating evaluating r.0 refl refl refl)
transition_run-accepts s _ _ r (advance findings) =
    (_, go-live s evaluating repairing r.0 refl refl refl)
transition_run-accepts s _ _ r (advance repaired) =
    (_, go-live s repairing executing r.0 refl refl refl)
transition_run-accepts s _ _ r succeed =
    (_, go-live s evaluating RunStatus.succeeded r.0 refl refl refl)
transition_run-accepts s _ _ r (fail {a} i started) =
    (_, go-live s a RunStatus.failed r.0 i refl (active-fails a i started))
transition_run-accepts s _ _ r (pause {a} i) = (_, halt-live s a paused r.0 i refl)
transition_run-accepts s _ _ r (stop {a} i) = (_, halt-live s a stopped r.0 i refl)
transition_run-accepts s _ _ r (stop_paused {a} i) = (_, transition_run-read s paused stopped r.0)
transition_run-accepts s _ _ r (resume {h} {a} halts i) = (_, resume-halted s h a r.0 r.1 halts i)
