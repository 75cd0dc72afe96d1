-- ===== src/Integrator/Protocol/Halted.antt =====
-- `recover` of src/vibe/integrator.py on a run that is already paused or stopped.
use vibe_coding_harness.Prelude.{
  String, true, ◌≡◌, ◌≢◌, sym, ap, ◌∙◌, inl, inr, some, ok, ok-injective, eq_iff,
}
use vibe_coding_harness.Json.{Fields, str, get, dict}
use vibe_coding_harness.Models.Status.{
  RunStatus, run_value, created, planning, executing, global_verifying, evaluating, repairing,
}
use vibe_coding_harness.Models.Transition.{is_halt}
use vibe_coding_harness.Models.Transition.Phases.{live, halted, ended, is_active}
use vibe_coding_harness.Models.Transition.Moves.{run_value-injective}
use vibe_coding_harness.Models.Validation.Coherence.{Meaning, validate_run_state-Meaning}
use vibe_coding_harness.Store.{Platform}
use vibe_coding_harness.Store.Transactions.{load}
use vibe_coding_harness.Integrator.{
  IntegrationRecovery, retry_cas, complete_state, pause, PendingIntegration, pending_of,
  integration_ref,
}
use vibe_coding_harness.Integrator.World.{Git, World}
use vibe_coding_harness.Integrator.Protocol.{recover}
use vibe_coding_harness.Integrator.Protocol.Recovery.{GitLaws, Settled, Place}
use vibe_coding_harness.Integrator.Protocol.Settled.{recover-Recovered}

active_or_halted : (a : RunStatus) → is_active a ≡ true → is_halt a ≢ true
active_or_halted created h k = cc
active_or_halted planning h k = cc
active_or_halted executing h k = cc
active_or_halted global_verifying h k = cc
active_or_halted evaluating h k = cc
active_or_halted repairing h k = cc
active_or_halted _ h k = cc

-- A state that is valid never resumes at a status at which a run is halted.
valid_resume :
    (s : Fields) (c : RunStatus)
    → Meaning s
    → get "resume_status" s ≡ some (str (run_value c))
    → is_halt c ≢ true
valid_resume s c (inl w) read h = let none_read = w.no_resume in cc
valid_resume s c (inr (live a, (_, none_read, _), _)) read h = cc
valid_resume s c (inr (ended a, (_, none_read, _), _)) read h = cc
valid_resume s c (inr (halted k a, (_, names, _, active), _)) read h =
    let same : str (run_value a) ≡ str (run_value c) = cc (names, read) in
    let texts : run_value a ≡ run_value c = cc same in
    let is_same = run_value-injective a c ((eq_iff (run_value a) (run_value c)).1 texts) in
    active_or_halted a active (rw is_same at h)

module _ {R : Type 0} (env : Platform) (git : Git R) where
  no_pause_of_halted :
      (state : Fields) (p : PendingIntegration) (ref : String) (w w' : World R) (c : RunStatus)
      → get "status" state ≡ some (str (run_value c))
      → Settled env git pause state p ref w w'
      → is_halt c ≢ true
  no_pause_of_halted state p ref w w' c was (_, (new, _, valid, halted_run)) =
      valid_resume new c ((validate_run_state-Meaning env.from_isoformat (dict new) new valid).1)
        (halted_run.resumes ∙ was)

  elsewhere :
      (outcome : IntegrationRecovery) (state : Fields) (p : PendingIntegration) (ref head : String)
      (w w' : World R) (c : RunStatus)
      → Place outcome p head
      → Settled env git outcome state p ref w w'
      → head ≢ p.expected_head
      → head ≢ p.candidate_head
      → get "status" state ≡ some (str (run_value c))
      → is_halt c ≢ true
  elsewhere retry_cas state p ref head w w' c place settled differs _ status halts = differs place
  elsewhere complete_state state p ref head w w' c place settled _ differs status halts =
      differs place
  elsewhere pause state p ref head w w' c place settled _ _ status halts =
      no_pause_of_halted state p ref w w' c status settled halts

  -- Of a run that is already paused or stopped, a recovery never ends well while the branch names a
  -- third commit: neither the expected one nor the candidate.
  pub recover_halted :
      GitLaws git
      → (now : String) (w : World R) (state : Fields) (p : PendingIntegration) (ref head : String)
        (c : RunStatus)
      → load env w.disk ≡ ok state
      → pending_of state ≡ ok p
      → integration_ref state ≡ ok ref
      → git.resolve_ref ref w.repository ≡ ok head
      → head ≢ p.expected_head
      → head ≢ p.candidate_head
      → get "status" state ≡ some (str (run_value c))
      → is_halt c ≡ true
      → (outcome : IntegrationRecovery) (w' : World R) → recover env git now w ≢ (ok outcome, w')
  recover_halted laws now w state p ref head c read pending_read ref_read head_read not_expected
        not_candidate status halts outcome w' h =
      let r = recover-Recovered env git laws now outcome w w' h in
      let same_state : r.state ≡ state = ok-injective (sym r.state_read ∙ read) in
      let same_pending : r.pending ≡ p =
        ok-injective (sym r.pending_read ∙ ap pending_of same_state ∙ pending_read) in
      let same_ref : r.ref ≡ ref =
        ok-injective (sym r.ref_read ∙ ap integration_ref same_state ∙ ref_read) in
      let same_head : r.head ≡ head =
        ok-injective
          (sym r.head_read ∙ ap (λ x. git.resolve_ref x w.repository) same_ref ∙ head_read) in
      elsewhere outcome r.state r.pending r.ref r.head w w' c r.place r.settled
        (λ e.
          not_expected
            (sym same_head ∙ e ∙ ap (λ (x : PendingIntegration). x.expected_head) same_pending))
        (λ e.
          not_candidate
            (sym same_head ∙ e ∙ ap (λ (x : PendingIntegration). x.candidate_head) same_pending))
        (ap (get "status") same_state ∙ status) halts
