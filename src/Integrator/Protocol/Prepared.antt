-- ===== src/Integrator/Protocol/Prepared.antt =====
-- What `_persist_pending` of src/vibe/integrator.py leaves for `recover`.
use vibe_coding_harness.Prelude.{suc, String, ◌≡◌, some, [], ◌∷◌, ok}
use vibe_coding_harness.Json.{Fields, dict}
use vibe_coding_harness.Models.Contracts.{ArtifactRef}
use vibe_coding_harness.Models.Access.{dict_item}
use vibe_coding_harness.Models.Validation.RunState.{validate_run_state}
use vibe_coding_harness.Store.{Platform}
use vibe_coding_harness.Integrator.{PendingIntegration, manifest_path, bind, nat_item}
use vibe_coding_harness.Integrator.Preparation.{manifest_body, Marked, bind-Marked}
use vibe_coding_harness.Integrator.World.{Git, World}
use vibe_coding_harness.Integrator.Protocol.{persist_pending}
use vibe_coding_harness.Integrator.Protocol.Recovery.{after_read, transact_from-Committed}

module _ {R : Type 0} (env : Platform) (git : Git R) where
  abbrev pub Prepared : String → ArtifactRef → PendingIntegration → World R → World R → Type 0
  Prepared contract_id verification p w w' =
      (w'.repository ≡ w.repository)
      × ((new : Fields) × (w'.disk.state ≡ some (dict new))
          × (validate_run_state env.from_isoformat (dict new) ≡ ok new)
          × Marked contract_id verification p new)

  -- When the marker of an integration is written, the branch is where it was, and the valid state in
  -- the run directory gives `recover` the very integration that was handed over. The Task of the
  -- contract is INTEGRATING, has no active Attempt, and names the verification of the candidate.
  pub persist_pending-Prepared :
      (state : Fields) (contract_id : String) (source_audit verification : ArtifactRef)
      (p : PendingIntegration) (completed_at : String) (w w' : World R) (new : Fields)
      → persist_pending env git state contract_id source_audit verification p completed_at w
        ≡ (ok new, w')
      → Prepared contract_id verification p w w'
  unfolding persist_pending
  persist_pending-Prepared state contract_id source_audit verification p completed_at w w' new h =
      after_read (dict_item "tasks" state) w _ h (λ tasks _ h1.
        after_read (dict_item contract_id tasks) w _ h1 (λ task _ h2.
          after_read (dict_item "active_attempt" task) w _ h2 (λ active _ h3.
            after_read (nat_item "attempt_no" task) w _ h3 (λ attempt_no _ h4.
              after_read
                (manifest_body contract_id attempt_no source_audit verification completed_at task
                  active)
                w _ h4
                (λ body _ h5.
                  let path = manifest_path contract_id attempt_no in
                  let marks = bind path contract_id verification p (dict active) completed_at in
                  let (n, c, kept) =
                    transact_from-Committed env git state ((path, env.dumps body) ∷ []) marks w w'
                      new h5 in
                  (
                    kept,
                    (
                      new,
                      c.state_written,
                      c.prepared.valid,
                      bind-Marked path contract_id verification p (dict active) completed_at
                          c.prepared.given c.prepared.references c.prepared.updated new (suc n)
                          c.prepared.mutated c.prepared.new_state,
                    ),
                  ))))))
