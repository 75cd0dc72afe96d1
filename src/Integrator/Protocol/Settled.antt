-- ===== src/Integrator/Protocol/Settled.antt =====
-- What `recover` of src/vibe/integrator.py has done when it ends well, by its outcome.
use vibe_coding_harness.Prelude.{
  suc, String, ◌≡◌, sym, ap, subst, ◌∙◌, [], ◌∷◌, Result, ok, ok-injective,
}
use vibe_coding_harness.Json.{Fields, put}
use vibe_coding_harness.Store.{Platform}
use vibe_coding_harness.Store.Transactions.{load}
use vibe_coding_harness.Integrator.{
  IntegrationRecovery, retry_cas, complete_state, pause, PendingIntegration, pending_of,
  integration_ref, evidence_path, evidence_body, pause_run,
}
use vibe_coding_harness.Integrator.Changes.{pause_run-PausedForRef}
use vibe_coding_harness.Integrator.World.{Git, World, load_state, resolve_ref}
use vibe_coding_harness.Integrator.Protocol.{
  apply_cas, classify_recovery, verify_pending, pause_for_ref_movement, settle, recover,
}
use vibe_coding_harness.Integrator.Protocol.Recovery.{
  GitLaws, after, after_read, transact_from-Committed, complete_integration-Finished,
  apply_cas-Moved, verify_pending-keeps, Place, classify-Place, Settled, Recovered,
}

module _ {R : Type 0} (env : Platform) (git : Git R) where
  one_load : (w : World R) (a b : Fields) → load env w.disk ≡ ok a → load env w.disk ≡ ok b → a ≡ b
  one_load w a b h k = ok-injective (sym h ∙ k)

  pause_for_ref_movement-Settled :
      (state : Fields) (p : PendingIntegration) (now ref : String) (w w' : World R) (new : Fields)
      → load env w.disk ≡ ok state
      → pause_for_ref_movement env git state p now w ≡ (ok new, w')
      → Settled env git pause state p ref w w'
  unfolding pause_for_ref_movement resolve_ref
  pause_for_ref_movement-Settled state p now ref w w' new read h =
      after_read (integration_ref state) w _ h (λ ref' _ h1.
        after_read (git.resolve_ref ref' w.repository) w _ h1 (λ head _ h2.
          let evidence = (evidence_path p, env.dumps (evidence_body p head)) ∷ [] in
          let (n, c, kept) =
            transact_from-Committed env git state evidence (pause_run p now) w w' new h2 in
          let same = one_load w c.prepared.current state c.prepared.current_read read in
          (
            kept,
            (
              new,
              c.state_written,
              c.prepared.valid,
              pause_run-PausedForRef p now state c.prepared.given c.prepared.index
                  c.prepared.references c.prepared.updated new (suc n)
                  (c.prepared.given_state ∙ ap (put "artifact_index" c.prepared.index) same)
                  c.prepared.mutated c.prepared.new_state,
            ),
          )))

  settle-Settled :
      GitLaws git
      → (outcome : IntegrationRecovery) (state : Fields) (p : PendingIntegration) (now ref : String)
        (w w' : World R) (new : Fields)
      → load env w.disk ≡ ok state
      → integration_ref state ≡ ok ref
      → settle env git outcome state p now w ≡ (ok new, w')
      → Settled env git outcome state p ref w w'
  unfolding settle
  settle-Settled laws retry_cas state p now ref w w' new read ref_read h =
      after (verify_pending env git state p w) _ h (λ _ w1 verified h1.
        after (apply_cas env git p w1) _ h1 (λ _ w2 swapped h2.
          let moved = apply_cas-Moved env git laws p w1 w2 swapped in
          let here = verify_pending-keeps env git state p w w1 verified in
          let (finished, kept) = complete_integration-Finished env git p now w2 w' new h2 in
          let same_state : moved.state ≡ state =
            one_load w moved.state state (rw here at moved.state_read) read in
          let same_ref : moved.ref ≡ ref =
            ok-injective (sym moved.ref_read ∙ ap integration_ref same_state ∙ ref_read) in
          (cc (moved.to, same_ref, kept), finished)))
  settle-Settled laws complete_state state p now ref w w' new read ref_read h =
      after (verify_pending env git state p w) _ h (λ _ w1 verified h1.
        let (finished, kept) = complete_integration-Finished env git p now w1 w' new h1 in
        (
          kept
              ∙ ap (λ (x : World R). x.repository)
                  (verify_pending-keeps env git state p w w1 verified),
          finished,
        ))
  settle-Settled laws pause state p now ref w w' new read ref_read h =
      pause_for_ref_movement-Settled state p now ref w w' new read h

  classify_recovery-Place :
      (p : PendingIntegration) (state : Fields) (outcome : IntegrationRecovery) (w w' : World R)
      → load env w.disk ≡ ok state
      → classify_recovery env git p w ≡ (ok outcome, w')
      → (w' ≡ w)
        × ((ref : String) × (integration_ref state ≡ ok ref)
            × ((head : String) × (git.resolve_ref ref w.repository ≡ ok head)
                × Place outcome p head))
  unfolding classify_recovery load_state resolve_ref
  classify_recovery-Place p state outcome w w' read h =
      after_read (load env w.disk) w _ h (λ state' read' h1.
        after_read (integration_ref state') w _ h1 (λ ref ref_read h2.
          after_read (git.resolve_ref ref w.repository) w _ h2 (λ head head_read h3.
            let result = ap (λ (x : Result IntegrationRecovery × World R). x.0) h3 in
            let same = one_load w state' state read' read in
            (
              sym (ap (λ (x : Result IntegrationRecovery × World R). x.1) h3),
              (
                ref,
                ap integration_ref (sym same) ∙ ref_read,
                (head, head_read, classify-Place head p outcome (ok-injective result)),
              ),
            ))))

  -- A recovery that ends well moved the branch from the expected commit to the candidate and
  -- finished the integration, or found the candidate there and finished it, or found a third commit,
  -- left the repository as it was and paused the run with the integration still pending: whichever
  -- the branch named when the recovery began.
  pub recover-Recovered :
      GitLaws git
      → (now : String) (outcome : IntegrationRecovery) (w w' : World R)
      → recover env git now w ≡ (ok outcome, w')
      → Recovered env git w outcome w'
  unfolding recover load_state
  recover-Recovered laws now outcome w w' h = after_read (load env w.disk) w _ h (λ state read h1.
      after_read (pending_of state) w _ h1 (λ p pending_read h2.
        after (classify_recovery env git p w) _ h2 (λ found w1 classified h3.
          after (settle env git found state p now w1) _ h3 (λ new w2 settled h4.
            let (here, (ref, ref_read, (head, head_read, place))) =
              classify_recovery-Place p state found w w1 read classified in
            let result = ok-injective (ap (λ (x : Result IntegrationRecovery × World R). x.0) h4) in
            let world = ap (λ (x : Result IntegrationRecovery × World R). x.1) h4 in
            let done =
              settle-Settled laws found state p now ref w w2 new read ref_read
                (rw here at settled) in
            record {
              state = state;
              state_read = read;
              pending = p;
              pending_read = pending_read;
              ref = ref;
              ref_read = ref_read;
              head = head;
              head_read = head_read;
              place = subst (λ o. Place o p head) result place;
              settled =
                  subst (λ (o : IntegrationRecovery). Settled env git o state p ref w w') result
                    (subst (λ (x : World R). Settled env git found state p ref w x) world done);
            }))))
