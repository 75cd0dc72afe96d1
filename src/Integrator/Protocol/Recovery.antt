-- ===== src/Integrator/Protocol/Recovery.antt =====
-- How `recover` of src/vibe/integrator.py settles an integration that was interrupted.
use vibe_coding_harness.Prelude.{
  ℕ, suc, String, false, not, ◌≡◌, ◌≢◌, refl, sym, ap, subst, ◌∙◌, inl, inr, some, [], Result, ok,
  err, Error, expect, reject_if, contract, Bool-cases, ◌==◌, eq_iff,
}
use vibe_coding_harness.Prelude.Dict.{lookup}
use vibe_coding_harness.Json.{Json, Fields, dict, as_dict}
use vibe_coding_harness.Models.Contracts.{ArtifactRef}
use vibe_coding_harness.Models.Validation.RunState.{validate_run_state}
use vibe_coding_harness.Store.{Platform, Disk, digest_of}
use vibe_coding_harness.Store.Transactions.{Artifacts, Mutate, load, revision_of}
use vibe_coding_harness.Store.Transactions.Committed.{Committed, transact-Committed}
use vibe_coding_harness.Integrator.{
  IntegrationRecovery, retry_cas, complete_state, pause, PendingIntegration, pending_of,
  require_pending, integration_ref, complete, verify_candidate_structure, check_verification,
}
use vibe_coding_harness.Integrator.Changes.{Completed, complete-Completed, PausedForRef}
use vibe_coding_harness.Integrator.World.{
  Git, World, Action, go_on, load_state, transact_from, on_disk, on_repository, update_ref,
  commit_parents,
}
use vibe_coding_harness.Integrator.Protocol.{
  classify, apply_cas, read_artifact, complete_integration, verify_pending,
}

-- `git update-ref <ref> <new> <old>`: the ref is moved exactly if it names the old commit.
pub record GitLaws {R : Type 0} (git : Git R) : Type 0 where
  pub moves :
      (ref new old : String) (g g' : R)
      → git.update_ref ref new old g ≡ (ok tt, g')
      → (git.resolve_ref ref g ≡ ok old) × (git.resolve_ref ref g' ≡ ok new)
  pub refuses :
      (ref new old : String) (g g' : R) (e : Error)
      → git.update_ref ref new old g ≡ (err e, g')
      → g' ≡ g

-- Where the branch stands, by the outcome of the recovery.
abbrev pub Place : IntegrationRecovery → PendingIntegration → String → Type 0
Place retry_cas p head = head ≡ p.expected_head
Place complete_state p head = head ≡ p.candidate_head
Place pause p head = (head ≢ p.expected_head) × (head ≢ p.candidate_head)

differs : (a b : String) → (a == b) ≡ false → a ≢ b
differs a b h e = let same = (eq_iff a b).1 e in cc

pub classify-Place :
    (head : String) (p : PendingIntegration) (outcome : IntegrationRecovery)
    → classify head p ≡ outcome
    → Place outcome p head
unfolding classify
classify-Place head p outcome h =
    subst (λ o. Place o p head) h
      (elim (Bool-cases (head == p.expected_head)) [
        | inl here ↦ rw here ((eq_iff head p.expected_head).0 here)
        | inr not_here ↦ rw not_here (elim (Bool-cases (head == p.candidate_head)) [
          | inl there ↦ rw there ((eq_iff head p.candidate_head).0 there)
          | inr not_there ↦
              rw not_there
                (differs head p.expected_head not_here, differs head p.candidate_head not_there)
        ])
      ])

-- One call of a method that ends well, for the proof about what follows it.
pub after :
    {R A B P : Type 0} (r : Result A × World R) (f : A → Action R B) {b : B} {w' : World R}
    → go_on r f ≡ (ok b, w')
    → ((a : A) (w : World R) → r ≡ (ok a, w) → f a w ≡ (ok b, w') → P)
    → P
after (ok a, w) f h k = k a w refl h
after (err e, w) f h k = cc

-- The same for a call that only reads.
pub after_read :
    {R A B P : Type 0} (r : Result A) (w : World R) (f : A → Action R B) {b : B} {w' : World R}
    → go_on (r, w) f ≡ (ok b, w')
    → ((a : A) → r ≡ ok a → f a w ≡ (ok b, w') → P)
    → P
after_read (ok a) w f h k = k a refl h
after_read (err e) w f h k = cc

module _ {R : Type 0} (env : Platform) (git : Git R) where
  pub transact_from-Committed :
      (state : Fields) (artifacts : Artifacts) (mutate : Mutate) (w w' : World R) (new : Fields)
      → transact_from env state artifacts mutate w ≡ (ok new, w')
      → (n : ℕ) × Committed env w.disk n mutate new w'.disk × (w'.repository ≡ w.repository)
  unfolding transact_from on_disk
  transact_from-Committed state artifacts mutate w w' new h =
      after (revision_of state, w) _ h
        (λ n w1 there h1.
          let same : w1 ≡ w = sym (ap (λ (x : Result ℕ × World R). x.1) there) in
          let result = ap (λ (x : Result Fields × World R). x.0) h1 in
          let world = ap (λ (x : Result Fields × World R). x.1) h1 in
          (
            n,
            subst (λ (d : Disk). Committed env d n mutate new w'.disk)
                (ap (λ (x : World R). x.disk) same)
                (transact-Committed env w1.disk n artifacts mutate new w'.disk
                  (λ i. (result i, (world i).disk))),
            sym (ap (λ (x : World R). x.repository) world)
                ∙ ap (λ (x : World R). x.repository) same,
          ))

  -- The state that an integration leaves in the run directory when it is finished.
  abbrev pub Finished : PendingIntegration → World R → Type 0
  Finished p w =
      (new : Fields) × (w.disk.state ≡ some (dict new))
      × (validate_run_state env.from_isoformat (dict new) ≡ ok new)
      × Completed p new

  pub complete_integration-Finished :
      (p : PendingIntegration) (now : String) (w w' : World R) (new : Fields)
      → complete_integration env git p now w ≡ (ok new, w')
      → Finished p w' × (w'.repository ≡ w.repository)
  unfolding complete_integration load_state
  complete_integration-Finished p now w w' new h =
      after (load env w.disk, w) _ h
        (λ state w1 there h1.
          let same : w1 ≡ w = sym (ap (λ (x : Result Fields × World R). x.1) there) in
          let (n, c, kept) = transact_from-Committed state [] (complete p now) w1 w' new h1 in
          (
            (
              new,
              c.state_written,
              c.prepared.valid,
              complete-Completed p now c.prepared.given c.prepared.references c.prepared.updated new
                  (suc n) c.prepared.mutated c.prepared.new_state,
            ),
            kept ∙ ap (λ (x : World R). x.repository) same,
          ))

  -- Where the branch was and is after the compare-and-swap.
  pub record Moved (p : PendingIntegration) (w w' : World R) : Type 0 where
    pub state : Fields
    pub state_read : load env w.disk ≡ ok state
    pub ref : String
    pub ref_read : integration_ref state ≡ ok ref
    pub from : git.resolve_ref ref w.repository ≡ ok p.expected_head
    pub to : git.resolve_ref ref w'.repository ≡ ok p.candidate_head
    pub disk_kept : w'.disk ≡ w.disk

  pub apply_cas-Moved :
      GitLaws git
      → (p : PendingIntegration) (w w' : World R) → apply_cas env git p w ≡ (ok tt, w')
      → Moved p w w'
  unfolding apply_cas load_state update_ref on_repository
  apply_cas-Moved laws p w w' h = after_read (load env w.disk) w _ h (λ state state_read h1.
      after_read (require_pending p state) w _ h1 (λ _ _ h2.
        after_read (integration_ref state) w _ h2 (λ ref ref_read h3.
          let result = ap (λ (x : Result Unit × World R). x.0) h3 in
          let world = ap (λ (x : Result Unit × World R). x.1) h3 in
          let (from, to) =
            laws.moves ref p.candidate_head p.expected_head w.repository w'.repository
              (λ i. (result i, (world i).repository)) in
          record {
            state = state;
            state_read = state_read;
            ref = ref;
            ref_read = ref_read;
            from = from;
            to = to;
            disk_kept = sym (ap (λ (x : World R). x.disk) world);
          })))

  read_artifact-keeps :
      (r : ArtifactRef) (w w' : World R) (v : Json)
      → read_artifact env git r w ≡ (ok v, w')
      → w' ≡ w
  unfolding read_artifact
  read_artifact-keeps r w w' v h =
      after_read (expect (lookup r.path w.disk.artifacts) (contract "artifact is missing")) w _ h
        (λ body _ h1.
          after_read (reject_if (not (digest_of env body == r.sha256)) "artifact digest mismatch") w
            _ h1 (λ _ _ h2. sym (ap (λ (x : Result Json × World R). x.1) h2)))

  pub verify_pending-keeps :
      (state : Fields) (p : PendingIntegration) (w w' : World R)
      → verify_pending env git state p w ≡ (ok tt, w')
      → w' ≡ w
  unfolding verify_pending commit_parents
  verify_pending-keeps state p w w' h =
      after_read (git.commit_parents p.candidate_head w.repository) w _ h (λ parents _ h1.
        after_read (verify_candidate_structure parents p.candidate_head p.expected_head) w _ h1
          (λ _ _ h2. after (read_artifact env git p.verification w) _ h2 (λ body w1 read h3.
            after_read (expect (as_dict body) (contract "JSON root must be an object")) w1 _ h3
              (λ manifest _ h4. after_read (check_verification p manifest) w1 _ h4 (λ _ _ h5.
                sym (ap (λ (x : Result Unit × World R). x.1) h5)
                ∙ read_artifact-keeps p.verification w w1 body read)))))

  -- What the run directory and the repository are after the recovery.
  abbrev pub Settled :
      IntegrationRecovery
      → (old : Fields) → PendingIntegration
      → (ref : String) → (w w' : World R) → Type 0
  Settled retry_cas old p ref w w' =
      (git.resolve_ref ref w'.repository ≡ ok p.candidate_head) × Finished p w'
  Settled complete_state old p ref w w' = (w'.repository ≡ w.repository) × Finished p w'
  Settled pause old p ref w w' =
      (w'.repository ≡ w.repository)
      × ((new : Fields) × (w'.disk.state ≡ some (dict new))
          × (validate_run_state env.from_isoformat (dict new) ≡ ok new)
          × PausedForRef p old new)

  pub record Recovered (w : World R) (outcome : IntegrationRecovery) (w' : World R) : Type 0 where
    pub state : Fields
    pub state_read : load env w.disk ≡ ok state
    pub pending : PendingIntegration
    pub pending_read : pending_of state ≡ ok pending
    pub ref : String
    pub ref_read : integration_ref state ≡ ok ref
    pub head : String
    pub head_read : git.resolve_ref ref w.repository ≡ ok head
    pub place : Place outcome pending head
    pub settled : Settled outcome state pending ref w w'
