-- ===== src/Integrator/Protocol/Branch.antt =====
-- When `recover` of src/vibe/integrator.py moves the branch, whatever it ends with.
use vibe_coding_harness.Prelude.{
  String, true, not, ◌&&◌, ◌≡◌, refl, sym, ap, subst, ◌∙◌, ◌⊎◌, inl, inr, some, List, [], ◌∷◌,
  Result, ok, err, expect, expect-some, reject_if, reject_if-ok, contract, ok-injective,
  and-true_parts, or-false_parts, true_of_not, eq_iff, ◌==◌, Bool-cases,
}
use vibe_coding_harness.Prelude.Dict.{lookup}
use vibe_coding_harness.Json.{Json, Fields, get_value, as_dict, is_word}
use vibe_coding_harness.Models.Contracts.{ArtifactRef}
use vibe_coding_harness.Store.{Platform, digest_of, parse_artifact_bytes}
use vibe_coding_harness.Store.Transactions.{Artifacts, Mutate, load, revision_of}
use vibe_coding_harness.Integrator.{
  IntegrationRecovery, retry_cas, complete_state, pause, PendingIntegration, pending_of,
  require_pending, integration_ref, verify_candidate_structure, check_verification, is_true,
  complete, pause_run, evidence_path, evidence_body,
}
use vibe_coding_harness.Integrator.World.{
  Git, World, Action, go_on, load_state, update_ref, on_repository, commit_parents, resolve_ref,
  transact_from, on_disk,
}
use vibe_coding_harness.Integrator.Protocol.{
  apply_cas, classify_recovery, complete_integration, verify_pending, pause_for_ref_movement,
  settle, recover, read_artifact,
}
use vibe_coding_harness.Integrator.Protocol.Recovery.{
  GitLaws, after, after_read, verify_pending-keeps,
}

module _ {R : Type 0} (env : Platform) (git : Git R) where
  -- What was found out about a candidate before the branch moves to it.
  pub record Proven (p : PendingIntegration) (w : World R) : Type 0 where
    pub one_commit :
        git.commit_parents p.candidate_head w.repository
        ≡ ok (p.candidate_head ∷ p.expected_head ∷ [])
    pub body : String
    pub body_read : lookup p.verification.path w.disk.artifacts ≡ some body
    pub digest : digest_of env body ≡ p.verification.sha256
    pub manifest : Json
    pub parsed : parse_artifact_bytes env body ≡ ok manifest
    pub entries : Fields
    pub is_object : as_dict manifest ≡ some entries
    pub commit : is_word p.candidate_head (get_value "commit_sha" entries) ≡ true
    pub passed : is_true (get_value "passed" entries) ≡ true

  verify_candidate_structure-parents :
      (parents : List String) (candidate expected : String)
      → verify_candidate_structure parents candidate expected ≡ ok tt
      → parents ≡ candidate ∷ expected ∷ []
  unfolding verify_candidate_structure
  verify_candidate_structure-parents [] candidate expected h = cc
  verify_candidate_structure-parents (a ∷ []) candidate expected h = cc
  verify_candidate_structure-parents (a ∷ b ∷ c ∷ rest) candidate expected h = cc
  verify_candidate_structure-parents (a ∷ b ∷ []) candidate expected h =
      elim (Bool-cases ((a == candidate) && (b == expected))) [
        | inl both ↦
            let (first, second) = and-true_parts (a == candidate) (b == expected) both in
            cc ((eq_iff a candidate).0 first, (eq_iff b expected).0 second)
        | inr other ↦ let broken = rw other at h in cc
      ]

  verify_pending-Proven :
      (state : Fields) (p : PendingIntegration) (w w' : World R)
      → verify_pending env git state p w ≡ (ok tt, w')
      → Proven p w
  unfolding verify_pending commit_parents read_artifact check_verification
  verify_pending-Proven state p w w' h =
      after_read (git.commit_parents p.candidate_head w.repository) w _ h
        (λ parents parents_read h1.
          after_read (verify_candidate_structure parents p.candidate_head p.expected_head) w _ h1
            (λ _ structure h2.
              after (read_artifact env git p.verification w) _ h2 (λ manifest w1 read h3.
                after_read (expect (as_dict manifest) (contract "JSON root must be an object")) w1 _
                  h3
                  (λ entries is_object h4.
                    after_read (check_verification p entries) w1 _ h4 (λ _ checked _.
                      after_read
                        (expect (lookup p.verification.path w.disk.artifacts)
                          (contract "artifact is missing"))
                        w _ read
                        (λ body body_read h5.
                          after_read
                            (reject_if (not (digest_of env body == p.verification.sha256))
                              "artifact digest mismatch")
                            w _ h5
                            (λ _ same h6.
                              let (commit, passed) =
                                or-false_parts
                                  (not (is_word p.candidate_head (get_value "commit_sha" entries)))
                                  (not (is_true (get_value "passed" entries)))
                                  (reject_if-ok _
                                    "pending verification does not prove candidate commit"
                                    checked) in
                              record {
                                one_commit =
                                    parents_read
                                    ∙ ap (λ x. ok x)
                                        (verify_candidate_structure-parents parents p.candidate_head
                                          p.expected_head structure);
                                body = body;
                                body_read =
                                    expect-some (lookup p.verification.path w.disk.artifacts) _ body
                                      body_read;
                                digest = (eq_iff _ _).0 (
                                    true_of_not _ (reject_if-ok _ "artifact digest mismatch" same));
                                manifest = manifest;
                                parsed = ap (λ (x : Result Json × World R). x.0) h6;
                                entries = entries;
                                is_object = expect-some (as_dict manifest) _ entries is_object;
                                commit = true_of_not _ commit;
                                passed = true_of_not _ passed;
                              })))))))

  -- A move of the branch to a proven candidate, from the commit that the integration expected.
  pub record Swapped (w : World R) (g : R) : Type 0 where
    pub state : Fields
    pub state_read : load env w.disk ≡ ok state
    pub pending : PendingIntegration
    pub pending_read : pending_of state ≡ ok pending
    pub proven : Proven pending w
    pub ref : String
    pub ref_read : integration_ref state ≡ ok ref
    pub from : git.resolve_ref ref w.repository ≡ ok pending.expected_head
    pub to : git.resolve_ref ref g ≡ ok pending.candidate_head

  -- The repository is as it was, or the branch was moved so.
  abbrev pub MovesOnly : {A : Type 0} → World R → Result A × World R → Type 0
  MovesOnly w x = (x.1.repository ≡ w.repository) ⊎ Swapped w (x.1.repository)

  -- A call that leaves the repository alone, with the rest of the method; and the reverse.
  then_moves :
      {A B : Type 0} (w : World R) (x : Result A × World R) (f : A → Action R B)
      → x.1.repository ≡ w.repository
      → ((a : A) (w1 : World R) → x ≡ (ok a, w1) → MovesOnly w (f a w1))
      → MovesOnly w (go_on x f)
  then_moves w (ok a, w1) f same k = k a w1 refl
  then_moves w (err e, w1) f same k = inl same

  then_keeps :
      {A B : Type 0} (w : World R) (x : Result A × World R) (f : A → Action R B)
      → MovesOnly w x
      → ((a : A) (w1 : World R) → (f a w1).1.repository ≡ w1.repository)
      → MovesOnly w (go_on x f)
  then_keeps w (ok a, w1) f (inl same) k = inl (k a w1 ∙ same)
  then_keeps w (ok a, w1) f (inr swap) k = inr (subst (Swapped w) (sym (k a w1)) swap)
  then_keeps w (err e, w1) f before k = before

  stays :
      {A B : Type 0} (r : Result A) (w : World R) (f : A → Action R B)
      → ((a : A) → (f a w).1 ≡ w)
      → (go_on (r, w) f).1 ≡ w
  stays (ok a) w f k = k a
  stays (err e) w f k = refl

  keeps :
      {A B : Type 0} (x : Result A × World R) (f : A → Action R B) (g : R)
      → x.1.repository ≡ g
      → ((a : A) (w1 : World R) → w1.repository ≡ g → (f a w1).1.repository ≡ g)
      → (go_on x f).1.repository ≡ g
  keeps (ok a, w1) f g same k = k a w1 same
  keeps (err e, w1) f g same k = same

  transact_from-repository :
      (state : Fields) (artifacts : Artifacts) (mutate : Mutate) (w : World R)
      → (transact_from env state artifacts mutate w).1.repository ≡ w.repository
  unfolding transact_from on_disk
  transact_from-repository state artifacts mutate w =
      keeps (revision_of state, w) _ w.repository refl (λ n w1 same. same)

  complete_integration-repository :
      (p : PendingIntegration) (now : String) (w : World R)
      → (complete_integration env git p now w).1.repository ≡ w.repository
  unfolding complete_integration load_state
  complete_integration-repository p now w =
      keeps (load env w.disk, w) _ w.repository refl
        (λ state w1 same. transact_from-repository state [] (complete p now) w1 ∙ same)

  pause_for_ref_movement-repository :
      (state : Fields) (p : PendingIntegration) (now : String) (w : World R)
      → (pause_for_ref_movement env git state p now w).1.repository ≡ w.repository
  unfolding pause_for_ref_movement resolve_ref
  pause_for_ref_movement-repository state p now w =
      keeps (integration_ref state, w) _ w.repository refl
        (λ ref w1 same.
          keeps (git.resolve_ref ref w1.repository, w1) _ w.repository same
            (λ head w2 same2.
              transact_from-repository state
                ((evidence_path p, env.dumps (evidence_body p head)) ∷ []) (pause_run p now) w2
              ∙ same2))

  read_artifact-repository :
      (r : ArtifactRef) (w : World R) → (read_artifact env git r w).1.repository ≡ w.repository
  unfolding read_artifact
  read_artifact-repository r w =
      keeps (expect (lookup r.path w.disk.artifacts) (contract "artifact is missing"), w) _
        w.repository refl
        (λ body w1 same.
          keeps (reject_if (not (digest_of env body == r.sha256)) "artifact digest mismatch", w1) _
            w.repository same (λ _ w2 same2. same2))

  verify_pending-repository :
      (state : Fields) (p : PendingIntegration) (w : World R)
      → (verify_pending env git state p w).1.repository ≡ w.repository
  unfolding verify_pending commit_parents
  verify_pending-repository state p w =
      keeps (git.commit_parents p.candidate_head w.repository, w) _ w.repository refl
        (λ parents w1 same.
          keeps (verify_candidate_structure parents p.candidate_head p.expected_head, w1) _
            w.repository same
            (λ _ w2 same2.
              keeps (read_artifact env git p.verification w2) _ w.repository
                (read_artifact-repository p.verification w2 ∙ same2)
                (λ body w3 same3.
                  keeps (expect (as_dict body) (contract "JSON root must be an object"), w3) _
                    w.repository same3
                    (λ manifest w4 same4.
                      keeps (check_verification p manifest, w4) _ w.repository same4
                        (λ _ w5 same5. same5)))))

  read_moves :
      {A B : Type 0} (w v : World R) (r : Result A) (f : A → Action R B)
      → v.repository ≡ w.repository
      → ((a : A) → r ≡ ok a → MovesOnly w (f a v))
      → MovesOnly w (go_on (r, v) f)
  read_moves w v (ok a) f same k = k a refl
  read_moves w v (err e) f same k = inl same

  swap-MovesOnly :
      GitLaws git
      → (state : Fields) (p : PendingIntegration) (w : World R) (ref : String)
      → load env w.disk ≡ ok state
      → pending_of state ≡ ok p
      → Proven p w
      → integration_ref state ≡ ok ref
      → (x : Result Unit × R) → git.update_ref ref p.candidate_head p.expected_head w.repository ≡ x
      → MovesOnly w (on_repository x w)
  unfolding on_repository
  swap-MovesOnly laws state p w ref read pending_read proven ref_read (ok tt, g) h =
      let (from, to) = laws.moves ref p.candidate_head p.expected_head w.repository g h in
      inr (record {
        state = state;
        state_read = read;
        pending = p;
        pending_read = pending_read;
        proven = proven;
        ref = ref;
        ref_read = ref_read;
        from = from;
        to = to;
      })
  swap-MovesOnly laws state p w ref read pending_read proven ref_read (err e, g) h =
      inl (laws.refuses ref p.candidate_head p.expected_head w.repository g e h)

  apply_cas-MovesOnly :
      GitLaws git
      → (state : Fields) (p : PendingIntegration) (w : World R) → load env w.disk ≡ ok state
      → pending_of state ≡ ok p
      → Proven p w
      → MovesOnly w (apply_cas env git p w)
  unfolding apply_cas load_state update_ref
  apply_cas-MovesOnly laws state p w read pending_read proven =
      read_moves w w (load env w.disk) _ refl (λ state' read'.
        read_moves w w (require_pending p state') _ refl (λ _ _.
          read_moves w w (integration_ref state') _ refl (λ ref ref_read.
            let same : state' ≡ state = ok-injective (sym read' ∙ read) in
            swap-MovesOnly laws state p w ref read pending_read proven
              (ap integration_ref (sym same) ∙ ref_read) _ refl)))

  settle-MovesOnly :
      GitLaws git
      → (outcome : IntegrationRecovery) (state : Fields) (p : PendingIntegration) (now : String)
        (w : World R)
      → load env w.disk ≡ ok state
      → pending_of state ≡ ok p
      → MovesOnly w (settle env git outcome state p now w)
  unfolding settle
  settle-MovesOnly laws retry_cas state p now w read pending_read =
      then_moves w (verify_pending env git state p w) _ (verify_pending-repository state p w)
        (λ _ w1 verified.
          let here = verify_pending-keeps env git state p w w1 verified in
          subst
            (λ v.
              MovesOnly w (go_on (apply_cas env git p v) (λ _. complete_integration env git p now)))
            (sym here)
            (then_keeps w (apply_cas env git p w) (λ _. complete_integration env git p now)
              (apply_cas-MovesOnly laws state p w read pending_read
                (verify_pending-Proven state p w w1 verified))
              (λ _ w2. complete_integration-repository p now w2)))
  settle-MovesOnly laws complete_state state p now w read pending_read = inl (
      keeps (verify_pending env git state p w) _ w.repository (verify_pending-repository state p w)
        (λ _ w1 same. complete_integration-repository p now w1 ∙ same))
  settle-MovesOnly laws pause state p now w read pending_read =
      inl (pause_for_ref_movement-repository state p now w)

  classify_recovery-keeps :
      (p : PendingIntegration) (w : World R) → (classify_recovery env git p w).1 ≡ w
  unfolding classify_recovery load_state resolve_ref
  classify_recovery-keeps p w = stays (load env w.disk) w _ (λ state.
      stays (integration_ref state) w _
        (λ ref. stays (git.resolve_ref ref w.repository) w _ (λ head. refl)))

  -- A recovery leaves the repository as it was, also when it fails, or it moves the branch of the
  -- run from the commit that the pending integration expected to its candidate, which is one commit on the
  -- expected one and whose verification, read from the bound artifact, says that it passed.
  pub recover-MovesOnly :
      GitLaws git → (now : String) (w : World R) → MovesOnly w (recover env git now w)
  unfolding recover load_state
  recover-MovesOnly laws now w = read_moves w w (load env w.disk) _ refl (λ state read.
      read_moves w w (pending_of state) _ refl (λ p pending_read.
        then_moves w (classify_recovery env git p w) _
          (ap (λ (v : World R). v.repository) (classify_recovery-keeps p w))
          (λ outcome w1 classified.
            let here : w1 ≡ w =
              sym (ap (λ (x : Result IntegrationRecovery × World R). x.1) classified)
              ∙ classify_recovery-keeps p w in
            then_keeps w (settle env git outcome state p now w1) _
              (subst (λ v. MovesOnly w (settle env git outcome state p now v)) (sym here)
                (settle-MovesOnly laws outcome state p now w read pending_read))
              (λ _ w2. refl))))
