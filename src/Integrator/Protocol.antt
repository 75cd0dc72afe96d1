-- ===== src/Integrator/Protocol.antt =====
-- The calls of src/vibe/integrator.py in their order.
pub mod Recovery
pub mod Prepared
pub mod Settled
pub mod Branch
pub mod Halted
use vibe_coding_harness.Prelude.{
  ℕ, String, Bool, Option, none, some, List, [], ◌∷◌, Result, ok, err, expect, contract,
  if◌then◌else◌, ◌==◌, not, reject_if,
}
use vibe_coding_harness.Prelude.Dict.{lookup}
use vibe_coding_harness.Json.{ℤ, Json, Fields, as_dict}
use vibe_coding_harness.Models.Contracts.{ArtifactRef}
use vibe_coding_harness.Store.{Platform, parse_artifact_bytes, digest_of}
use vibe_coding_harness.Store.Transactions.{Artifacts}
use vibe_coding_harness.Integrator.Preparation.{manifest_body}
use vibe_coding_harness.Models.Access.{dict_item}
use vibe_coding_harness.Json.{dict}
use vibe_coding_harness.Integrator.{manifest_path, nat_item, bind}
use vibe_coding_harness.Integrator.{
  IntegrationRecovery, retry_cas, complete_state, pause, PendingIntegration, pending_of,
  require_pending, integration_ref, complete, evidence_path, evidence_body, pause_run,
  verify_candidate_structure, check_verification, check_task_binding,
}
use vibe_coding_harness.Integrator.World.{
  Git, World, Action, lift, load_state, transact_from, resolve_ref, update_ref, commit_parents,
  ◌>>=◌, ◌>>◌,
}

unfoldable pub classify : String → PendingIntegration → IntegrationRecovery
classify actual pending =
    if actual == pending.expected_head
    then retry_cas
    else if actual == pending.candidate_head
    then complete_state
    else pause

module _ {R : Type 0} (env : Platform) (git : Git R) where
  -- `_read_artifact` and the parse of its body.
  read_artifact : ArtifactRef → Action R Json
  unfolding lookup digest_of parse_artifact_bytes
  read_artifact r w =
      (do
        body ← lift (expect (lookup r.path w.disk.artifacts) (contract "artifact is missing"))
        lift (reject_if (not (digest_of env body == r.sha256)) "artifact digest mismatch")
        lift (parse_artifact_bytes env body))
        w

  unfoldable pub apply_cas : PendingIntegration → Action R (Unit {0})
  unfolding load_state require_pending integration_ref update_ref
  apply_cas pending = do
    state ← load_state env
    lift (require_pending pending state)
    ref ← lift (integration_ref state)
    update_ref git ref pending.candidate_head pending.expected_head

  unfoldable pub classify_recovery : PendingIntegration → Action R IntegrationRecovery
  unfolding load_state integration_ref resolve_ref classify
  classify_recovery pending = do
    state ← load_state env
    ref ← lift (integration_ref state)
    actual ← resolve_ref git ref
    lift (ok (classify actual pending))

  unfoldable pub complete_integration : PendingIntegration → String → Action R Fields
  unfolding load_state transact_from complete
  complete_integration pending now = do
    state ← load_state env
    transact_from env state [] (complete pending now)

  unfoldable pub verify_pending : Fields → PendingIntegration → Action R (Unit {0})
  unfolding commit_parents verify_candidate_structure read_artifact check_verification
      check_task_binding
  verify_pending state pending = do
    parents ← commit_parents git pending.candidate_head
    lift (verify_candidate_structure parents pending.candidate_head pending.expected_head)
    body ← read_artifact pending.verification
    manifest ← lift (expect (as_dict body) (contract "JSON root must be an object"))
    lift (check_verification pending manifest)
    lift (check_task_binding pending state)

  unfoldable pub pause_for_ref_movement : Fields → PendingIntegration → String → Action R Fields
  unfolding integration_ref resolve_ref transact_from evidence_path evidence_body pause_run
  pause_for_ref_movement state pending now = do
    ref ← lift (integration_ref state)
    actual ← resolve_ref git ref
    transact_from env state ((evidence_path pending, env.dumps (evidence_body pending actual)) ∷ [])
        (pause_run pending now)

  -- What `recover` does by the place at which the branch stands.
  unfoldable pub settle :
      IntegrationRecovery → Fields → PendingIntegration → String → Action R Fields
  unfolding verify_pending apply_cas complete_integration pause_for_ref_movement
  settle retry_cas state pending now = do
    verify_pending state pending
    apply_cas pending
    complete_integration pending now
  settle complete_state state pending now = do
    verify_pending state pending
    complete_integration pending now
  settle pause state pending now = pause_for_ref_movement state pending now

  unfoldable pub recover : String → Action R IntegrationRecovery
  unfolding load_state pending_of classify_recovery settle
  recover now = do
    state ← load_state env
    pending ← lift (pending_of state)
    outcome ← classify_recovery pending
    settle outcome state pending now
    lift (ok outcome)

  -- `_persist_pending`: `contract_id` is `contract.id`, and `source_audit` and `verification` are the
  -- candidate's `source_audit_ref` and the manifest of its verification.
  unfoldable pub persist_pending :
      Fields → String → ArtifactRef → ArtifactRef → PendingIntegration → String → Action R Fields
  unfolding dict_item nat_item manifest_body manifest_path transact_from bind
  persist_pending state contract_id source_audit verification pending completed_at = do
    tasks ← lift (dict_item "tasks" state)
    task ← lift (dict_item contract_id tasks)
    active ← lift (dict_item "active_attempt" task)
    attempt_no ← lift (nat_item "attempt_no" task)
    body ←
        lift
          (manifest_body contract_id attempt_no source_audit verification completed_at task active)
    transact_from env state ((manifest_path contract_id attempt_no, env.dumps body) ∷ []) (
        bind (manifest_path contract_id attempt_no) contract_id verification pending (dict active)
          completed_at)
