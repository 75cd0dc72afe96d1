-- ===== src/Integrator.antt =====
-- The protocol of src/vibe/integrator.py that moves the run's branch to a verified candidate: what is
-- written before and after the branch moves. This module has the changes of the state; the calls are
-- in Integrator/Protocol.
pub mod Changes
pub mod World
pub mod Protocol
pub mod Preparation
use Prim.Native.String
use vibe_coding_harness.Prelude.{
  ℕ, String, Bool, true, false, not, ◌&&◌, ◌||◌, Option, none, some, List, [], ◌∷◌, ◌++◌, Result,
  ok, err, ◌>>=◌, ◌>>◌, expect, reject_if, contract, rejected, key_error, type_error, any, all,
  map_result, leb, ◌==◌, if◌then◌else◌,
}
use vibe_coding_harness.Prelude.Dict.{lookup}
use vibe_coding_harness.Prelude.Text.{starts_with}
use vibe_coding_harness.Prelude.PosixPath.{as_posix}
use vibe_coding_harness.Prelude.Decimal.{decimal, decimal_3}
use vibe_coding_harness.Json.{
  ℤ, pos, Json, Fields, null, bool, int, str, list, dict, get, get_value, put, as_dict, of_items,
  is_null, is_word, eq,
}
use vibe_coding_harness.Models.Contracts.{ArtifactRef, artifact_as_dict, fields, nat}
use vibe_coding_harness.Models.Validation.Basic.{item}
use vibe_coding_harness.Models.Access.{dict_item, list_item, str_item, modify_item, append_item}
use vibe_coding_harness.Scheduler.Scopes.{normalize_scope, path_matches_scope}
use vibe_coding_harness.Scheduler.Order.{sorted}
use vibe_coding_harness.Store.Transactions.{References, Mutate}

pub data IntegrationRecovery : Type 0 where
  retry_cas complete_state pause : IntegrationRecovery

-- src/vibe/models.py
pub record PendingIntegration : Type 0 where
  pub operation_id : String
  pub task_id : String
  pub attempt_no : ℕ
  pub expected_head : String
  pub candidate_head : String
  pub source_base : String
  pub source_head : String
  pub verification : ArtifactRef

unfoldable pub pending_as_dict : PendingIntegration → Json
unfolding artifact_as_dict
pending_as_dict p = dict (
    fields (
      ("operation_id", str p.operation_id)
      ∷ ("task_id", str p.task_id)
      ∷ ("attempt_no", nat p.attempt_no)
      ∷ ("expected_head", str p.expected_head)
      ∷ ("candidate_head", str p.candidate_head)
      ∷ ("source_base", str p.source_base)
      ∷ ("source_head", str p.source_head)
      ∷ ("verification", artifact_as_dict p.verification)
      ∷ []))

as_nat : Json → Result ℕ
as_nat (int (pos n)) = ok n
as_nat _ = err type_error

nat_item : String → Fields → Result ℕ
unfolding item as_nat
nat_item k d = item k d >>= as_nat

-- An `operation_id` that is no string, which `_persist_pending` never writes, is TypeError here.
unfoldable pub pending_from_state : Fields → Result PendingIntegration
unfolding dict_item str_item nat_item
pending_from_state value = do
  verification ← dict_item "verification" value
  operation_id ← str_item "operation_id" value
  task_id ← str_item "task_id" value
  attempt_no ← nat_item "attempt_no" value
  expected_head ← str_item "expected_head" value
  candidate_head ← str_item "candidate_head" value
  source_base ← str_item "source_base" value
  source_head ← str_item "source_head" value
  path ← str_item "path" verification
  digest ← str_item "sha256" verification
  ok (record {
    operation_id = operation_id;
    task_id = task_id;
    attempt_no = attempt_no;
    expected_head = expected_head;
    candidate_head = candidate_head;
    source_base = source_base;
    source_head = source_head;
    verification = record { path = path; sha256 = digest };
  })

-- `complete` in `_complete_state`; `now` is the time.
complete_task : PendingIntegration → Fields → Result Fields
unfolding item
complete_task pending task = do
  status ← item "status" task
  reject_if (not (is_word "INTEGRATING" status)) "integrating Task status changed"
  ok (
      put "integrated_commits" (list (of_items (str pending.candidate_head ∷ [])))
        (put "status" (str "COMPLETED") task))

unfoldable pub complete : PendingIntegration → String → Mutate
unfolding item pending_as_dict eq dict_item complete_task modify_item
complete pending now current refs = do
  marker ← item "pending_integration" current
  reject_if (not (eq marker (pending_as_dict pending)))
      "pending integration changed before completion"
  tasks ← dict_item "tasks" current
  task ← dict_item pending.task_id tasks
  done ← complete_task pending task
  moved ←
      modify_item "repository" (λ r. ok (put "integration_head" (str pending.candidate_head) r))
        current
  ok (
      put "updated_at" (str now) (
        put "last_error" null (
          put "pending_integration" null
            (put "tasks" (dict (put pending.task_id (dict done) tasks)) moved))))

unfoldable pub evidence_path : PendingIntegration → String
evidence_path pending = String.◌++◌ "recovery/" (String.◌++◌ pending.operation_id "-ref-moved.json")

unfoldable pub evidence_body : PendingIntegration → String → Json
evidence_body pending actual = dict (
    fields (
      ("operation_id", str pending.operation_id)
      ∷ ("expected_head", str pending.expected_head)
      ∷ ("candidate_head", str pending.candidate_head)
      ∷ ("actual_head", str actual)
      ∷ []))

-- `pause` in `_pause_for_ref_movement`.
unfoldable pub pause_run : PendingIntegration → String → Mutate
unfolding item pending_as_dict eq lookup evidence_path artifact_as_dict
pause_run pending now current refs = do
  marker ← item "pending_integration" current
  reject_if (not (eq marker (pending_as_dict pending))) "pending integration changed before pause"
  status ← item "status" current
  evidence ← expect (lookup (evidence_path pending) refs) key_error
  ok (
      put "updated_at" (str now) (
        put "last_error"
          (dict (
            fields (
              ("code", str "INTEGRATION_REF_MOVED")
              ∷ ("message", str "integration ref moved outside the Controller")
              ∷ ("retryable", bool false)
              ∷ ("evidence", artifact_as_dict evidence)
              ∷ [])))
          (put "status" (str "PAUSED") (put "resume_status" status current))))

unfoldable pub manifest_path : String → ℕ → String
unfolding decimal_3
manifest_path task_id attempt_no = String.◌++◌ "tasks/" (
    String.◌++◌ task_id
      (String.◌++◌ "/attempts/" (String.◌++◌ (decimal_3 attempt_no) "/attempt.json")))

-- `bind` in `_persist_pending`. `active` is the active Attempt that was read before.
check_ready : PendingIntegration → Json → Fields → Fields → Result (Unit {0})
unfolding item eq
check_ready pending active task repository = do
  status ← item "status" task
  now_active ← item "active_attempt" task
  head ← item "integration_head" repository
  reject_if
      (not (is_word "READY_TO_INTEGRATE" status)
        || not (eq now_active active)
        || not (is_word pending.expected_head head))
      "task or integration head changed before prepare marker"

bind_task : Json → ArtifactRef → Fields → Result Fields
unfolding artifact_as_dict append_item
bind_task manifest verification task = append_item "attempts" manifest task >>= λ listed. ok (
    put "status" (str "INTEGRATING")
      (put "verification" (artifact_as_dict verification) (put "active_attempt" null listed)))

-- `contract_id` is `contract.id`, and `verification` the manifest of the candidate's verification.
unfoldable pub bind : String → String → ArtifactRef → PendingIntegration → Json → String → Mutate
unfolding item dict_item check_ready bind_task lookup artifact_as_dict append_item pending_as_dict
bind path contract_id verification pending active now current refs = do
  marker ← item "pending_integration" current
  reject_if (not (is_null marker)) "pending integration was concurrently created"
  tasks ← dict_item "tasks" current
  task ← dict_item contract_id tasks
  repository ← dict_item "repository" current
  check_ready pending active task repository
  manifest ← expect (lookup path refs) key_error
  bound ← bind_task (artifact_as_dict manifest) verification task
  listed ←
      append_item "verifications" (artifact_as_dict verification)
        (put "tasks" (dict (put contract_id (dict bound) tasks)) current)
  ok (put "updated_at" (str now) (put "pending_integration" (pending_as_dict pending) listed))

-- `_require_paths_in_scope`
unfoldable pub require_paths_in_scope : List String → List String → Result (Unit {0})
unfolding normalize_scope path_matches_scope
require_paths_in_scope paths scopes = do
  normalized ← map_result normalize_scope scopes
  (if all (λ path. any (λ scope. path_matches_scope path scope) normalized) paths
      then ok tt
      else err (rejected "candidate path is outside task scope"))

-- `_verify_candidate_structure`, for the parents that git lists.
unfoldable pub verify_candidate_structure : List String → String → String → Result (Unit {0})
verify_candidate_structure (a ∷ b ∷ []) candidate expected_parent =
    if (a == candidate) && (b == expected_parent)
    then ok tt
    else err (rejected "candidate must be one non-merge commit")
verify_candidate_structure _ candidate expected_parent =
    err (rejected "candidate must be one non-merge commit")

-- The bindings that `_verify_pending` demands of the manifest and of the task.
pub is_true : Json → Bool
is_true (bool b) = b
is_true _ = false

unfoldable pub check_verification : PendingIntegration → Fields → Result (Unit {0})
unfolding get_value is_true
check_verification pending manifest =
    reject_if
      (not (is_word pending.candidate_head (get_value "commit_sha" manifest))
        || not (is_true (get_value "passed" manifest)))
      "pending verification does not prove candidate commit"

unfoldable pub check_task_binding : PendingIntegration → Fields → Result (Unit {0})
unfolding dict_item get_value eq artifact_as_dict
check_task_binding pending state = do
  tasks ← dict_item "tasks" state
  task ←
      expect (as_dict (get_value pending.task_id tasks))
        (contract "pending integration Task binding is invalid")
  reject_if
      (not (is_word "INTEGRATING" (get_value "status" task))
        || not (eq (get_value "verification" task) (artifact_as_dict pending.verification)))
      "pending integration Task binding is invalid"

-- `state["repository"]["integration_ref"]`, and the pending integration that is to be recovered.
unfoldable pub integration_ref : Fields → Result String
unfolding dict_item str_item
integration_ref state = dict_item "repository" state >>= str_item "integration_ref"

unfoldable pub pending_of : Fields → Result PendingIntegration
unfolding get_value pending_from_state
pending_of state =
    expect (as_dict (get_value "pending_integration" state))
      (contract "there is no pending integration to recover")
    >>= pending_from_state

unfoldable pub require_pending : PendingIntegration → Fields → Result (Unit {0})
unfolding get_value pending_as_dict eq
require_pending pending state =
    reject_if (not (eq (get_value "pending_integration" state) (pending_as_dict pending)))
      "pending integration no longer matches CAS"
