-- ===== src/Models/Validation/Pending.antt =====
-- Pending dispatches, and the markers of work that is prepared but not yet applied.
use vibe_coding_harness.Prelude.{
  String, Bool, false, not, ◌&&◌, ◌||◌, Option, none, some, List, [], ◌∷◌, Result, ok, ◌>>=◌, ◌>>◌,
  expect, reject_if, contract, key_error, contains, each, ◌==◌, if◌then◌else◌,
}
use vibe_coding_harness.Json.{
  ℤ, Json, Fields, null, str, get_value, keys, as_dict, as_str, is_null, is_str, is_list, is_word,
  eq,
}
use vibe_coding_harness.Models.Validation.Basic.{
  item, require_exact_fields, require_rfc3339, require_relative_path, artifact, optional_artifact,
  artifact_list,
}
use vibe_coding_harness.Models.Validation.Runtime.{
  string_at, int_at, oids_at, oid_at, validate_provider_handle,
}

abbrev pub pending_dispatch_fields : List String
pending_dispatch_fields =
    "attempt_token" ∷ "role" ∷ "operation_id" ∷ "task_id" ∷ "attempt_no" ∷ "attempt_created_at"
    ∷ "provider_retry_no" ∷ "expected_base" ∷ "branch" ∷ "worktree" ∷ "provider_prefix" ∷ "prompt"
    ∷ "schema" ∷ "preflight" ∷ "prompt_versions" ∷ "request" ∷ "launch_path" ∷ "stdout_path"
    ∷ "stderr_path" ∷ "exit_path" ∷ "result_path" ∷ "launch" ∷ "stdout" ∷ "stderr" ∷ "exit"
    ∷ "result" ∷ "provider_attempts" ∷ "provider_handle" ∷ "prepared_revision" ∷ []

paths_at : List String → Fields → Result (Unit {0})
unfolding item require_relative_path
paths_at names d = each (λ k. (item k d >>= require_relative_path) >>= λ p. ok tt) names

artifacts_at : List String → Fields → Result (Unit {0})
unfolding item artifact
artifacts_at names d = each (λ k. (item k d >>= artifact) >>= λ r. ok tt) names

optional_artifacts_at : List String → Fields → Result (Unit {0})
unfolding item optional_artifact
optional_artifacts_at names d = each (λ k. (item k d >>= optional_artifact) >>= λ r. ok tt) names

-- The fields of a pending dispatch, whatever its role.
check_dispatch_fields : (String → Option (Bool × ℤ)) → Fields → Result (Unit {0})
unfolding string_at int_at item require_rfc3339 oid_at paths_at artifacts_at optional_artifacts_at
    artifact_list
check_dispatch_fields from_isoformat d = do
  operation_id ← string_at "operation_id" d
  attempt_no ← int_at "attempt_no" 1 d
  provider_retry_no ← int_at "provider_retry_no" 0 d
  prepared_revision ← int_at "prepared_revision" 1 d
  created_at ← (item "attempt_created_at" d >>= require_rfc3339 from_isoformat)
  expected_base ← oid_at "expected_base" d
  paths_at ("worktree" ∷ "provider_prefix" ∷ []) d
  paths_at ("launch_path" ∷ "stdout_path" ∷ "stderr_path" ∷ "exit_path" ∷ "result_path" ∷ []) d
  artifacts_at ("prompt" ∷ "schema" ∷ "preflight" ∷ "request" ∷ []) d
  optional_artifacts_at ("launch" ∷ "stdout" ∷ "stderr" ∷ "exit" ∷ "result" ∷ []) d
  provider_attempts ← (item "provider_attempts" d >>= artifact_list)
  prompt_versions ← item "prompt_versions" d
  reject_if (not (is_list prompt_versions)) "pending prompt_versions must be an array"

-- `state["a"]["b"]`, for values that were checked to be dicts.
dict_at : String → Fields → Result Fields
unfolding item
dict_at k d = item k d >>= λ v. expect (as_dict v) key_error

check_worker : String → Fields → Fields → Result (Unit {0})
unfolding item dict_at eq
check_worker token d state = do
  tasks ← dict_at "tasks" state
  task_value ← item "task_id" d
  task_id ← expect (as_str task_value) (contract "Worker pending dispatch has invalid task")
  reject_if (not (contains task_id (keys tasks))) "Worker pending dispatch has invalid task"
  branch ← item "branch" d
  reject_if (not (is_str branch)) "Worker pending dispatch requires branch"
  task ← dict_at task_id tasks
  active_value ← item "active_attempt" task
  active ← expect (as_dict active_value) (contract "Worker pending dispatch is not active")
  active_token ← item "attempt_token" active
  reject_if (not (is_word token active_token)) "Worker pending dispatch is not active"
  active_preflight ← item "preflight" active
  preflight ← item "preflight" d
  reject_if (not (eq active_preflight preflight)) "Worker pending preflight mismatch"
  active_handle ← item "provider_handle" active
  handle ← item "provider_handle" d
  reject_if (not (eq active_handle handle)) "Worker provider handle views disagree"

check_read_only : String → String → Fields → Fields → Result (Unit {0})
unfolding item dict_at eq
check_read_only token role d state = do
  task_id ← item "task_id" d
  branch ← item "branch" d
  reject_if (not (is_null task_id) || not (is_null branch)) "read-only pending identity is invalid"
  runtimes ← dict_at "role_runtime" state
  runtime ← dict_at role runtimes
  active_token ← item "active_attempt_token" runtime
  runtime_operation ← item "operation_id" runtime
  operation_id ← item "operation_id" d
  reject_if (not (is_word token active_token) || not (eq runtime_operation operation_id))
      "read-only pending dispatch is not active"

handle_mismatch : Option Fields → String → Bool
unfolding get_value
handle_mismatch none token = false
handle_mismatch (some handle) token = not (is_word token (get_value "attempt_token" handle))

role_of : Json → Option String
role_of (str role) =
    if role == "planner" || role == "worker" || role == "evaluator" then some role else none
role_of _ = none

unfoldable pub validate_pending_dispatch :
    (String → Option (Bool × ℤ)) → String → Json → Fields → Result (Unit {0})
unfolding require_exact_fields item check_dispatch_fields validate_provider_handle handle_mismatch
    check_worker check_read_only role_of
validate_pending_dispatch from_isoformat token v state = do
  d ← require_exact_fields v pending_dispatch_fields
  own_token ← item "attempt_token" d
  reject_if (not (is_word token own_token)) "pending dispatch key/token mismatch"
  role_value ← item "role" d
  role ← expect (role_of role_value) (contract "pending dispatch role is invalid")
  check_dispatch_fields from_isoformat d
  handle ← (item "provider_handle" d >>= validate_provider_handle)
  reject_if (handle_mismatch handle token) "pending provider handle token mismatch"
  (if role == "worker" then check_worker token d state else check_read_only token role d state)

-- More than one of the three markers is set.
several : Json → Json → Json → Bool
several source integration evaluation =
    not (is_null source) && not (is_null integration)
    || not (is_null source) && not (is_null evaluation)
    || not (is_null integration) && not (is_null evaluation)

task_listed : Fields → Fields → String → Result (Unit {0})
unfolding string_at dict_at
task_listed marker state message = do
  task_id ← string_at "task_id" marker
  tasks ← dict_at "tasks" state
  reject_if (not (contains task_id (keys tasks))) message

check_source_marker : (String → Option (Bool × ℤ)) → Json → Fields → Result (Unit {0})
unfolding require_exact_fields task_listed int_at oids_at item require_rfc3339 artifact
check_source_marker from_isoformat null state = ok tt
check_source_marker from_isoformat v state = do
  marker ← require_exact_fields v (
      "operation_id" ∷ "task_id" ∷ "attempt_no" ∷ "expected_base" ∷ "task_ref" ∷ "tree_oid"
      ∷ "candidate_commit" ∷ "author_name" ∷ "author_email" ∷ "timestamp" ∷ "message"
      ∷ "source_audit" ∷ [])
  task_listed marker state "pending_source_commit task is missing"
  attempt_no ← int_at "attempt_no" 1 marker
  oids_at ("expected_base" ∷ "tree_oid" ∷ "candidate_commit" ∷ []) marker
  timestamp ← (item "timestamp" marker >>= require_rfc3339 from_isoformat)
  source_audit ← (item "source_audit" marker >>= artifact)
  ok tt

check_integration_marker : Json → Fields → Result (Unit {0})
unfolding require_exact_fields task_listed int_at oids_at item artifact
check_integration_marker null state = ok tt
check_integration_marker v state = do
  marker ← require_exact_fields v (
      "operation_id" ∷ "task_id" ∷ "attempt_no" ∷ "expected_head" ∷ "candidate_head" ∷ "source_base"
      ∷ "source_head" ∷ "verification" ∷ [])
  task_listed marker state "pending_integration task is missing"
  attempt_no ← int_at "attempt_no" 1 marker
  oids_at ("expected_head" ∷ "candidate_head" ∷ "source_base" ∷ "source_head" ∷ []) marker
  verification ← (item "verification" marker >>= artifact)
  ok tt

check_evaluation_marker : Json → Result (Unit {0})
unfolding require_exact_fields int_at oid_at item artifact
check_evaluation_marker null = ok tt
check_evaluation_marker v = do
  marker ← require_exact_fields v (
      "operation_id" ∷ "attempt_no" ∷ "attempt_token" ∷ "evaluation_round" ∷ "evidence_round"
      ∷ "integration_head" ∷ "attempt" ∷ "raw_result" ∷ [])
  attempt_no ← int_at "attempt_no" 1 marker
  evaluation_round ← int_at "evaluation_round" 1 marker
  evidence_round ← int_at "evidence_round" 0 marker
  integration_head ← oid_at "integration_head" marker
  attempt ← (item "attempt" marker >>= artifact)
  raw_result ← (item "raw_result" marker >>= artifact)
  ok tt

unfoldable pub validate_prepared_markers : (String → Option (Bool × ℤ)) → Fields → Result (Unit {0})
unfolding item several check_source_marker check_integration_marker check_evaluation_marker
validate_prepared_markers from_isoformat state = do
  source ← item "pending_source_commit" state
  integration ← item "pending_integration" state
  evaluation ← item "pending_evaluation" state
  reject_if (several source integration evaluation) "prepared markers are mutually exclusive"
  check_source_marker from_isoformat source state
  check_integration_marker integration state
  check_evaluation_marker evaluation
