-- ===== src/Models/Manifest.antt =====
-- `validate_attempt_manifest` of src/vibe/models.py: the record of an Attempt that has ended.
pub mod Ended
use vibe_coding_harness.Prelude.{
  ℕ, String, Bool, true, false, not, ◌&&◌, ◌||◌, Option, none, some, List, [], ◌∷◌, Result, ok, err,
  ◌>>=◌, ◌>>◌, expect, reject_if, contract, eqb, map_result, ◌==◌, if◌then◌else◌,
}
use vibe_coding_harness.Prelude.Patterns.{digest_re, operation_id_re, task_id_re}
use vibe_coding_harness.Prelude.Text.{starts_with}
use vibe_coding_harness.Json.{ℤ, pos, Json, Fields, int, str, as_list, get_value, is_null, is_word}
use vibe_coding_harness.Models.Status.{AttemptStatus, cancelled, abandoned}
use vibe_coding_harness.Models.Contracts.{ArtifactRef, PromptRef, AttemptManifest}
use vibe_coding_harness.Models.Validation.Basic.{
  item, require_exact_fields, require_rfc3339, require_relative_path, require_plain_int,
  require_string, optional_artifact, artifact_list, optional_error,
}
use vibe_coding_harness.Models.Validation.Runtime.{string_at, int_at, oid_at}
use vibe_coding_harness.Models.Validation.Tasks.{attempt_status_of, is_none}
use vibe_coding_harness.Models.Validation.RunState.{precedes}

abbrev pub attempt_manifest_fields : List String
attempt_manifest_fields =
    "schema_version" ∷ "role" ∷ "operation_id" ∷ "task_id" ∷ "attempt_no" ∷ "attempt_token"
    ∷ "status" ∷ "created_at" ∷ "completed_at" ∷ "expected_base" ∷ "branch" ∷ "worktree"
    ∷ "preflight" ∷ "prompt_versions" ∷ "provider_attempts" ∷ "request" ∷ "launch" ∷ "stdout"
    ∷ "stderr" ∷ "exit" ∷ "result" ∷ "source_audit" ∷ "verification" ∷ "last_error" ∷ []

unfoldable pub parse_prompt_ref : Json → Result PromptRef
unfolding require_exact_fields string_at int_at digest_re
parse_prompt_ref v = do
  raw ← require_exact_fields v ("id" ∷ "version" ∷ "sha256" ∷ [])
  id ← string_at "id" raw
  version ← int_at "version" 1 raw
  digest ← string_at "sha256" raw
  reject_if (not (digest_re digest)) "sha256 must be canonical"
  ok (record { id = id; version = version; sha256 = digest })

is_one : Json → Bool
is_one (int (pos n)) = eqb n 1
is_one _ = false

-- The schema, the role and the operation.
unfoldable pub read_role : Fields → Result (String × String)
unfolding item is_one string_at operation_id_re
read_role raw = do
  version ← item "schema_version" raw
  reject_if (not (is_one version)) "attempt manifest schema_version must be integer 1"
  role ← string_at "role" raw
  reject_if (not (role == "planner" || role == "worker" || role == "evaluator"))
      "attempt manifest role is invalid"
  operation_id ← string_at "operation_id" raw
  reject_if (not (operation_id_re operation_id)) "attempt manifest operation_id is invalid"
  ok (role, operation_id)

read_worker : Json → Fields → Result (Option String × Option String)
unfolding require_string task_id_re string_at starts_with
read_worker task_id_value raw = do
  task_id ← require_string task_id_value
  reject_if (not (task_id_re task_id)) "attempt manifest task_id is invalid"
  branch ← string_at "branch" raw
  reject_if (not (starts_with branch "refs/heads/vibe/")) "attempt manifest branch is invalid"
  ok (some task_id, some branch)

read_read_only : Json → Fields → Result (Option String × Option String)
unfolding item
read_read_only task_id_value raw = do
  branch ← item "branch" raw
  reject_if (not (is_null task_id_value) || not (is_null branch))
      "read-only attempt identity is invalid"
  ok (none, none)

-- The task and the branch, which only a worker has.
unfoldable pub read_owner : String → Fields → Result (Option String × Option String)
unfolding item read_worker read_read_only
read_owner role raw = do
  task_id_value ← item "task_id" raw
  (if role == "worker" then read_worker task_id_value raw else read_read_only task_id_value raw)

abbrev pub has_ended : AttemptStatus → Bool
has_ended AttemptStatus.succeeded = true
has_ended AttemptStatus.failed = true
has_ended AttemptStatus.cancelled = true
has_ended abandoned = true
has_ended _ = false

unfoldable pub read_status : Fields → Result AttemptStatus
unfolding item attempt_status_of
read_status raw = do
  status ← (item "status" raw >>= attempt_status_of)
  reject_if (not (has_ended status)) "attempt manifest status must be terminal"
  ok status

unfoldable pub read_times : (String → Option (Bool × ℤ)) → Fields → Result (String × String)
unfolding item require_rfc3339 precedes
read_times from_isoformat raw = do
  created_at ← (item "created_at" raw >>= require_rfc3339 from_isoformat)
  completed_at ← (item "completed_at" raw >>= require_rfc3339 from_isoformat)
  reject_if (precedes (from_isoformat completed_at) (from_isoformat created_at))
      "attempt manifest completion precedes creation"
  ok (created_at, completed_at)

unfoldable pub optional_at : String → Fields → Result (Option ArtifactRef)
unfolding item optional_artifact
optional_at k raw = item k raw >>= optional_artifact

unfoldable pub error_has_code : String → Option Fields → Bool
unfolding get_value
error_has_code code none = false
error_has_code code (some e) = is_word code (get_value "code" e)

abbrev pub has_no_artifact : AttemptManifest → Bool
has_no_artifact m =
    is_none m.request
    && is_none m.launch
    && is_none m.stdout
    && is_none m.stderr
    && is_none m.exit
    && is_none m.result
    && is_none m.source_audit
    && is_none m.verification

abbrev pub is_cancelled : AttemptStatus → Bool
is_cancelled AttemptStatus.cancelled = true
is_cancelled _ = false

abbrev pub is_succeeded : AttemptStatus → Bool
is_succeeded AttemptStatus.succeeded = true
is_succeeded _ = false

-- A worker that is cancelled before it has a worktree has no preflight.
unfoldable pub null_preflight_allowed : AttemptManifest → Bool
unfolding error_has_code
null_preflight_allowed m =
    (m.role == "worker")
    && is_cancelled m.status
    && error_has_code "CANCELLED_BEFORE_MATERIALIZATION" m.last_error
    && has_no_artifact m

-- The last checks, on the values that were read.
unfoldable pub check_artifacts : AttemptManifest → Result (Unit {0})
unfolding null_preflight_allowed
check_artifacts m = do
  reject_if (is_none m.preflight && not (null_preflight_allowed m))
      "attempt manifest preflight is required"
  reject_if
      ((is_succeeded m.status && (m.role == "worker"))
        && (is_none m.result || is_none m.source_audit || is_none m.verification))
      "successful Worker attempt requires an artifact"

-- The fields behind the status, and the manifest that the function gives back.
unfoldable pub read_manifest :
    (String → Option (Bool × ℤ))
    → Fields
    → String × String
    → Option String × Option String
    → ℕ
    → String
    → AttemptStatus
    → Result AttemptManifest
unfolding read_times oid_at item require_relative_path parse_prompt_ref artifact_list optional_at
    optional_error
read_manifest from_isoformat raw identity owner attempt_no attempt_token status = do
  times ← read_times from_isoformat raw
  expected_base ← oid_at "expected_base" raw
  worktree ← (item "worktree" raw >>= require_relative_path)
  preflight ← optional_at "preflight" raw
  prompt_values ←
      (item "prompt_versions" raw >>= λ v.
      expect (as_list v) (contract "attempt manifest prompt_versions must be an array"))
  prompt_versions ← map_result parse_prompt_ref prompt_values
  provider_attempts ← (item "provider_attempts" raw >>= artifact_list)
  request ← optional_at "request" raw
  launch ← optional_at "launch" raw
  stdout ← optional_at "stdout" raw
  stderr ← optional_at "stderr" raw
  exit ← optional_at "exit" raw
  result ← optional_at "result" raw
  source_audit ← optional_at "source_audit" raw
  verification ← optional_at "verification" raw
  last_error ← (item "last_error" raw >>= optional_error)
  ok (record {
    schema_version = 1;
    role = identity.0;
    operation_id = identity.1;
    task_id = owner.0;
    attempt_no = attempt_no;
    attempt_token = attempt_token;
    status = status;
    created_at = times.0;
    completed_at = times.1;
    expected_base = expected_base;
    branch = owner.1;
    worktree = worktree;
    preflight = preflight;
    prompt_versions = prompt_versions;
    provider_attempts = provider_attempts;
    request = request;
    launch = launch;
    stdout = stdout;
    stderr = stderr;
    exit = exit;
    result = result;
    source_audit = source_audit;
    verification = verification;
    last_error = last_error;
  })

unfoldable pub validate_attempt_manifest :
    (String → Option (Bool × ℤ)) → Json → Result AttemptManifest
unfolding require_exact_fields read_role read_owner int_at string_at read_status read_manifest
    check_artifacts
validate_attempt_manifest from_isoformat v = do
  raw ← require_exact_fields v attempt_manifest_fields
  identity ← read_role raw
  owner ← read_owner (identity.0) raw
  attempt_no ← int_at "attempt_no" 1 raw
  attempt_token ← string_at "attempt_token" raw
  status ← read_status raw
  m ← read_manifest from_isoformat raw identity owner attempt_no attempt_token status
  check_artifacts m
  ok m
