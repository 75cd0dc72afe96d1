-- ===== src/Models/Validation/Tasks.antt =====
-- One task of the run state, and the Attempt that it has open.
use vibe_coding_harness.Prelude.{
  String, Bool, true, false, not, ◌&&◌, ◌||◌, Option, none, some, List, [], ◌∷◌, Result, ok, err,
  ◌>>=◌, ◌>>◌, expect, reject_if, contract, ltb, eqb, length, is_empty, each, if◌then◌else◌,
}
use vibe_coding_harness.Prelude.Text.{starts_with}
use vibe_coding_harness.Prelude.Patterns.{task_id_re}
use vibe_coding_harness.Json.{ℤ, Json, Fields, null, str, as_list, is_null, is_word, get_value, eq}
use vibe_coding_harness.Models.Contracts.{ArtifactRef}
use vibe_coding_harness.Models.Status.{
  TaskStatus, AttemptStatus, task_status, attempt_status, pending, ready, ready_to_integrate,
  integrating, completed, starting,
}
use vibe_coding_harness.Models.Validation.Basic.{
  item, require_exact_fields, require_rfc3339, require_relative_path, require_oid, artifact,
  optional_artifact, artifact_list, optional_error,
}
use vibe_coding_harness.Models.Validation.Runtime.{
  string_at, int_at, oid_at, validate_provider_handle,
}

abbrev pub task_fields : List String
task_fields =
    "task" ∷ "status" ∷ "attempt_no" ∷ "failure_count" ∷ "max_attempts" ∷ "active_attempt"
    ∷ "attempts" ∷ "result" ∷ "verification" ∷ "source_commits" ∷ "integrated_commits"
    ∷ "last_error" ∷ []

abbrev pub active_attempt_fields : List String
active_attempt_fields =
    "attempt_token" ∷ "status" ∷ "created_at" ∷ "task_base_sha" ∷ "branch" ∷ "worktree"
    ∷ "preflight" ∷ "provider_handle" ∷ "result_path" ∷ []

-- `AttemptStatus(value)` and `TaskStatus(value)`, with ValueError as ContractError.
unfoldable pub attempt_status_of : Json → Result AttemptStatus
unfolding attempt_status
attempt_status_of (str s) = expect (attempt_status s) (contract "status is invalid")
attempt_status_of _ = err (contract "status is invalid")

unfoldable pub task_status_of : Json → Result TaskStatus
unfolding task_status
task_status_of (str s) = expect (task_status s) (contract "status is invalid")
task_status_of _ = err (contract "status is invalid")

abbrev is_starting : AttemptStatus → Bool
is_starting starting = true
is_starting _ = false

abbrev pub is_none {ℓ} : {A : Type ℓ} → Option A → Bool
is_none none = true
is_none (some a) = false

token_mismatch : Option Fields → Json → Bool
unfolding get_value eq
token_mismatch none token = false
token_mismatch (some handle) token = not (eq (get_value "attempt_token" handle) token)

check_active : (String → Option (Bool × ℤ)) → Json → Result Fields
unfolding require_exact_fields string_at item attempt_status_of require_rfc3339 oid_at
    require_relative_path optional_artifact validate_provider_handle token_mismatch starts_with
check_active from_isoformat v = do
  active ← require_exact_fields v active_attempt_fields
  token ← string_at "attempt_token" active
  status ← (item "status" active >>= attempt_status_of)
  created_at ← (item "created_at" active >>= require_rfc3339 from_isoformat)
  base ← oid_at "task_base_sha" active
  branch ← string_at "branch" active
  reject_if (not (starts_with branch "refs/heads/vibe/")) "branch must be a vibe ref"
  worktree ← (item "worktree" active >>= require_relative_path)
  result_path ← (item "result_path" active >>= require_relative_path)
  preflight ← (item "preflight" active >>= optional_artifact)
  handle ← (item "provider_handle" active >>= validate_provider_handle)
  reject_if (is_none preflight && not (is_starting status))
      "preflight may be null only while STARTING"
  reject_if (token_mismatch handle (str token)) "provider_handle token mismatch"
  ok active

unfoldable pub validate_active_attempt :
    (String → Option (Bool × ℤ)) → Json → Result (Option Fields)
unfolding check_active
validate_active_attempt from_isoformat null = ok none
validate_active_attempt from_isoformat v =
    check_active from_isoformat v >>= λ active. ok (some active)

check_oids : String → Fields → Result (List Json)
unfolding item require_oid
check_oids name task = do
  values ← (item name task >>= λ v. expect (as_list v) (contract "must be an array"))
  each (λ oid. require_oid oid >>= λ text. ok tt) values
  ok values

is_verifying : Option Fields → Bool
unfolding get_value
is_verifying none = false
is_verifying (some active) = is_word "VERIFYING" (get_value "status" active)

has_handle : Option Fields → Bool
unfolding get_value
has_handle none = false
has_handle (some active) = not (is_null (get_value "provider_handle" active))

-- The fields that must agree with the status of a task.
pub record TaskShape : Type 0 where
  pub active : Option Fields
  pub attempts : List ArtifactRef
  pub result : Option ArtifactRef
  pub verification : Option ArtifactRef
  pub source_commits : List Json
  pub integrated_commits : List Json

-- Whether a status and the fields are incoherent: the chain of tests at the end of
-- `_validate_task`.
unfoldable pub incoherent : TaskStatus → TaskShape → Bool
unfolding is_verifying has_handle
incoherent pending t =
    not (is_none t.active) || not (is_none t.result) || not (is_none t.verification)
incoherent ready t =
    not (is_none t.active) || not (is_none t.result) || not (is_none t.verification)
incoherent TaskStatus.running t =
    is_none t.active
    || not (is_none t.verification)
    || (if is_verifying t.active
        then is_none t.result || has_handle t.active
        else not (is_none t.result))
incoherent ready_to_integrate t =
    is_none t.active
    || not (is_verifying t.active)
    || is_none t.result
    || not (is_none t.verification)
    || not (eqb (length t.source_commits) 1)
incoherent integrating t =
    not (is_none t.active) || is_empty t.attempts || is_none t.result || is_none t.verification
incoherent completed t =
    not (is_none t.active)
    || is_empty t.attempts
    || is_none t.result
    || is_none t.verification
    || is_empty t.source_commits
    || is_empty t.integrated_commits
incoherent TaskStatus.failed t = not (is_none t.active) || is_empty t.attempts
incoherent TaskStatus.cancelled t = not (is_none t.active) || is_empty t.attempts

unfoldable pub validate_task : (String → Option (Bool × ℤ)) → String → Json → Result (Unit {0})
unfolding task_id_re require_exact_fields item artifact task_status_of int_at
    validate_active_attempt artifact_list optional_artifact check_oids optional_error incoherent
validate_task from_isoformat task_id v = do
  reject_if (not (task_id_re task_id)) "invalid task ID"
  task ← require_exact_fields v task_fields
  contract_ref ← (item "task" task >>= artifact)
  status ← (item "status" task >>= task_status_of)
  attempt_no ← int_at "attempt_no" 0 task
  failures ← int_at "failure_count" 0 task
  maximum ← int_at "max_attempts" 1 task
  reject_if (ltb maximum failures) "failure_count exceeds limit"
  active ← (item "active_attempt" task >>= validate_active_attempt from_isoformat)
  attempts ← (item "attempts" task >>= artifact_list)
  result ← (item "result" task >>= optional_artifact)
  verification ← (item "verification" task >>= optional_artifact)
  source_commits ← check_oids "source_commits" task
  integrated_commits ← check_oids "integrated_commits" task
  last_error ← (item "last_error" task >>= optional_error)
  reject_if
      (incoherent status (record {
        active = active;
        attempts = attempts;
        result = result;
        verification = verification;
        source_commits = source_commits;
        integrated_commits = integrated_commits;
      }))
      "status and fields are incoherent"
  reject_if (not (is_none active) && ltb attempt_no 1) "active Attempt requires attempt_no"
