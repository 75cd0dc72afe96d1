-- ===== src/Tests/Retrying.antt =====
-- A planner's dispatch that is prepared, bound, retried and accepted: src/vibe/runners/__init__.py.
use Prim.Native.String
use vibe_coding_harness.Prelude.{
  ℕ, String, true, false, ◌≡◌, refl, some, none, Result, ok, err, contract, conflict, ◌⊎◌, [], ◌∷◌,
  ◌>>=◌,
}
use vibe_coding_harness.Json.{Json, Fields, null, str, dict, put, remove}
use vibe_coding_harness.Models.Contracts.{ArtifactRef, fields, nat}
use vibe_coding_harness.Store.{Disk, Logged}
use vibe_coding_harness.Store.Transactions.{References, load}
use vibe_coding_harness.Runners.{RoleInvocation, ProviderHandle, add_pending_dispatch}
use vibe_coding_harness.Runners.Ledger.{
  bind_matching_handle, bind_completion, validate_retry, rotate, accept_current_result, abandon,
}
use vibe_coding_harness.Runners.Ledger.Owners.{Stale, Unreadable, accept_current_result-once}
use vibe_coding_harness.Runners.Ledger.Retry.{retry_dispatch}
use vibe_coding_harness.Runners.Ledger.Retry.Retried.{Retried}
use vibe_coding_harness.Tests.Validating.{digest, oid, run, idle}
use vibe_coding_harness.Tests.Integrating.{files, env}

abbrev invocation : String → ℕ → RoleInvocation
invocation token retry = record {
  role = "planner";
  task_id = none;
  operation_id = "PLAN-001";
  attempt_no = 1;
  attempt_created_at = "2026-07-23T00:00:00+00:00";
  attempt_token = token;
  provider_retry_no = retry;
  expected_base = oid;
  branch = none;
  worktree = ".vibe-coding/worktrees/planner";
  target_root = "/target";
  run_root = "/target/.vibe-coding/run";
  prompt_body = "Plan.";
  prompt_versions = [];
  schema_body = "{}";
  preflight_body = "{}";
  authorized_command_ids = [];
  required_command_ids = [];
  config_sha256 = digest;
  codex_version = "1.0.0";
  execution_policy_sha256 = digest;
  sandbox = "read-only";
  timeout_seconds = 60;
  artifact_prefix = "roles/planner/operations/PLAN-001/attempts/001";
}

abbrev handle : String → ProviderHandle
handle token = record {
  adapter = "codex";
  attempt_token = token;
  pid = 101;
  process_start_identity = "boot-1";
  process_group = 101;
  child_pid = 102;
  child_process_start_identity = "boot-2";
  child_process_group = 102;
  codex_version = "1.0.0";
  execution_policy_sha256 = digest;
  launch_path = "/launch.json";
  stdout_path = "/stdout.log";
  stderr_path = "/stderr.log";
  exit_path = "/exit.json";
  result_path = "/result.json";
}

abbrev at : String → ArtifactRef
at path = record { path = path; sha256 = digest }

abbrev planner : Json
planner = dict (
    fields (
      ("operation_id", str "PLAN-001")
      ∷ ("attempt_no", nat 1)
      ∷ ("failure_count", nat 0)
      ∷ ("max_attempts", nat 2)
      ∷ ("active_attempt_token", str "T1")
      ∷ ("last_error", null)
      ∷ []))

abbrev planned : Fields
planned =
    put "role_runtime" (dict (fields (("planner", planner) ∷ ("evaluator", idle) ∷ [])))
      (run "PLANNING" null)

value : Result Fields → Fields
value (ok d) = d
value (err e) = Fields.end

bound : Fields
unfolding value add_pending_dispatch bind_matching_handle put
bound = value (
    add_pending_dispatch planned (invocation "T1" 0) (at "prompt.md") (at "schema.json")
      (at "preflight.json") (at "request.json")
    >>= λ prepared. bind_matching_handle prepared "T1" (handle "T1") (at "launch.json"))

abbrev retried_prefix : String
retried_prefix = "roles/planner/operations/PLAN-001/attempts/001/providers/001-T1"

abbrev receipt : String → String × ArtifactRef
receipt leaf = let path = String.◌++◌ retried_prefix leaf in (path, at path)

-- The provider has ended, without a result.
completed : Fields
unfolding value bound bind_completion put
completed = value (
    bind_completion "T1" (handle "T1") false bound
      (receipt "/stdout.log" ∷ receipt "/stderr.log" ∷ receipt "/exit.json" ∷ []))

ledger : Unit {0}
unfolding put remove value bound completed bind_matching_handle bind_completion validate_retry
    rotate load retry_dispatch accept_current_result abandon
ledger = tt

refuses_same_token :
    validate_retry (invocation "T1" 0) (invocation "T1" 1)
    ≡ err (contract "Provider retry counter or token is invalid")
unfolding ledger
refuses_same_token = refl

abbrev disk_of : Fields → Disk
disk_of state = record {
  state = some (dict state);
  artifacts = files (
      "creation/intent.json"
      ∷ "config.json"
      ∷ "prompt.md"
      ∷ "schema.json"
      ∷ "preflight.json"
      ∷ "request.json"
      ∷ "launch.json"
      ∷ String.◌++◌ retried_prefix "/stdout.log"
      ∷ String.◌++◌ retried_prefix "/stderr.log"
      ∷ String.◌++◌ retried_prefix "/exit.json"
      ∷ []);
}

abbrev retry : Fields → Result Fields × Disk
retry state =
    retry_dispatch env (invocation "T1" 0) (handle "T1") (invocation "T2" 1) "{}" (disk_of state)

rotated : Fields
unfolding ledger
rotated = value ((retry completed).0)

after_retry : Disk
unfolding ledger
after_retry = (retry completed).1

-- The provider has not ended.
refuses_running :
    retry bound
    ≡ (err (conflict "Provider retry source is not current and terminal"), disk_of bound)
unfolding ledger
refuses_running = refl

free_planner : Fields → Fields → References → Result Fields
unfolding ledger
free_planner current pending references =
    ok (put "role_runtime" (dict (fields (("planner", idle) ∷ ("evaluator", idle) ∷ []))) current)

abbrev logged_of : Fields → Logged
logged_of state = record { disk = disk_of state; log = [] }

after_acceptance : Logged
unfolding ledger free_planner
after_acceptance = (accept_current_result env "T1" [] free_planner (logged_of completed)).1

accepts_result :
    accept_current_result env "T1" [] free_planner (logged_of completed)
    ≡ (ok true, after_acceptance)
unfolding ledger free_planner after_acceptance
accepts_result = refl

-- The sample `dumps` gives the same text for every value.
refuses_stale :
    accept_current_result env "T0" [] free_planner (logged_of completed)
    ≡ (ok false, record { disk = disk_of completed; log = "{}" ∷ [] })
unfolding ledger free_planner
refuses_stale = refl

accept_current_result-once_example :
    Stale env "T1" after_acceptance
      (accept_current_result env "T1" [] free_planner after_acceptance)
    ⊎ Unreadable env after_acceptance
        (accept_current_result env "T1" [] free_planner after_acceptance)
accept_current_result-once_example =
    accept_current_result-once env "T1" [] free_planner (logged_of completed) after_acceptance
      accepts_result [] free_planner
