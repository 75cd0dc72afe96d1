-- ===== src/Models/Validation/RunState.antt =====
-- `validate_run_state` of src/vibe/models.py. Its checks stand in the order of the source, in blocks.
-- The value that it returns is a deep copy of the state.
use vibe_coding_harness.Prelude.{
  ℕ, String, Bool, true, false, not, ◌&&◌, ◌||◌, Option, some, List, [], ◌∷◌, Result, ok, err,
  ◌>>=◌, ◌>>◌, expect, reject_if, contract, any, contains, length, eqb, ltb, each,
}
use vibe_coding_harness.Prelude.Patterns.{run_id_re}
use vibe_coding_harness.Json.{
  ℤ, pos, negsuc, Json, Fields, null, bool, int, str, get_value, keys, entries, as_dict, as_list,
  is_null, is_word, truthy,
}
use vibe_coding_harness.Models.Contracts.{ArtifactRef}
use vibe_coding_harness.Models.Status.{RunStatus, run_status, evaluation_verdict, paused}
use vibe_coding_harness.Models.Transition.{is_halt}
use vibe_coding_harness.Models.Transition.Phases.{is_active, is_terminal}
use vibe_coding_harness.Models.Validation.Basic.{
  item, require_string, require_exact_fields, require_rfc3339, reject_invalid_json_scalars,
  artifact, optional_artifact, artifact_list, check_digests, optional_error,
}
use vibe_coding_harness.Models.Validation.Runtime.{
  string_at, int_at, oid_at, validate_repository, validate_controller, validate_role_runtime,
}
use vibe_coding_harness.Models.Validation.Tasks.{validate_task}
use vibe_coding_harness.Models.Validation.Pending.{
  validate_pending_dispatch, validate_prepared_markers,
}

abbrev pub run_fields : List String
run_fields =
    "schema_version" ∷ "run_id" ∷ "revision" ∷ "goal" ∷ "repository" ∷ "status" ∷ "resume_status"
    ∷ "plan_version" ∷ "repair_round" ∷ "max_repair_rounds" ∷ "max_workers" ∷ "controller"
    ∷ "creation" ∷ "config" ∷ "artifact_index" ∷ "plans" ∷ "role_attempts" ∷ "role_runtime"
    ∷ "evaluations" ∷ "verifications" ∷ "legacy_import" ∷ "tasks" ∷ "pending_dispatches"
    ∷ "pending_source_commit" ∷ "pending_integration" ∷ "pending_evaluation" ∷ "latest_evaluation"
    ∷ "global_verification" ∷ "stop_receipts" ∷ "last_error" ∷ "created_at" ∷ "updated_at" ∷ []

is_four : Json → Bool
is_four (int (pos n)) = eqb n 4
is_four _ = false

-- The fields, the scalars, and what names the run.
unfoldable pub check_identity : Fields → Result (Unit {0})
unfolding reject_invalid_json_scalars item is_four string_at run_id_re int_at validate_repository
check_identity state = do
  reject_if (any (λ k. not (contains k run_fields)) (keys state)) "unknown run state fields"
  reject_if (any (λ k. not (contains k (keys state))) run_fields) "missing run state fields"
  reject_invalid_json_scalars (Json.dict state)
  version ← item "schema_version" state
  reject_if (not (is_four version)) "schema_version must be integer 4"
  run_id ← string_at "run_id" state
  reject_if (not (run_id_re run_id)) "run_id must match RUN-YYYYMMDD-NNN"
  revision ← int_at "revision" 0 state
  goal ← string_at "goal" state
  repository ← item "repository" state
  validate_repository repository run_id

-- `RunStatus(value)`, with ValueError as ContractError.
unfoldable pub run_status_of : Json → String → Result RunStatus
unfolding run_status
run_status_of (str s) message = expect (run_status s) (contract message)
run_status_of _ message = err (contract message)

unfoldable pub check_resume : Json → Result (Unit {0})
unfolding run_status_of
check_resume null = ok tt
check_resume v = do
  resume ← run_status_of v "resume_status is invalid"
  reject_if (not (is_active resume)) "resume_status must name an active state"

-- The status, and the state that a halted run is to resume.
unfoldable pub check_status : Fields → Result RunStatus
unfolding item run_status_of check_resume
check_status state = do
  value ← item "status" state
  status ← run_status_of value "status is invalid"
  resume ← item "resume_status" state
  check_resume resume
  ok status

plan_version_matches : ℕ → List ArtifactRef → Bool
plan_version_matches n plans = eqb n (length plans)

-- The counters and the lists of artifacts.
unfoldable pub check_contents : Fields → Result (Unit {0})
unfolding int_at item validate_controller require_exact_fields artifact optional_artifact
    artifact_list check_digests validate_role_runtime plan_version_matches
check_contents state = do
  plan_version ← int_at "plan_version" 0 state
  repair_round ← int_at "repair_round" 0 state
  max_repair_rounds ← int_at "max_repair_rounds" 1 state
  max_workers ← int_at "max_workers" 1 state
  (item "controller" state >>= validate_controller)
  creation ← (item "creation" state >>= λ v. require_exact_fields v ("intent" ∷ "receipt" ∷ []))
  intent ← (item "intent" creation >>= artifact)
  receipt ← (item "receipt" creation >>= optional_artifact)
  config ← (item "config" state >>= artifact)
  artifact_index ← (item "artifact_index" state >>= artifact_list)
  check_digests artifact_index []
  plans ← (item "plans" state >>= artifact_list)
  reject_if (not (plan_version_matches plan_version plans)) "plan_version must equal len(plans)"
  role_attempts ←
      (item "role_attempts" state >>= λ v. require_exact_fields v ("planner" ∷ "evaluator" ∷ []))
  each (λ role. (item role role_attempts >>= artifact_list) >>= λ r. ok tt)
      ("planner" ∷ "evaluator" ∷ [])
  (item "role_runtime" state >>= validate_role_runtime)
  evaluations ← (item "evaluations" state >>= artifact_list)
  verifications ← (item "verifications" state >>= artifact_list)
  legacy_import ← (item "legacy_import" state >>= optional_artifact)
  ok tt

-- The tasks, the pending dispatches and the prepared markers.
unfoldable pub check_work : (String → Option (Bool × ℤ)) → Fields → Result (Unit {0})
unfolding item validate_task require_string validate_pending_dispatch validate_prepared_markers
check_work from_isoformat state = do
  tasks ← (item "tasks" state >>= λ v. expect (as_dict v) (contract "tasks must be an object"))
  each (λ (task_id, task). validate_task from_isoformat task_id task) (entries tasks)
  dispatches ←
      (item "pending_dispatches" state >>= λ v.
      expect (as_dict v) (contract "pending_dispatches must be an object"))
  each
      (λ (token, pending).
        require_string (str token) >> validate_pending_dispatch from_isoformat token pending state)
      (entries dispatches)
  validate_prepared_markers from_isoformat state

check_verdict : Json → Result (Unit {0})
unfolding evaluation_verdict
check_verdict (str s) =
    expect (evaluation_verdict s) (contract "latest_evaluation.verdict is invalid") >> ok tt
check_verdict _ = err (contract "latest_evaluation.verdict is invalid")

check_latest : Json → Result (Unit {0})
unfolding require_exact_fields item artifact check_verdict int_at oid_at
check_latest null = ok tt
check_latest v = do
  raw ←
      require_exact_fields v
        ("evaluation" ∷ "verdict" ∷ "evaluation_round" ∷ "evidence_round" ∷ "integration_head" ∷ [])
  evaluation ← (item "evaluation" raw >>= artifact)
  (item "verdict" raw >>= check_verdict)
  evaluation_round ← int_at "evaluation_round" 1 raw
  evidence_round ← int_at "evidence_round" 0 raw
  integration_head ← oid_at "integration_head" raw
  ok tt

is_bool : Json → Bool
is_bool (bool b) = true
is_bool _ = false

check_global : Json → Result (Unit {0})
unfolding require_exact_fields item artifact oid_at is_bool
check_global null = ok tt
check_global v = do
  raw ← require_exact_fields v ("verification" ∷ "integration_head" ∷ "passed" ∷ [])
  verification ← (item "verification" raw >>= artifact)
  integration_head ← oid_at "integration_head" raw
  passed ← item "passed" raw
  reject_if (not (is_bool passed)) "global_verification.passed must be a boolean"

check_receipt : Json → Result (Unit {0})
unfolding require_exact_fields string_at item artifact
check_receipt v = do
  raw ← require_exact_fields v ("nonce" ∷ "receipt" ∷ [])
  nonce ← string_at "nonce" raw
  receipt ← (item "receipt" raw >>= artifact)
  ok tt

-- What was evaluated and verified last, and the receipts of stop requests.
unfoldable pub check_outcomes : Fields → Result (Unit {0})
unfolding item check_latest check_global check_receipt
check_outcomes state = do
  (item "latest_evaluation" state >>= check_latest)
  (item "global_verification" state >>= check_global)
  receipts ←
      (item "stop_receipts" state >>= λ v.
      expect (as_list v) (contract "stop_receipts must be an array"))
  each check_receipt receipts

-- `datetime.fromisoformat(updated_at) < datetime.fromisoformat(created_at)`, by their instants.
int_before : ℤ → ℤ → Bool
int_before (pos m) (pos n) = ltb m n
int_before (pos m) (negsuc n) = false
int_before (negsuc m) (pos n) = true
int_before (negsuc m) (negsuc n) = ltb n m

unfoldable pub precedes : Option (Bool × ℤ) → Option (Bool × ℤ) → Bool
unfolding int_before
precedes (some a) (some b) = int_before a.1 b.1
precedes _ _ = false

-- The last error, and the two times.
unfoldable pub check_times : (String → Option (Bool × ℤ)) → Fields → Result (Option Fields)
unfolding item optional_error require_rfc3339 precedes
check_times from_isoformat state = do
  last_error ← (item "last_error" state >>= optional_error)
  created_at ← (item "created_at" state >>= require_rfc3339 from_isoformat)
  updated_at ← (item "updated_at" state >>= require_rfc3339 from_isoformat)
  reject_if (precedes (from_isoformat updated_at) (from_isoformat created_at))
      "updated_at must not precede created_at"
  ok last_error

-- A migrated run that waits for a new plan may be paused with nothing to resume.
unfoldable pub is_migration_pause : RunStatus → Option Fields → Bool
unfolding get_value
is_migration_pause paused (some e) =
    is_word "SCHEMA3_REPLAN_REQUIRED" (get_value "code" e)
    || is_word "MIGRATION_INSTALLING" (get_value "code" e)
is_migration_pause _ _ = false

-- The last checks: what the status demands of the other fields.
unfoldable pub check_coherence : RunStatus → Option Fields → Fields → Result (Unit {0})
unfolding item is_migration_pause
check_coherence status last_error state = do
  resume ← item "resume_status" state
  reject_if (is_halt status && is_null resume && not (is_migration_pause status last_error))
      "resume_status is required while paused/stopped"
  reject_if (not (is_halt status) && not (is_null resume))
      "resume_status is only valid while paused/stopped"
  dispatches ← item "pending_dispatches" state
  source ← item "pending_source_commit" state
  integration ← item "pending_integration" state
  evaluation ← item "pending_evaluation" state
  reject_if
      (is_terminal status
        && (truthy dispatches
            || not (is_null source)
            || not (is_null integration)
            || not (is_null evaluation)))
      "terminal runs cannot retain pending work"

unfoldable pub validate_run_state : (String → Option (Bool × ℤ)) → Json → Result Fields
unfolding check_identity check_status check_contents check_work check_outcomes check_times
    check_coherence
validate_run_state from_isoformat value = do
  state ← expect (as_dict value) (contract "run state must be an object")
  check_identity state
  status ← check_status state
  check_contents state
  check_work from_isoformat state
  check_outcomes state
  last_error ← check_times from_isoformat state
  check_coherence status last_error state
  ok state
