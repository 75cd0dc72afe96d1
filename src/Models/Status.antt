-- ===== src/Models/Status.antt =====
-- The string enumerations of src/vibe/models.py. `value` prints a member, and `of_value` is the
-- call of the class on a string, `RunStatus(text)`: `none` is Python's ValueError.
use vibe_coding_harness.Prelude.{String, Option, none, some, List, [], ◌∷◌, ◌==◌, if◌then◌else◌}

-- The first member whose value is the text.
abbrev pub find_value {ℓ} : {A : Type ℓ} → (A → String) → List A → String → Option A
find_value value [] text = none
find_value value (a ∷ rest) text =
    let others = find_value value rest text in if value a == text then some a else others

pub data RunStatus : Type 0 where
  created planning executing global_verifying evaluating repairing : RunStatus
  paused stopped succeeded failed imported_read_only : RunStatus

pub data TaskStatus : Type 0 where
  pending ready running ready_to_integrate integrating completed failed cancelled : TaskStatus

pub data AttemptStatus : Type 0 where
  starting running verifying succeeded failed cancelled abandoned : AttemptStatus

pub data ProviderStatus : Type 0 where
  running succeeded failed : ProviderStatus

pub data EvaluationVerdict : Type 0 where
  pass needs_repair unverified blocked : EvaluationVerdict

abbrev pub run_value : RunStatus → String
run_value created = "CREATED"
run_value planning = "PLANNING"
run_value executing = "EXECUTING"
run_value global_verifying = "GLOBAL_VERIFYING"
run_value evaluating = "EVALUATING"
run_value repairing = "REPAIRING"
run_value paused = "PAUSED"
run_value stopped = "STOPPED"
run_value succeeded = "SUCCEEDED"
run_value failed = "FAILED"
run_value imported_read_only = "IMPORTED_READ_ONLY"

abbrev pub run_members : List RunStatus
run_members =
    created ∷ planning ∷ executing ∷ global_verifying ∷ evaluating ∷ repairing ∷ paused ∷ stopped
    ∷ RunStatus.succeeded ∷ RunStatus.failed ∷ imported_read_only ∷ []

unfoldable pub run_status : String → Option RunStatus
run_status = find_value run_value run_members

abbrev pub task_value : TaskStatus → String
task_value pending = "PENDING"
task_value ready = "READY"
task_value running = "RUNNING"
task_value ready_to_integrate = "READY_TO_INTEGRATE"
task_value integrating = "INTEGRATING"
task_value completed = "COMPLETED"
task_value failed = "FAILED"
task_value cancelled = "CANCELLED"

unfoldable pub task_status : String → Option TaskStatus
task_status = find_value task_value (
    pending ∷ ready ∷ TaskStatus.running ∷ ready_to_integrate ∷ integrating ∷ completed
    ∷ TaskStatus.failed ∷ TaskStatus.cancelled ∷ [])

abbrev pub attempt_value : AttemptStatus → String
attempt_value starting = "STARTING"
attempt_value running = "RUNNING"
attempt_value verifying = "VERIFYING"
attempt_value succeeded = "SUCCEEDED"
attempt_value failed = "FAILED"
attempt_value cancelled = "CANCELLED"
attempt_value abandoned = "ABANDONED"

unfoldable pub attempt_status : String → Option AttemptStatus
attempt_status = find_value attempt_value (
    starting ∷ AttemptStatus.running ∷ verifying ∷ AttemptStatus.succeeded ∷ AttemptStatus.failed
    ∷ AttemptStatus.cancelled ∷ abandoned ∷ [])

abbrev pub verdict_value : EvaluationVerdict → String
verdict_value pass = "PASS"
verdict_value needs_repair = "NEEDS_REPAIR"
verdict_value unverified = "UNVERIFIED"
verdict_value blocked = "BLOCKED"

unfoldable pub evaluation_verdict : String → Option EvaluationVerdict
evaluation_verdict = find_value verdict_value (pass ∷ needs_repair ∷ unverified ∷ blocked ∷ [])
