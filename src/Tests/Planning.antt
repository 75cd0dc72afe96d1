-- ===== src/Tests/Planning.antt =====
-- A first plan and a repair plan of src/vibe/scheduler.py.
use vibe_coding_harness.Prelude.{
  ℕ, String, ◌≡◌, refl, none, ok, err, contract, index_error, List, [], ◌∷◌,
}
use vibe_coding_harness.Models.Contracts.{TaskContract, PlanDocument, FrozenRunConfig}
use vibe_coding_harness.Scheduler.Plan.{default_worker_types, validate_plan}
use vibe_coding_harness.Scheduler.Plan.Accepted.{Accepted, validate_plan-Accepted}

abbrev task : String → List String → List String → String → TaskContract
task id covers depends_on scope = record {
  id = id;
  objective = "Work";
  worker_type = "general";
  covers = covers;
  depends_on = depends_on;
  path_scope = scope ∷ [];
  exclusive_resources = "port:8080" ∷ [];
  acceptance_checks = "unit" ∷ [];
  max_attempts = 2;
}

abbrev config : FrozenRunConfig
config = record {
  provider_name = "codex";
  max_workers = 2;
  task_attempts = 2;
  provider_retries = 1;
  evidence_rounds = 1;
  repair_rounds = 2;
  max_plan_tasks = 3;
  command_catalog =
      (record {
        id = "unit";
        purpose = "test";
        argv = "pytest" ∷ [];
        cwd = ".";
        timeout_seconds = 60;
        env_allowlist = [];
      })
      ∷ [];
  required_command_ids = "unit" ∷ [];
  command_authorization = record { mode = "NONE"; source_path = none; source_sha256 = "" };
}

abbrev plan : ℕ → List TaskContract → PlanDocument
plan version tasks = record {
  schema_version = 1;
  plan_version = version;
  summary = "Plan";
  acceptance_criteria =
      (record { id = "AC-001"; description = "It parses" })
      ∷ (record { id = "AC-002"; description = "It prints" })
      ∷ [];
  global_verification = "unit" ∷ [];
  tasks = tasks;
}

abbrev first : PlanDocument
first = plan 1 (
    task "TASK-001" ("AC-001" ∷ []) [] "src/parse/"
    ∷ task "TASK-002" ("AC-002" ∷ []) ("TASK-001" ∷ []) "src/print.py"
    ∷ [])

abbrev repair : PlanDocument
repair = plan 2 (task "TASK-003" ("AC-002" ∷ []) ("TASK-002" ∷ []) "src/print.py" ∷ [])

planning : Unit {0}
unfolding validate_plan
planning = tt

accepts_first : validate_plan default_worker_types first config [] ≡ ok tt
unfolding planning
accepts_first = refl

accepts_repair : validate_plan default_worker_types repair config (first ∷ []) ≡ ok tt
unfolding planning
accepts_repair = refl

rejects_same_version :
    validate_plan default_worker_types first config (first ∷ [])
    ≡ err (contract "plan_version must equal prior maximum plus one")
unfolding planning
rejects_same_version = refl

-- A Planner that writes `./` as a scope gets past the error that `validate_plan` raises.
scope_without_parts :
    validate_plan default_worker_types
      (plan 1 (task "TASK-001" ("AC-001" ∷ "AC-002" ∷ []) [] "./" ∷ []))
      config
      []
    ≡ err index_error
unfolding planning
scope_without_parts = refl

validate_plan-Accepted_example : Accepted default_worker_types repair config (first ∷ [])
validate_plan-Accepted_example =
    validate_plan-Accepted default_worker_types repair config (first ∷ []) accepts_repair
