-- ===== src/Tests/Dispatching.antt =====
-- A plan of four tasks, and what is dispatched of it.
use vibe_coding_harness.Prelude.{
  String, ◌≡◌, refl, ◌≢◌, ◌⊎◌, ok, err, contract, out_of_rounds, List, [], ◌∷◌,
}
use vibe_coding_harness.Json.{Json, Fields, str, dict, get, get_value, put}
use vibe_coding_harness.Models.Contracts.{fields, nat, TaskContract, PlanDocument}
use vibe_coding_harness.Scheduler.Order.{topological_order}
use vibe_coding_harness.Scheduler.Order.Fuel.{topological_order-terminates}
use vibe_coding_harness.Scheduler.Dispatch.{dispatchable, promote_ready}
use vibe_coding_harness.Scheduler.Dispatch.Promotion.{Promotion, promote_ready-Promotion}
use vibe_coding_harness.Scheduler.Dispatch.Safety.{Dispatch, dispatchable-safe}

abbrev task : String → List String → String → TaskContract
task id depends_on scope = record {
  id = id;
  objective = "Work";
  worker_type = "general";
  covers = [];
  depends_on = depends_on;
  path_scope = scope ∷ [];
  exclusive_resources = [];
  acceptance_checks = [];
  max_attempts = 1;
}

abbrev plan_of : List TaskContract → PlanDocument
plan_of tasks = record {
  schema_version = 1;
  plan_version = 1;
  summary = "Plan";
  acceptance_criteria = [];
  global_verification = [];
  tasks = tasks;
}

abbrev four : List TaskContract
four =
    task "TASK-004" ("TASK-002" ∷ "TASK-003" ∷ []) "docs/"
    ∷ task "TASK-003" ("TASK-001" ∷ []) "src/b/"
    ∷ task "TASK-002" ("TASK-001" ∷ []) "src/a/x.py"
    ∷ task "TASK-001" [] "src/a/"
    ∷ []

abbrev status_dict : String → Json
status_dict status = dict (fields (("status", str status) ∷ []))

abbrev state : String → String → String → String → Fields
state a b c d = fields (
    ("status", str "EXECUTING")
    ∷ ("max_workers", nat 3)
    ∷ (
      "tasks",
      dict (
          fields (
            ("TASK-001", status_dict a)
            ∷ ("TASK-002", status_dict b)
            ∷ ("TASK-003", status_dict c)
            ∷ ("TASK-004", status_dict d)
            ∷ [])),
    )
    ∷ [])

program : Unit {0}
unfolding topological_order dispatchable promote_ready get get_value put
program = tt

order_of_four : topological_order four ≡ ok ("TASK-001" ∷ "TASK-002" ∷ "TASK-003" ∷ "TASK-004" ∷ [])
unfolding program
order_of_four = refl

order_of_cycle :
    topological_order
      (task "TASK-001" ("TASK-002" ∷ []) "a" ∷ task "TASK-002" ("TASK-001" ∷ []) "b" ∷ [])
    ≡ err (contract "Planner task graph contains a cycle")
unfolding program
order_of_cycle = refl

topological_order-terminates_example : topological_order four ≢ err out_of_rounds
topological_order-terminates_example = topological_order-terminates four

-- TASK-002 is in the directory of the running TASK-001, so only TASK-003 is named.
dispatch_one :
    dispatchable (state "RUNNING" "READY" "READY" "PENDING") (plan_of four) ≡ ok ("TASK-003" ∷ [])
unfolding program
dispatch_one = refl

dispatchable-safe_example :
    ◌≡◌ {A = List String} ("TASK-003" ∷ []) []
    ⊎ Dispatch (state "RUNNING" "READY" "READY" "PENDING") (plan_of four) ("TASK-003" ∷ [])
dispatchable-safe_example =
    dispatchable-safe (state "RUNNING" "READY" "READY" "PENDING") (plan_of four) ("TASK-003" ∷ [])
      dispatch_one

promote_two :
    promote_ready (state "COMPLETED" "PENDING" "PENDING" "PENDING") (plan_of four)
    ≡ ok (state "COMPLETED" "READY" "READY" "PENDING", "TASK-002" ∷ "TASK-003" ∷ [])
unfolding program
promote_two = refl

promote_ready-Promotion_example :
    Promotion
      (state "COMPLETED" "PENDING" "PENDING" "PENDING")
      (plan_of four)
      (state "COMPLETED" "READY" "READY" "PENDING")
      ("TASK-002" ∷ "TASK-003" ∷ [])
promote_ready-Promotion_example =
    promote_ready-Promotion (state "COMPLETED" "PENDING" "PENDING" "PENDING") (plan_of four)
      (state "COMPLETED" "READY" "READY" "PENDING") ("TASK-002" ∷ "TASK-003" ∷ []) promote_two
