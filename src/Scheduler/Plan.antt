-- ===== src/Scheduler/Plan.antt =====
-- The validation of a plan in src/vibe/scheduler.py: `Scheduler.validate_plan`, the checks that it
-- calls, and `effective_global_verification`.
pub mod Accepted
use vibe_coding_harness.Prelude.{
  ℕ, suc, ◌+◌, String, Bool, true, false, not, ◌&&◌, ◌||◌, List, [], ◌∷◌, ◌++◌, map, Result, ok,
  err, ◌>>=◌, ◌>>◌, reject_if, contract, map_result, each, any, all, contains, subset, is_empty,
  length, eqb, ltb, leb, has_duplicates, from_keys, ◌==◌, if◌then◌else◌,
}
use vibe_coding_harness.Prelude.Text.{is_blank}
use vibe_coding_harness.Prelude.Patterns.{acceptance_id_re, task_id_re, resource_re}
use vibe_coding_harness.Models.Contracts.{
  AcceptanceCriterion, TaskContract, PlanDocument, FrozenRunConfig,
}
use vibe_coding_harness.Config.Commands.{resolve_command_ids}
use vibe_coding_harness.Scheduler.Scopes.{normalize_scope}
use vibe_coding_harness.Scheduler.Order.{ids, topological_order}

abbrev pub default_worker_types : List String
default_worker_types =
    "implementation" ∷ "testing" ∷ "performance" ∷ "code-quality" ∷ "documentation" ∷ "general" ∷ []

unfoldable pub insert_plan : PlanDocument → List PlanDocument → List PlanDocument
insert_plan plan [] = plan ∷ []
insert_plan plan (p ∷ plans) =
    if leb plan.plan_version p.plan_version then plan ∷ p ∷ plans else p ∷ insert_plan plan plans

-- `sorted(plans, key=lambda item: item.plan_version)`, which is stable.
unfoldable pub sort_plans : List PlanDocument → List PlanDocument
unfolding insert_plan
sort_plans [] = []
sort_plans (plan ∷ plans) = insert_plan plan (sort_plans plans)

unfoldable pub check_each_version : ℕ → List PlanDocument → Result (Unit {0})
check_each_version index [] = ok tt
check_each_version index (plan ∷ plans) =
    reject_if (not (eqb plan.schema_version 1) || not (eqb plan.plan_version index))
      "prior Plan versions are not contiguous"
    >> check_each_version (suc index) plans

unfoldable pub validate_versions : PlanDocument → List PlanDocument → Result (Unit {0})
unfolding check_each_version
validate_versions document prior_plans = do
  reject_if (not (eqb document.schema_version 1)) "plan schema_version must be 1"
  check_each_version 1 prior_plans
  reject_if (not (eqb document.plan_version (length prior_plans + 1)))
      "plan_version must equal prior maximum plus one"

same_criteria : List AcceptanceCriterion → List AcceptanceCriterion → Bool
same_criteria [] [] = true
same_criteria (a ∷ left) (b ∷ right) =
    (a.id == b.id) && (a.description == b.description) && same_criteria left right
same_criteria _ _ = false

unfoldable pub criterion_ids : List AcceptanceCriterion → List String
criterion_ids criteria = map (λ criterion. criterion.id) criteria

check_original : List AcceptanceCriterion → List PlanDocument → Result (Unit {0})
unfolding same_criteria
check_original criteria [] = ok tt
check_original criteria (first ∷ plans) = do
  reject_if (not (same_criteria criteria first.acceptance_criteria))
      "repair Plan acceptance criteria must equal the original"
  each
      (λ plan.
        reject_if (not (same_criteria plan.acceptance_criteria first.acceptance_criteria))
          "prior repair acceptance criteria changed")
      plans

unfoldable pub validate_acceptance : PlanDocument → List PlanDocument → Result (Unit {0})
unfolding has_duplicates criterion_ids acceptance_id_re is_blank check_original
validate_acceptance document prior_plans = do
  reject_if (is_empty document.acceptance_criteria) "acceptance criteria cannot be empty"
  reject_if (has_duplicates (criterion_ids document.acceptance_criteria))
      "acceptance criterion IDs must be unique"
  each
      (λ criterion.
        reject_if (not (acceptance_id_re criterion.id)) "acceptance criterion ID is invalid"
        >> reject_if (is_blank criterion.description) "acceptance criterion description is empty")
      document.acceptance_criteria
  check_original document.acceptance_criteria prior_plans

unfoldable pub bad_covers : TaskContract → List String → Bool
unfolding has_duplicates
bad_covers task criteria_ids =
    is_empty task.covers || has_duplicates task.covers || not (subset task.covers criteria_ids)

unfoldable pub bad_dependencies : TaskContract → List String → Bool
unfolding has_duplicates
bad_dependencies task all_ids =
    has_duplicates task.depends_on
    || contains task.id task.depends_on
    || not (subset task.depends_on all_ids)

-- `registered` is `self.registered_worker_types`.
unfoldable pub validate_task :
    List String → FrozenRunConfig → List String → List String → TaskContract → Result (Unit {0})
unfolding task_id_re is_blank bad_covers bad_dependencies normalize_scope has_duplicates resource_re
    resolve_command_ids
validate_task registered config criteria_ids all_ids task = do
  reject_if (not (task_id_re task.id)) "invalid task ID"
  reject_if (is_blank task.objective) "objective is empty"
  reject_if (not (contains task.worker_type registered)) "Worker type is not registered"
  reject_if (bad_covers task criteria_ids) "has invalid acceptance coverage"
  reject_if (bad_dependencies task all_ids) "has an invalid dependency"
  reject_if (is_empty task.path_scope) "path scope is empty"
  scopes ← map_result normalize_scope task.path_scope
  reject_if (has_duplicates scopes) "path scopes are duplicated"
  reject_if (contains "." scopes && not (eqb (length scopes) 1))
      "whole-repository scope is not exclusive"
  reject_if (has_duplicates task.exclusive_resources) "resources are duplicated"
  each (λ resource. reject_if (not (resource_re resource)) "has an invalid exclusive resource")
      task.exclusive_resources
  reject_if (not (leb 1 task.max_attempts && leb task.max_attempts config.task_attempts))
      "max_attempts is invalid"
  commands ← resolve_command_ids config task.acceptance_checks
  ok tt

add_verification : FrozenRunConfig → List String → List PlanDocument → Result (List String)
unfolding resolve_command_ids from_keys
add_verification config command_ids [] = ok command_ids
add_verification config command_ids (plan ∷ plans) =
    resolve_command_ids config plan.global_verification
    >> add_verification config (from_keys (command_ids ++ plan.global_verification)) plans

unfoldable pub effective_global_verification :
    FrozenRunConfig → List PlanDocument → Result (List String)
unfolding add_verification sort_plans resolve_command_ids
effective_global_verification config plans = do
  command_ids ← add_verification config config.required_command_ids (sort_plans plans)
  resolve_command_ids config command_ids
  ok command_ids

abbrev pub tasks_of : List PlanDocument → List TaskContract
tasks_of [] = []
tasks_of (plan ∷ plans) = plan.tasks ++ tasks_of plans

abbrev pub covered_by : List TaskContract → List String
covered_by [] = []
covered_by (task ∷ tasks) = task.covers ++ covered_by tasks

-- `validate_plan` once the prior plans are sorted.
unfoldable pub validate_sorted :
    List String → PlanDocument → FrozenRunConfig → List PlanDocument → Result (Unit {0})
unfolding validate_versions validate_acceptance has_duplicates validate_task criterion_ids
    topological_order resolve_command_ids effective_global_verification
validate_sorted registered document config plans = do
  validate_versions document plans
  validate_acceptance document plans
  reject_if (ltb config.max_plan_tasks (length (tasks_of plans) + length document.tasks))
      "global Planner task limit exceeded"
  reject_if (has_duplicates (ids (tasks_of plans))) "prior Plan task IDs are not globally unique"
  reject_if (has_duplicates (ids document.tasks)) "task IDs must be unique"
  reject_if (any (λ id. contains id (ids (tasks_of plans))) (ids document.tasks))
      "repair Plan cannot rewrite a completed or prior task"
  each
      (validate_task registered config (criterion_ids document.acceptance_criteria)
        (ids (tasks_of plans ++ document.tasks)))
      document.tasks
  order ← topological_order (tasks_of plans ++ document.tasks)
  reject_if
      (not (
        subset (criterion_ids document.acceptance_criteria)
          (covered_by (tasks_of plans ++ document.tasks))))
      "acceptance criteria are not fully covered"
  commands ← resolve_command_ids config document.global_verification
  verification ← effective_global_verification config (plans ++ document ∷ [])
  ok tt

unfoldable pub validate_plan :
    List String → PlanDocument → FrozenRunConfig → List PlanDocument → Result (Unit {0})
unfolding sort_plans validate_sorted
validate_plan registered document config prior_plans =
    validate_sorted registered document config (sort_plans prior_plans)
