-- ===== src/Scheduler/Dispatch.antt =====
-- `promote_ready` and `dispatchable` of src/vibe/scheduler.py. The run state is a dict; the tasks
-- that `promote_ready` changes in place are given back in the new state.
pub mod Promotion
pub mod Safety
use vibe_coding_harness.Prelude.{
  ℕ, zero, suc, ◌-◌, String, Bool, true, false, not, ◌&&◌, ◌||◌, Option, none, some, List, [], ◌∷◌,
  ◌++◌, Result, ok, err, ◌>>=◌, ◌>>◌, expect, reject_if, contract, key_error, length, leb, any, all,
  map, ◌==◌, if◌then◌else◌, map_result, contains,
}
use vibe_coding_harness.Json.{
  ℤ, pos, Json, Fields, str, int, dict, entries, get_value, put, as_dict, is_word,
}
use vibe_coding_harness.Models.Contracts.{TaskContract, PlanDocument}
use vibe_coding_harness.Scheduler.Scopes.{scopes_overlap, resources_overlap}
use vibe_coding_harness.Scheduler.Order.{topological_order, ids}
use vibe_coding_harness.Scheduler.Attempts.{status_in}

-- `isinstance(value, dict) and value.get("status") in words`
abbrev pub value_has_status : List String → Json → Bool
value_has_status words (dict value) = status_in words (get_value "status" value)
value_has_status words _ = false

-- `tasks_state.get(task_id)` is a dict with one of the statuses.
unfoldable pub task_has_status : List String → Fields → String → Bool
task_has_status words tasks task_id = value_has_status words (get_value task_id tasks)

-- The last contract of an ID, as `{task.id: task for task in plan.tasks}` keeps it.
unfoldable pub contract_of : List TaskContract → String → Option TaskContract
contract_of [] task_id = none
contract_of (task ∷ tasks) task_id = elim (contract_of tasks task_id) [
  | none ↦ if task.id == task_id then some task else none
  | some later ↦ some later
]

-- `next(item for item in plan.tasks if item.id == task_id)`
unfoldable pub first_contract : List TaskContract → String → Option TaskContract
first_contract [] task_id = none
first_contract (task ∷ tasks) task_id =
    if task.id == task_id then some task else first_contract tasks task_id

unfoldable pub set_status : String → String → Fields → Fields
unfolding get_value
set_status status task_id tasks = elim (as_dict (get_value task_id tasks)) [
  | none ↦ tasks
  | some current ↦ put task_id (dict (put "status" (str status) current)) tasks
]

-- One round of the loop of `promote_ready`.
unfoldable pub is_promotable : List TaskContract → Fields → String → Result Bool
unfolding first_contract task_has_status
is_promotable plan_tasks tasks task_id = do
  task ← expect (first_contract plan_tasks task_id) key_error
  ok (
      task_has_status ("PENDING" ∷ []) tasks task_id
      && all (task_has_status ("COMPLETED" ∷ []) tasks) task.depends_on)

unfoldable pub promote_each :
    List TaskContract → List String → Fields → List String → Result (Fields × List String)
unfolding is_promotable set_status
promote_each plan_tasks [] tasks promoted = ok (tasks, promoted)
promote_each plan_tasks (task_id ∷ order) tasks promoted =
    is_promotable plan_tasks tasks task_id >>= λ promotable.
    promote_each plan_tasks order (if promotable then set_status "READY" task_id tasks else tasks)
      (if promotable then promoted ++ task_id ∷ [] else promoted)

unfoldable pub promote_ready : Fields → PlanDocument → Result (Fields × List String)
unfolding promote_each
promote_ready state plan = do
  tasks ← expect (as_dict (get_value "tasks" state)) (contract "run task state is invalid")
  order ← topological_order plan.tasks
  promotion ← promote_each plan.tasks order tasks []
  ok (put "tasks" (dict (promotion.0)) state, promotion.1)

-- The IDs of the tasks that hold a place: running, or on their way into the run's branch.
active_ids_of : List (String × Json) → List String
active_ids_of [] = []
active_ids_of ((task_id, value) ∷ rest) =
    let others = active_ids_of rest in
    if value_has_status ("RUNNING" ∷ "READY_TO_INTEGRATE" ∷ "INTEGRATING" ∷ []) value
    then task_id ∷ others
    else others

unfoldable pub active_ids : Fields → List String
unfolding active_ids_of
active_ids tasks = active_ids_of (entries tasks)

-- `scopes_overlap(…) or resources_overlap(…)` for a candidate and a reservation.
unfoldable pub in_conflict : TaskContract → TaskContract → Result Bool
unfolding scopes_overlap resources_overlap
in_conflict candidate reserved =
    scopes_overlap candidate.path_scope reserved.path_scope >>= λ overlap.
    ok (overlap || resources_overlap candidate.exclusive_resources reserved.exclusive_resources)

-- `any(…)` over the reservations, which stops at the first conflict.
unfoldable pub conflicts : TaskContract → List TaskContract → Result Bool
unfolding in_conflict
conflicts candidate [] = ok false
conflicts candidate (reserved ∷ reservations) =
    let others = conflicts candidate reservations in
    in_conflict candidate reserved >>= λ conflict. if conflict then ok true else others

-- The selection loop: the IDs that are selected so far, and the contracts that hold a place.
unfoldable pub select :
    ℕ
    → List TaskContract
    → Fields
    → List String
    → List String
    → List TaskContract
    → Result (List String)
unfolding contract_of task_has_status conflicts
select available plan_tasks tasks [] selected reservations = ok selected
select available plan_tasks tasks (task_id ∷ order) selected reservations =
    let skip = select available plan_tasks tasks order selected reservations in
    let take_task = λ (candidate : TaskContract).
      select available plan_tasks tasks order (selected ++ task_id ∷ [])
        (reservations ++ candidate ∷ []) in
    if leb available (length selected)
    then ok selected
    else if not (task_has_status ("READY" ∷ []) tasks task_id)
    then skip
    else (expect (contract_of plan_tasks task_id) key_error >>= λ candidate.
        conflicts candidate reservations >>= λ conflict.
        if conflict then skip else take_task candidate)

-- The worker limit: an integer of at least 1, or nothing is dispatched.
abbrev pub worker_limit : Json → Option ℕ
worker_limit (int (pos (suc n))) = some (suc n)
worker_limit _ = none

-- The part behind the early returns on the status and the limit.
unfoldable pub dispatch_tasks : ℕ → Fields → List TaskContract → Result (List String)
unfolding active_ids contract_of select
dispatch_tasks maximum tasks plan_tasks =
    if any (λ task_id. not (contains task_id (ids plan_tasks))) (active_ids tasks)
    then ok []
    else if leb maximum (length (active_ids tasks))
    then ok []
    else (map_result (λ task_id. expect (contract_of plan_tasks task_id) key_error)
          (active_ids tasks)
        >>= λ reservations. topological_order plan_tasks >>= λ order.
            select (maximum - length (active_ids tasks)) plan_tasks tasks order [] reservations)

unfoldable pub dispatchable : Fields → PlanDocument → Result (List String)
unfolding dispatch_tasks
dispatchable state plan =
    if not (is_word "EXECUTING" (get_value "status" state))
    then ok []
    else elim (worker_limit (get_value "max_workers" state)) [
      | none ↦ ok []
      | some maximum ↦
          expect (as_dict (get_value "tasks" state)) (contract "run task state is invalid")
          >>= λ tasks. dispatch_tasks maximum tasks plan.tasks
    ]
