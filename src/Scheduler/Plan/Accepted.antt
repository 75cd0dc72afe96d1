-- ===== src/Scheduler/Plan/Accepted.antt =====
-- What the run may rely on once `validate_plan` of src/vibe/scheduler.py has accepted a plan.
use vibe_coding_harness.Prelude.{
  true_of_not, ℕ, suc, ◌+◌, ◌≤◌, String, Bool, true, false, not, ◌&&◌, ◌||◌, ◌≡◌, refl, ap, ◌∙◌,
  ◌⊎◌, inl, inr, arith, List, [], ◌∷◌, ◌++◌, map, Result, ok, >>=-eq-ok, past_reject_if, reject_if,
  reject_if-ok, any-false_of_In, map_result, each, any, all, contains, subset, In, In-contains,
  contains_of_In, length, eqb, eqb_iff, ltb, le_of_ltb-false, leb, is_empty, has_duplicates,
  or-false_parts,
}
use vibe_coding_harness.Prelude.Text.{is_blank}
use vibe_coding_harness.Prelude.Patterns.{task_id_re, resource_re}
use vibe_coding_harness.Models.Contracts.{
  AcceptanceCriterion, TaskContract, PlanDocument, FrozenRunConfig,
}
use vibe_coding_harness.Scheduler.Scopes.{normalize_scope}
use vibe_coding_harness.Scheduler.Order.{ids, topological_order}
use vibe_coding_harness.Scheduler.Order.Contents.{count, topological_order-count}
use vibe_coding_harness.Scheduler.Plan.{
  sort_plans, insert_plan, validate_versions, check_each_version, validate_acceptance, bad_covers,
  bad_dependencies, validate_task, tasks_of, covered_by, criterion_ids, validate_sorted,
  validate_plan,
}

all-In : {A : Type 0} (p : A → Bool) (xs : List A) (a : A) → all p xs ≡ true → In a xs → p a ≡ true
all-In p [] a h m = elim m [ ]
all-In p (x ∷ xs) a h (inl e) = rw e (ground arith)
all-In p (x ∷ xs) a h (inr m) = all-In p xs a (ground arith) m

each-In :
    {A : Type 0} (f : A → Result (Unit {0})) (xs : List A) (a : A)
    → each f xs ≡ ok tt
    → In a xs
    → f a ≡ ok tt
each-In f [] a h m = elim m [ ]
each-In f (x ∷ xs) a h (inl e) = let (u, done, _) = >>=-eq-ok (f x) _ h in rw e done
each-In f (x ∷ xs) a h (inr m) = let (_, _, rest) = >>=-eq-ok (f x) _ h in each-In f xs a rest m

map-In : {A B : Type 0} (f : A → B) (xs : List A) (a : A) → In a xs → In (f a) (map f xs)
map-In f [] a m = elim m [ ]
map-In f (x ∷ xs) a (inl e) = inl (ap f e)
map-In f (x ∷ xs) a (inr m) = inr (map-In f xs a m)

split_In : {A : Type 0} (xs ys : List A) (a : A) → In a (xs ++ ys) → In a xs ⊎ In a ys
split_In [] ys a m = inr m
split_In (x ∷ xs) ys a (inl e) = inl (inl e)
split_In (x ∷ xs) ys a (inr m) = elim (split_In xs ys a m) [
  | inl left ↦ inl (inr left)
  | inr right ↦ inr right
]

covered_In :
    (tasks : List TaskContract) (a : String)
    → In a (covered_by tasks)
    → (task : TaskContract) × In task tasks × In a task.covers
covered_In [] a m = elim m [ ]
covered_In (task ∷ tasks) a m = elim (split_In task.covers (covered_by tasks) a m) [
  | inl here ↦ (task, inl refl, here)
  | inr later ↦
      let (found, listed, covers) = covered_In tasks a later in (found, inr listed, covers)
]

length-insert_plan :
    (plan : PlanDocument) (plans : List PlanDocument)
    → length (insert_plan plan plans) ≡ suc (length plans)
unfolding insert_plan
length-insert_plan plan [] = refl
length-insert_plan plan (p ∷ plans) = ground (arith, length-insert_plan plan plans)

length-sort_plans : (plans : List PlanDocument) → length (sort_plans plans) ≡ length plans
unfolding sort_plans
length-sort_plans [] = refl
length-sort_plans (plan ∷ plans) =
    length-insert_plan plan (sort_plans plans) ∙ ap suc (length-sort_plans plans)

module _ (config : FrozenRunConfig) (known : List String) where
  -- A task that the run can schedule, start and retry within its limits.
  pub record Sound (task : TaskContract) : Type 0 where
    pub identified : task_id_re task.id ≡ true
    pub depends_on_known : (id : String) → In id task.depends_on → In id known
    pub depends_on_others : ¬ In task.id task.depends_on
    pub at_least_once : 1 ≤ task.max_attempts
    pub within_config : task.max_attempts ≤ config.task_attempts

limits_kept : (n maximum : ℕ) → not (leb 1 n && leb n maximum) ≡ false → (1 ≤ n) × (n ≤ maximum)
limits_kept n maximum h = ground arith

validate_task-Sound :
    (registered : List String) (config : FrozenRunConfig) (criteria_ids known : List String)
    (task : TaskContract)
    → validate_task registered config criteria_ids known task ≡ ok tt
    → Sound config known task
unfolding validate_task bad_dependencies
validate_task-Sound registered config criteria_ids known task h =
    let (identified, h1) = past_reject_if (not (task_id_re task.id)) "invalid task ID" _ h in
    let (_, h2) = past_reject_if (is_blank task.objective) "objective is empty" _ h1 in
    let (_, h3) =
      past_reject_if (not (contains task.worker_type registered)) "Worker type is not registered" _
        h2 in
    let (_, h4) =
      past_reject_if (bad_covers task criteria_ids) "has invalid acceptance coverage" _ h3 in
    let (dependencies, h5) =
      past_reject_if (bad_dependencies task known) "has an invalid dependency" _ h4 in
    let (_, h6) = past_reject_if (is_empty task.path_scope) "path scope is empty" _ h5 in
    let (scopes, _, h7) = >>=-eq-ok (map_result normalize_scope task.path_scope) _ h6 in
    let (_, h8) = past_reject_if (has_duplicates scopes) "path scopes are duplicated" _ h7 in
    let (_, h9) =
      past_reject_if (contains "." scopes && not (eqb (length scopes) 1))
        "whole-repository scope is not exclusive" _ h8 in
    let (_, h10) =
      past_reject_if (has_duplicates task.exclusive_resources) "resources are duplicated" _ h9 in
    let (_, _, h11) =
      >>=-eq-ok
        (each
          (λ resource. reject_if (not (resource_re resource)) "has an invalid exclusive resource")
          task.exclusive_resources)
        _ h10 in
    let (limits, _) =
      past_reject_if (not (leb 1 task.max_attempts && leb task.max_attempts config.task_attempts))
        "max_attempts is invalid" _ h11 in
    let (others, all_known) =
      or-false_parts (has_duplicates task.depends_on || contains task.id task.depends_on)
        (not (subset task.depends_on known)) dependencies in
    let (_, other) =
      or-false_parts (has_duplicates task.depends_on) (contains task.id task.depends_on) others in
    let is_subset = true_of_not (subset task.depends_on known) all_known in
    record {
      identified = true_of_not (task_id_re task.id) identified;
      depends_on_known = λ id m.
          In-contains id known (all-In (λ x. contains x known) task.depends_on id is_subset m);
      depends_on_others = λ m. let there = contains_of_In task.id task.depends_on m in cc;
      at_least_once = (limits_kept task.max_attempts config.task_attempts limits).0;
      within_config = (limits_kept task.max_attempts config.task_attempts limits).1;
    }

module _ (registered : List String) (document : PlanDocument) (config : FrozenRunConfig)
    (prior_plans : List PlanDocument) where
  -- The tasks of the run: those of the prior plans, then those of the new one.
  abbrev pub all_tasks : List TaskContract
  all_tasks = tasks_of (sort_plans prior_plans) ++ document.tasks

  pub record Accepted : Type 0 where
    pub next_version : document.plan_version ≡ suc (length prior_plans)
    pub within_limit :
        length (tasks_of (sort_plans prior_plans)) + length document.tasks ≤ config.max_plan_tasks
    pub new_ids :
        (id : String)
        → In id (ids document.tasks)
        → ¬ In id (ids (tasks_of (sort_plans prior_plans)))
    pub sound : (task : TaskContract) → In task document.tasks → Sound config (ids all_tasks) task
    pub order : List String
    pub acyclic : topological_order all_tasks ≡ ok order
    pub every_task : (id : String) → count id order ≡ count id (ids all_tasks)
    pub covered :
        (criterion : AcceptanceCriterion)
        → In criterion document.acceptance_criteria
        → (task : TaskContract) × In task all_tasks × In criterion.id task.covers

  validate_versions-next :
      (plans : List PlanDocument)
      → validate_versions document plans ≡ ok tt
      → document.plan_version ≡ length plans + 1
  unfolding validate_versions
  validate_versions-next plans h =
      let (_, h1) =
        past_reject_if (not (eqb document.schema_version 1)) "plan schema_version must be 1" _ h in
      let (_, _, h2) = >>=-eq-ok (check_each_version 1 plans) _ h1 in
      let same =
        reject_if-ok (not (eqb document.plan_version (length plans + 1)))
          "plan_version must equal prior maximum plus one" h2 in
      (eqb_iff document.plan_version (length plans + 1)).0
        (true_of_not (eqb document.plan_version (length plans + 1)) same)

  -- A plan that `validate_plan` accepts has the next version number and keeps the task limit; its
  -- task IDs are new; each of its tasks has a proper ID, depends only on other known tasks and may be
  -- attempted at least once and at most as often as the configuration allows; the tasks of all plans
  -- get from `topological_order` an order that holds the ID of each of them as often as the tasks
  -- do and no other ID, and each acceptance criterion is covered by one of them.
  pub validate_plan-Accepted :
      validate_plan registered document config prior_plans ≡ ok tt → Accepted
  unfolding validate_plan validate_sorted criterion_ids
  validate_plan-Accepted h =
      let plans = sort_plans prior_plans in
      let (_, versions, h1) = >>=-eq-ok (validate_versions document plans) _ h in
      let (_, _, h2) = >>=-eq-ok (validate_acceptance document plans) _ h1 in
      let (limit, h3) =
        past_reject_if (ltb config.max_plan_tasks (length (tasks_of plans) + length document.tasks))
          "global Planner task limit exceeded" _ h2 in
      let (_, h4) =
        past_reject_if (has_duplicates (ids (tasks_of plans)))
          "prior Plan task IDs are not globally unique" _ h3 in
      let (_, h5) =
        past_reject_if (has_duplicates (ids document.tasks)) "task IDs must be unique" _ h4 in
      let (fresh, h6) =
        past_reject_if (any (λ id. contains id (ids (tasks_of plans))) (ids document.tasks))
          "repair Plan cannot rewrite a completed or prior task" _ h5 in
      let check =
        validate_task registered config (criterion_ids document.acceptance_criteria)
          (ids all_tasks) in
      let (_, checked, h7) = >>=-eq-ok (each check document.tasks) _ h6 in
      let (order, ordered, h8) = >>=-eq-ok (topological_order all_tasks) _ h7 in
      let (missing, _) =
        past_reject_if
          (not (subset (criterion_ids document.acceptance_criteria) (covered_by all_tasks)))
          "acceptance criteria are not fully covered" _ h8 in
      record {
        next_version =
            omega (arith, validate_versions-next plans versions, length-sort_plans prior_plans);
        within_limit =
            le_of_ltb-false config.max_plan_tasks (length (tasks_of plans) + length document.tasks)
              limit;
        new_ids = λ id new old.
            let absent =
              any-false_of_In (λ x. contains x (ids (tasks_of plans))) (ids document.tasks) id fresh
                new in
            let there = contains_of_In id (ids (tasks_of plans)) old in cc;
        sound = λ task m.
            validate_task-Sound registered config (criterion_ids document.acceptance_criteria)
              (ids all_tasks) task (each-In check document.tasks task checked m);
        order = order;
        acyclic = ordered;
        every_task = topological_order-count all_tasks order ordered;
        covered = λ criterion m. covered_In all_tasks criterion.id (
            In-contains criterion.id (covered_by all_tasks) (
              all-In (λ x. contains x (covered_by all_tasks))
                (criterion_ids document.acceptance_criteria) criterion.id
                (true_of_not
                  (subset (criterion_ids document.acceptance_criteria) (covered_by all_tasks))
                  missing)
                (map-In (λ c. c.id) document.acceptance_criteria criterion m)));
      }
