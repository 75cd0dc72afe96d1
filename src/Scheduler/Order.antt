-- ===== src/Scheduler/Order.antt =====
-- `Scheduler._topological_order` of src/vibe/scheduler.py: Kahn's algorithm with a heap of task IDs.
pub mod Fuel
pub mod Contents
use Prim.Native.Nat.{Ordering}
use Prim.Native.String.{compare}
use vibe_coding_harness.Prelude.{
  ℕ, zero, suc, ◌+◌, String, Bool, true, false, not, Option, none, some, List, [], ◌∷◌, ◌++◌, map,
  Result, ok, err, ◌>>=◌, ◌>>◌, expect, reject_if, contract, length, contains, has_duplicates, eqb,
  ◌==◌, if◌then◌else◌, out_of_rounds,
}
use vibe_coding_harness.Prelude.Dict.{lookup, insert}
use vibe_coding_harness.Json.{ℤ, pos, negsuc}
use vibe_coding_harness.Models.Contracts.{TaskContract, PlanDocument}

abbrev pub ids : List TaskContract → List String
ids tasks = map (λ task. task.id) tasks

-- Strings are ordered by their code points.
text_le : String → String → Bool
text_le a b = elim (compare a b) [ Ordering.gt ↦ false | _ ↦ true ]

-- heapq.heappop on the items of the heap: the least one, and the others.
unfoldable pub heap_pop : String → List String → String × List String
unfolding text_le
heap_pop x [] = (x, [])
heap_pop x (y ∷ heap) =
    let (least, others) = heap_pop y heap in
    if text_le x least then (x, y ∷ heap) else (least, x ∷ others)

insert_sorted : String → List String → List String
unfolding text_le
insert_sorted x [] = x ∷ []
insert_sorted x (y ∷ ys) = if text_le x y then x ∷ y ∷ ys else y ∷ insert_sorted x ys

-- `sorted(xs)`
unfoldable pub sorted : List String → List String
unfolding insert_sorted
sorted [] = []
sorted (x ∷ xs) = insert_sorted x (sorted xs)

pub record Graph : Type 0 where
  pub indegree : List (String × ℤ)
  pub followers : List (String × List String)

abbrev succ : ℤ → ℤ
succ (pos n) = pos (suc n)
succ (negsuc zero) = pos 0
succ (negsuc (suc n)) = negsuc n

abbrev pub prev : ℤ → ℤ
prev (pos zero) = negsuc 0
prev (pos (suc n)) = pos n
prev (negsuc n) = negsuc (suc n)

or_zero : Option ℤ → ℤ
or_zero none = pos 0
or_zero (some z) = z

or_nil : Option (List String) → List String
or_nil none = []
or_nil (some xs) = xs

-- One dependency of one task. Both keys are in the dicts, which start with every ID.
add_edge : List String → String → Graph → String → Graph
unfolding lookup insert or_zero or_nil
add_edge known task_id g dependency =
    if contains dependency known
    then record {
      indegree = insert task_id (succ (or_zero (lookup task_id g.indegree))) g.indegree;
      followers =
          insert dependency (or_nil (lookup dependency g.followers) ++ task_id ∷ []) g.followers;
    }
    else g

add_edges : List String → String → Graph → List String → Graph
unfolding add_edge
add_edges known task_id g [] = g
add_edges known task_id g (d ∷ dependencies) =
    add_edges known task_id (add_edge known task_id g d) dependencies

add_tasks : List String → Graph → List TaskContract → Graph
unfolding add_edges
add_tasks known g [] = g
add_tasks known g (task ∷ tasks) = add_tasks known (add_edges known task.id g task.depends_on) tasks

unfoldable pub build_graph : List TaskContract → Graph
unfolding add_tasks
build_graph tasks =
    add_tasks (ids tasks)
      (record {
        indegree = map (λ id. (id, pos 0)) (ids tasks);
        followers = map (λ id. (id, [])) (ids tasks);
      })
      tasks

abbrev is_zero : ℤ → Bool
is_zero (pos zero) = true
is_zero _ = false

-- `[task_id for task_id, count in indegree.items() if count == 0]`
unfoldable pub zero_ids : List (String × ℤ) → List String
zero_ids [] = []
zero_ids ((id, n) ∷ rest) = if is_zero n then id ∷ zero_ids rest else zero_ids rest

-- The inner loop: one follower after the other, each with one open dependency less.
unfoldable pub release :
    List String → List (String × ℤ) → List String → List (String × ℤ) × List String
unfolding lookup insert or_zero
release [] indegree ready = (indegree, ready)
release (follower ∷ followers) indegree ready =
    let n = prev (or_zero (lookup follower indegree)) in
    release followers (insert follower n indegree) (if is_zero n then follower ∷ ready else ready)

-- The outer loop, by rounds: `none` if the rounds run out before the heap is empty.
unfoldable pub drain :
    ℕ
    → List (String × List String)
    → List (String × ℤ)
    → List String
    → List String
    → Option (List String)
unfolding heap_pop release sorted or_nil lookup
drain rounds followers indegree [] ordered = some ordered
drain zero followers indegree (x ∷ heap) ordered = none
drain (suc rounds) followers indegree (x ∷ heap) ordered =
    let (task_id, others) = heap_pop x heap in
    let (indegree', ready) = release (sorted (or_nil (lookup task_id followers))) indegree others in
    drain rounds followers indegree' ready (ordered ++ task_id ∷ [])

unfoldable pub order_tasks : List TaskContract → Option (List String)
unfolding build_graph zero_ids drain
order_tasks tasks =
    let g = build_graph tasks in
    drain (length tasks) g.followers g.indegree (zero_ids g.indegree) []

unfoldable pub topological_order : List TaskContract → Result (List String)
unfolding order_tasks has_duplicates
topological_order tasks = do
  reject_if (has_duplicates (ids tasks)) "task IDs must be unique"
  ordered ← expect (order_tasks tasks) out_of_rounds
  reject_if (not (eqb (length ordered) (length tasks))) "Planner task graph contains a cycle"
  ok ordered
