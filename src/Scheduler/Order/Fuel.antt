-- ===== src/Scheduler/Order/Fuel.antt =====
-- The rounds that `topological_order` gives its loop are enough: each round takes one ID from the
-- heap, and an ID enters the heap only when its count of open dependencies falls from one to zero.
use vibe_coding_harness.Prelude.{
  ℕ, zero, suc, ◌+◌, ◌≤◌, String, Bool, true, false, ◌||◌, ◌≡◌, refl, sym, ◌≢◌, ◌∙◌, ap, none, List,
  [], ◌∷◌, ◌++◌, map, err, length, contains, ◌==◌, eq_iff, eq_refl, All, if◌then◌else◌,
  out_of_rounds, arith, Bool-cases, inl, inr,
}
use vibe_coding_harness.Prelude.Dict.{lookup, insert}
use vibe_coding_harness.Json.{ℤ, pos, negsuc}
use vibe_coding_harness.Models.Contracts.{TaskContract}
use vibe_coding_harness.Scheduler.Order.{
  ids, heap_pop, sorted, Graph, prev, or_zero, or_nil, add_edge, add_edges, add_tasks, build_graph,
  is_zero, zero_ids, release, drain, order_tasks, topological_order,
}

abbrev pub is_positive : ℤ → Bool
is_positive (pos (suc n)) = true
is_positive _ = false

abbrev pub one_if : Bool → ℕ
one_if true = 1
one_if false = 0

-- How many tasks still wait for a dependency.
waiting : List (String × ℤ) → ℕ
waiting [] = 0
waiting ((id, n) ∷ d) = one_if (is_positive n) + waiting d

pub prev-drop :
    (n : ℤ) → one_if (is_positive (prev n)) + one_if (is_zero (prev n)) ≤ one_if (is_positive n)
prev-drop (pos zero) = omega arith
prev-drop (pos (suc zero)) = omega arith
prev-drop (pos (suc (suc n))) = omega arith
prev-drop (negsuc n) = omega arith

waiting-insert :
    (k : String) (z : ℤ) (d : List (String × ℤ))
    → waiting (insert k z d) + one_if (is_positive (or_zero (lookup k d)))
      ≤ waiting d + one_if (is_positive z)
unfolding waiting insert lookup or_zero
waiting-insert k z [] = omega arith
waiting-insert k z ((j, n) ∷ d) = ground (arith, waiting-insert k z d)

length-push :
    (b : Bool) (f : String) (ready : List String)
    → length (if b then f ∷ ready else ready) ≡ length ready + one_if b
length-push true f ready = omega arith
length-push false f ready = omega arith

-- A task stops waiting exactly if it enters the heap.
release-waiting :
    (fs : List String) (d : List (String × ℤ)) (ready : List String)
    → length (release fs d ready).1 + waiting (release fs d ready).0 ≤ length ready + waiting d
unfolding release
release-waiting [] d ready = omega arith
release-waiting (f ∷ fs) d ready =
    let n = prev (or_zero (lookup f d)) in
    omega (
      arith,
      release-waiting fs (insert f n d) (if is_zero n then f ∷ ready else ready),
      length-push (is_zero n) f ready,
      waiting-insert f n d,
      prev-drop (or_zero (lookup f d)),
    )

heap_pop-length : (x : String) (heap : List String) → length (heap_pop x heap).1 ≡ length heap
unfolding heap_pop
heap_pop-length x [] = refl
heap_pop-length x (y ∷ heap) = ground (arith, heap_pop-length y heap)

drain-some :
    (rounds : ℕ) (followers : List (String × List String)) (d : List (String × ℤ))
    (heap ordered : List String)
    → length heap + waiting d ≤ rounds
    → drain rounds followers d heap ordered ≢ none
unfolding drain
drain-some rounds followers d [] ordered h = λ e. cc
drain-some zero followers d (x ∷ heap) ordered h = absurd (omega arith)
drain-some (suc rounds) followers d (x ∷ heap) ordered h =
    let (task_id, others) = heap_pop x heap in
    let fs = sorted (or_nil (lookup task_id followers)) in
    drain-some rounds followers (release fs d others).0 (release fs d others).1
      (ordered ++ task_id ∷ []) (omega (arith, release-waiting fs d others, heap_pop-length x heap))

zero-add-waiting : (d : List (String × ℤ)) → length (zero_ids d) + waiting d ≤ length d
unfolding zero_ids waiting
zero-add-waiting [] = omega arith
zero-add-waiting ((id, pos zero) ∷ d) = omega (arith, zero-add-waiting d)
zero-add-waiting ((id, pos (suc n)) ∷ d) = omega (arith, zero-add-waiting d)
zero-add-waiting ((id, negsuc n) ∷ d) = omega (arith, zero-add-waiting d)

abbrev has_key : String → List (String × ℤ) → Bool
has_key k [] = false
has_key k ((j, n) ∷ d) = j == k || has_key k d

-- The IDs that have an entry, in their order.
abbrev pub names : List (String × ℤ) → List String
names [] = []
names ((k, n) ∷ d) = k ∷ names d

names-insert :
    (k : String) (z : ℤ) (d : List (String × ℤ))
    → has_key k d ≡ true
    → names (insert k z d) ≡ names d
unfolding insert
names-insert k z [] h = cc
names-insert k z ((j, n) ∷ d) h = elim (Bool-cases (j == k)) [
  | inl same ↦ rw same refl
  | inr other ↦ rw other (ap (λ ks. j ∷ ks) (names-insert k z d (rw other at h)))
]

length-names : (d : List (String × ℤ)) → length (names d) ≡ length d
length-names [] = refl
length-names ((k, n) ∷ d) = ap suc (length-names d)

has_key-insert :
    (i k : String) (z : ℤ) (d : List (String × ℤ))
    → has_key i d ≡ true
    → has_key i (insert k z d) ≡ true
unfolding insert
has_key-insert i k z [] h = cc
has_key-insert i k z ((j, n) ∷ d) h = ground (arith, has_key-insert i k z d)

-- Every known ID has an entry.
abbrev Covers : List String → List (String × ℤ) → Type 0
Covers known d = All (λ k. has_key k d ≡ true) known

Covers-insert :
    (known : List String) (k : String) (z : ℤ) (d : List (String × ℤ))
    → Covers known d
    → Covers known (insert k z d)
Covers-insert [] k z d c = tt
Covers-insert (i ∷ known) k z d c = (has_key-insert i k z d c.0, Covers-insert known k z d c.1)

Covers-contains :
    (known : List String) (k : String) (d : List (String × ℤ))
    → Covers known d
    → contains k known ≡ true
    → has_key k d ≡ true
Covers-contains [] k d c h = cc
Covers-contains (i ∷ known) k d c h = elim (Bool-cases (i == k)) [
  | inl same ↦ rw ((eq_iff i k).0 same) at c.0
  | inr other ↦ Covers-contains known k d c.1 (rw other at h)
]

-- Adding edges keeps the entries as they are, but for their counts.
abbrev Keeps : List String → List (String × ℤ) → List (String × ℤ) → Type 0
Keeps known d d' = Covers known d' × (names d' ≡ names d)

add_edge-Keeps :
    (known : List String) (id : String) (g : Graph) (dependency : String)
    → contains id known ≡ true
    → Covers known g.indegree
    → Keeps known g.indegree (add_edge known id g dependency).indegree
unfolding add_edge
add_edge-Keeps known id g dependency h c = elim (Bool-cases (contains dependency known)) [
  | inl present ↦ rw present (
    Covers-insert known id _ g.indegree c,
    names-insert id _ g.indegree (Covers-contains known id g.indegree c h),
  )
  | inr absent ↦ rw absent (c, refl)
]

add_edges-Keeps :
    (known : List String) (id : String) (g : Graph) (dependencies : List String)
    → contains id known ≡ true
    → Covers known g.indegree
    → Keeps known g.indegree (add_edges known id g dependencies).indegree
unfolding add_edges
add_edges-Keeps known id g [] h c = (c, refl)
add_edges-Keeps known id g (dep ∷ dependencies) h c =
    let (c', same) = add_edge-Keeps known id g dep h c in
    let (c'', same') = add_edges-Keeps known id (add_edge known id g dep) dependencies h c' in
    (c'', same' ∙ same)

add_tasks-Keeps :
    (known : List String) (g : Graph) (tasks : List TaskContract)
    → All (λ task. contains task.id known ≡ true) tasks
    → Covers known g.indegree
    → Keeps known g.indegree (add_tasks known g tasks).indegree
unfolding add_tasks
add_tasks-Keeps known g [] h c = (c, refl)
add_tasks-Keeps known g (task ∷ tasks) h c =
    let (c', same) = add_edges-Keeps known task.id g task.depends_on h.0 c in
    let (c'', same') =
      add_tasks-Keeps known (add_edges known task.id g task.depends_on) tasks h.1 c' in
    (c'', same' ∙ same)

abbrev fresh : List String → List (String × ℤ)
fresh known = map (λ id. (id, pos 0)) known

fresh-weaken :
    (known : List String) (i : String) (z : ℤ) (d : List (String × ℤ))
    → Covers known d
    → Covers known ((i, z) ∷ d)
fresh-weaken [] i z d c = tt
fresh-weaken (k ∷ known) i z d c = (ground arith, fresh-weaken known i z d c.1)

fresh-Covers : (known : List String) → Covers known (fresh known)
fresh-Covers [] = tt
fresh-Covers (i ∷ known) =
    (rw (eq_refl i), fresh-weaken known i (pos 0) (fresh known) (fresh-Covers known))

names-fresh : (known : List String) → names (fresh known) ≡ known
names-fresh [] = refl
names-fresh (k ∷ known) = ap (λ ks. k ∷ ks) (names-fresh known)

pub length-ids : (tasks : List TaskContract) → length (ids tasks) ≡ length tasks
length-ids [] = refl
length-ids (task ∷ tasks) = ap suc (length-ids tasks)

listed_weaken :
    (tasks : List TaskContract) (i : String) (known : List String)
    → All (λ task. contains task.id known ≡ true) tasks
    → All (λ task. contains task.id (i ∷ known) ≡ true) tasks
listed_weaken [] i known h = tt
listed_weaken (task ∷ tasks) i known h = (ground arith, listed_weaken tasks i known h.1)

All-listed : (tasks : List TaskContract) → All (λ task. contains task.id (ids tasks) ≡ true) tasks
All-listed [] = tt
All-listed (task ∷ tasks) =
    (rw (eq_refl task.id), listed_weaken tasks task.id (ids tasks) (All-listed tasks))

pub names-indegree : (tasks : List TaskContract) → names (build_graph tasks).indegree ≡ ids tasks
unfolding build_graph
names-indegree tasks =
    (add_tasks-Keeps (ids tasks) _ tasks (All-listed tasks) (fresh-Covers (ids tasks))).1
    ∙ names-fresh (ids tasks)

length-indegree : (tasks : List TaskContract) → length (build_graph tasks).indegree ≡ length tasks
length-indegree tasks =
    sym (length-names (build_graph tasks).indegree)
    ∙ ap length (names-indegree tasks)
    ∙ length-ids tasks

pub order_tasks-ne-none : (tasks : List TaskContract) → order_tasks tasks ≢ none
unfolding order_tasks
order_tasks-ne-none tasks =
    let d = (build_graph tasks).indegree in
    drain-some (length tasks) (build_graph tasks).followers d (zero_ids d) []
      (omega (arith, zero-add-waiting d, length-indegree tasks))

-- The loop of the topological order always ends within the given rounds, also on cyclic graphs.
pub topological_order-terminates :
    (tasks : List TaskContract) → topological_order tasks ≢ err out_of_rounds
unfolding topological_order
topological_order-terminates tasks e = ground (arith, order_tasks-ne-none tasks)
