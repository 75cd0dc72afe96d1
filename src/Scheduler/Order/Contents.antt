-- ===== src/Scheduler/Order/Contents.antt =====
-- Which IDs are in an order that `Scheduler._topological_order` of src/vibe/scheduler.py gives: an ID that is in
-- the heap or in the order waits for no dependency, and so does not enter the heap again.
use vibe_coding_harness.Prelude.{
  ℕ, zero, suc, ◌+◌, ◌≤◌, String, Bool, true, false, not, ◌≡◌, refl, sym, ap, ◌∙◌, some, List, [],
  ◌∷◌, ◌++◌, ok, length, eqb, eqb_iff, true_of_not, reject_if, reject_if-ok, expect, expect-some,
  next, ok-injective, ◌==◌, eq_iff, eq_refl, if◌then◌else◌, arith, Bool-cases, inl, inr,
  has_duplicates, out_of_rounds,
}
use vibe_coding_harness.Prelude.Dict.{lookup, insert}
use vibe_coding_harness.Json.{ℤ, pos, negsuc}
use vibe_coding_harness.Models.Contracts.{TaskContract}
use vibe_coding_harness.Scheduler.Order.{
  ids, heap_pop, sorted, prev, or_zero, or_nil, build_graph, is_zero, zero_ids, release, drain,
  order_tasks, topological_order,
}
use vibe_coding_harness.Scheduler.Order.Fuel.{
  is_positive, one_if, prev-drop, names, names-indegree, length-ids,
}

abbrev pub count : String → List String → ℕ
count x [] = 0
count x (y ∷ ys) = one_if (y == x) + count x ys

count-append : (x : String) (xs ys : List String) → count x (xs ++ ys) ≡ count x xs + count x ys
count-append x [] ys = omega arith
count-append x (y ∷ xs) ys = omega (arith, count-append x xs ys)

count-length : (x : String) (xs : List String) → count x xs ≤ length xs
count-length x [] = omega arith
count-length x (y ∷ xs) = ground (arith, count-length x xs)

-- Whether a task still waits, as 1 or 0.
waits : String → List (String × ℤ) → ℕ
unfolding lookup or_zero
waits x d = one_if (is_positive (or_zero (lookup x d)))

waits-insert :
    (x k : String) (z : ℤ) (d : List (String × ℤ))
    → waits x (insert k z d) ≡ (if k == x then one_if (is_positive z) else waits x d)
unfolding waits insert lookup or_zero
waits-insert x k z [] = ground arith
waits-insert x k z ((j, n) ∷ d) =
    ground (arith, eq_iff j k, eq_iff j x, eq_iff k x, waits-insert x k z d)

heap_pop-count :
    (y x : String) (heap : List String)
    → count y (heap_pop x heap).1 + one_if ((heap_pop x heap).0 == y)
      ≡ count y heap + one_if (x == y)
unfolding heap_pop
heap_pop-count y x [] = refl
heap_pop-count y x (z ∷ heap) = ground (arith, heap_pop-count y z heap)

count-push :
    (x f : String) (b : Bool) (ready : List String)
    → count x (if b then f ∷ ready else ready) ≡ (if f == x then one_if b else 0) + count x ready
count-push x f true ready = ground arith
count-push x f false ready = ground arith

step_of_own :
    (f : String) (d : List (String × ℤ)) (ready : List String)
    → count f (if is_zero (prev (or_zero (lookup f d))) then f ∷ ready else ready)
        + waits f (insert f (prev (or_zero (lookup f d))) d)
      ≤ count f ready + waits f d
unfolding waits
step_of_own f d ready =
    let z = prev (or_zero (lookup f d)) in
    let pushed = rw (eq_refl f) at (count-push f f (is_zero z) ready) in
    let kept = rw (eq_refl f) at (waits-insert f f z d) in
    omega (arith, pushed, kept, prev-drop (or_zero (lookup f d)))

-- One follower's step, for any ID: what it adds to the heap it takes from those that wait.
step-count :
    (x f : String) (d : List (String × ℤ)) (ready : List String)
    → count x (if is_zero (prev (or_zero (lookup f d))) then f ∷ ready else ready)
        + waits x (insert f (prev (or_zero (lookup f d))) d)
      ≤ count x ready + waits x d
step-count x f d ready = elim (Bool-cases (f == x)) [
  | inl same ↦ rw (← (eq_iff f x).0 same) (step_of_own f d ready)
  | inr other ↦
      let z = prev (or_zero (lookup f d)) in
      let pushed = rw other at (count-push x f (is_zero z) ready) in
      let kept = rw other at (waits-insert x f z d) in omega (arith, pushed, kept)
]

release-count :
    (x : String) (fs : List String) (d : List (String × ℤ)) (ready : List String)
    → count x (release fs d ready).1 + waits x (release fs d ready).0 ≤ count x ready + waits x d
unfolding release
release-count x [] d ready = omega arith
release-count x (f ∷ fs) d ready =
    let n = prev (or_zero (lookup f d)) in
    omega (
      arith,
      release-count x fs (insert f n d) (if is_zero n then f ∷ ready else ready),
      step-count x f d ready,
    )

drain-count :
    (x : String) (rounds : ℕ) (followers : List (String × List String)) (d : List (String × ℤ))
    (heap ordered order : List String)
    → drain rounds followers d heap ordered ≡ some order
    → count x order ≤ count x heap + count x ordered + waits x d
unfolding drain
drain-count x rounds followers d [] ordered order h = omega (arith, ap (λ o. count x (or_nil o)) h)
drain-count x zero followers d (y ∷ heap) ordered order h = cc
drain-count x (suc rounds) followers d (y ∷ heap) ordered order h =
    let (task_id, others) = heap_pop y heap in
    let fs = sorted (or_nil (lookup task_id followers)) in
    omega (
      arith,
      drain-count x rounds followers (release fs d others).0 (release fs d others).1
          (ordered ++ task_id ∷ []) order h,
      release-count x fs d others,
      heap_pop-count x y heap,
      count-append x ordered (task_id ∷ []),
    )

zero_ids-count :
    (x : String) (d : List (String × ℤ)) → count x (zero_ids d) + waits x d ≤ count x (names d)
unfolding zero_ids waits lookup or_zero
zero_ids-count x [] = omega arith
zero_ids-count x ((k, pos zero) ∷ d) = ground (arith, zero_ids-count x d)
zero_ids-count x ((k, pos (suc n)) ∷ d) = ground (arith, zero_ids-count x d)
zero_ids-count x ((k, negsuc n) ∷ d) = ground (arith, zero_ids-count x d)

order_tasks-count :
    (x : String) (tasks : List TaskContract) (order : List String)
    → order_tasks tasks ≡ some order
    → count x order ≤ count x (ids tasks)
unfolding order_tasks
order_tasks-count x tasks order h =
    let d = (build_graph tasks).indegree in
    omega (
      arith,
      drain-count x (length tasks) (build_graph tasks).followers d (zero_ids d) [] order h,
      zero_ids-count x d,
      ap (count x) (names-indegree tasks),
    )

-- A list without the first place of an ID.
without : String → List String → List String
without x [] = []
without x (y ∷ ys) = let rest = without x ys in if y == x then ys else y ∷ rest

count-without :
    (z x : String) (xs : List String)
    → 1 ≤ count x xs
    → count z (without x xs) + one_if (x == z) ≡ count z xs
unfolding without
count-without z x [] h = absurd (omega arith)
count-without z x (y ∷ ys) h = elim (Bool-cases (y == x)) [
  | inl same ↦ rw ((eq_iff y x).0 same, eq_refl) (omega arith)
  | inr other ↦
      let later : 1 ≤ count x ys = let h' = rw other at h in omega arith in
      rw other (omega (arith, count-without z x ys later))
]

length-without :
    (x : String) (xs : List String) → 1 ≤ count x xs → suc (length (without x xs)) ≡ length xs
unfolding without
length-without x [] h = absurd (omega arith)
length-without x (y ∷ ys) h = elim (Bool-cases (y == x)) [
  | inl same ↦ rw same refl
  | inr other ↦
      let later : 1 ≤ count x ys = let h' = rw other at h in omega arith in
      rw other (ap suc (length-without x ys later))
]

-- A list that has nothing more often than another, and is as long, has everything as often.
count-length-le :
    (x : String) (xs ys : List String)
    → ((z : String) → count z xs ≤ count z ys)
    → length xs + count x ys ≤ length ys + count x xs
count-length-le x [] ys h = omega (arith, count-length x ys)
count-length-le x (y ∷ xs) ys h =
    let there : 1 ≤ count y ys = let own = rw (eq_refl y) at (h y) in omega arith in
    omega (
      arith,
      count-length-le x xs (without y ys) (λ z. omega (arith, h z, count-without z y ys there)),
      count-without x y ys there,
      length-without y ys there,
    )

-- An order that `topological_order` gives holds the ID of every task exactly as often as the tasks do, and no other ID.
pub topological_order-count :
    (tasks : List TaskContract) (order : List String)
    → topological_order tasks ≡ ok order
    → (id : String) → count id order ≡ count id (ids tasks)
unfolding topological_order
topological_order-count tasks order h id =
    next (reject_if (has_duplicates (ids tasks)) "task IDs must be unique") _ h (λ _ _ h1.
      next (expect (order_tasks tasks) out_of_rounds) _ h1 (λ ordered some_order h2.
        next
          (reject_if (not (eqb (length ordered) (length tasks)))
            "Planner task graph contains a cycle")
          _ h2
          (λ _ whole h3.
            let found = expect-some (order_tasks tasks) out_of_rounds ordered some_order in
            let same : ordered ≡ order = ok-injective h3 in
            let long = (eqb_iff (length ordered) (length tasks)).0 (
              true_of_not (eqb (length ordered) (length tasks))
                (reject_if-ok _ "Planner task graph contains a cycle" whole)) in
            ap (count id) (sym same)
            ∙ omega (
              arith,
              order_tasks-count id tasks ordered found,
              count-length-le id ordered (ids tasks) (λ z. order_tasks-count z tasks ordered found),
              length-ids tasks,
              long,
            ))))
