-- ===== src/Scheduler/Dispatch/Promotion.antt =====
-- Which tasks `promote_ready` of src/vibe/scheduler.py makes READY.
use vibe_coding_harness.Prelude.{
  String, Bool, true, false, ◌≡◌, refl, sym, ap, subst, ◌∙◌, ◌⊎◌, inl, inr, Option, none, some,
  List, [], ◌∷◌, ◌++◌, ok, >>=-eq-ok, ok-injective, expect, expect-some, key_error, contract, all,
  In, Bool-cases, and-true_parts, arith, ◌==◌, eq_iff, eq_refl, if◌then◌else◌,
}
use vibe_coding_harness.Json.{
  Json, Fields, null, str, dict, get, get_or, get_value, put, as_dict, is_word,
}
use vibe_coding_harness.Json.Laws.{get-put}
use vibe_coding_harness.Models.Contracts.{TaskContract, PlanDocument}
use vibe_coding_harness.Scheduler.Attempts.{status_in}
use vibe_coding_harness.Scheduler.Order.{topological_order}
use vibe_coding_harness.Scheduler.Dispatch.{
  value_has_status, task_has_status, first_contract, set_status, is_promotable, promote_each,
  promote_ready,
}

word_eq : (w : String) (v : Json) → is_word w v ≡ true → v ≡ str w
word_eq w (str s) h = ap str ((eq_iff s w).0 h)
word_eq w _ h = cc

-- A value with one status answers every test by it.
status_known :
    (w : String) (words : List String) (v : Json)
    → value_has_status (w ∷ []) v ≡ true
    → value_has_status words v ≡ status_in words (str w)
status_known w words (dict d) h =
    ap (status_in words) (word_eq w (get_value "status" d) (ground arith))
status_known w words _ h = cc

abbrev or_null : Option Json → Json
or_null o = elim o [ none ↦ null | some v ↦ v ]

or_null-if :
    (test : Bool) (v : Json) (o : Option Json)
    → or_null (if test then some v else o) ≡ (if test then v else or_null o)
or_null-if true v o = refl
or_null-if false v o = refl

-- `get_value` after a write.
value-put :
    (j k : String) (v : Json) (d : Fields)
    → get_value j (put k v d) ≡ (if k == j then v else get_value j d)
unfolding get_value get_or
value-put j k v d = ap or_null (get-put j k v d) ∙ or_null-if (k == j) v (get j d)

In-append : (a : String) (xs : List String) (b : String) → In a (xs ++ b ∷ []) → In a xs ⊎ (a ≡ b)
In-append a [] b (inl e) = inr e
In-append a [] b (inr m) = elim m [ ]
In-append a (x ∷ xs) b (inl e) = inl (inl e)
In-append a (x ∷ xs) b (inr m) = elim (In-append a xs b m) [
  | inl before ↦ inl (inr before)
  | inr e ↦ inr e
]

In-left : (a : String) (xs : List String) (b : String) → In a xs → In a (xs ++ b ∷ [])
In-left a [] b m = elim m [ ]
In-left a (x ∷ xs) b (inl e) = inl e
In-left a (x ∷ xs) b (inr m) = inr (In-left a xs b m)

In-last : (xs : List String) (b : String) → In b (xs ++ b ∷ [])
In-last [] b = inl refl
In-last (x ∷ xs) b = inr (In-last xs b)

module _ (plan_tasks : List TaskContract) (before : Fields) where
  -- A task that is named: it waited, and all that it depends on was completed.
  pub record Promoted (after : Fields) (task_id : String) : Type 0 where
    pub was_pending : task_has_status ("PENDING" ∷ []) before task_id ≡ true
    pub is_ready : task_has_status ("READY" ∷ []) after task_id ≡ true
    pub task : TaskContract
    pub contract_read : first_contract plan_tasks task_id ≡ some task
    pub dependencies : all (task_has_status ("COMPLETED" ∷ []) before) task.depends_on ≡ true

  -- A task is either named and promoted, or not named and left as it was.
  abbrev pub Fate : Fields → List String → String → Type 0
  Fate after promoted task_id =
      (In task_id promoted × Promoted after task_id)
      ⊎ ((¬ In task_id promoted) × (get_value task_id after ≡ get_value task_id before))

  -- A task that shows another status than READY is one that was left as it was.
  unpromoted :
      (w : String) (tasks : Fields) (promoted : List String) (task_id : String)
      → status_in ("READY" ∷ []) (str w) ≡ false
      → Fate tasks promoted task_id
      → task_has_status (w ∷ []) tasks task_id ≡ true
      → (¬ In task_id promoted) × (task_has_status (w ∷ []) before task_id ≡ true)
  unfolding task_has_status
  unpromoted w tasks promoted task_id other (inl (named, p)) h =
      let e = status_known w ("READY" ∷ []) (get_value task_id tasks) h in let r = p.is_ready in cc
  unpromoted w tasks promoted task_id other (inr (unnamed, same)) h =
      (unnamed, subst (λ v. value_has_status (w ∷ []) v ≡ true) same h)

  completed_before :
      (tasks : Fields) (promoted : List String)
      → ((j : String) → Fate tasks promoted j)
      → (ids : List String) → all (task_has_status ("COMPLETED" ∷ []) tasks) ids ≡ true
      → all (task_has_status ("COMPLETED" ∷ []) before) ids ≡ true
  completed_before tasks promoted fates [] h = refl
  completed_before tasks promoted fates (j ∷ ids) h =
      let (here, later) = and-true_parts (task_has_status ("COMPLETED" ∷ []) tasks j) _ h in
      let now = (unpromoted "COMPLETED" tasks promoted j refl (fates j) here).1 in
      rw now (completed_before tasks promoted fates ids later)

  -- What one promotion writes.
  value-set_status :
      (tasks : Fields) (task_id j : String) (current : Fields)
      → as_dict (get_value task_id tasks) ≡ some current
      → get_value j (set_status "READY" task_id tasks)
        ≡ (if task_id == j then dict (put "status" (str "READY") current) else get_value j tasks)
  unfolding set_status
  value-set_status tasks task_id j current h =
      rw (h, set_status) (value-put j task_id (dict (put "status" (str "READY") current)) tasks)

  ready_after :
      (current : Fields)
      → value_has_status ("READY" ∷ []) (dict (put "status" (str "READY") current)) ≡ true
  ready_after current = rw (value-put "status" "status" (str "READY") current) refl

  is_dict_of_status :
      (w : String) (v : Json)
      → value_has_status (w ∷ []) v ≡ true
      → (d : Fields) × (as_dict v ≡ some d)
  is_dict_of_status w (dict d) h = (d, refl)
  is_dict_of_status w _ h = cc

  module _ (tasks : Fields) (promoted : List String) (fates : (j : String) → Fate tasks promoted j)
      (task_id : String) (task : TaskContract)
      (contract_read : first_contract plan_tasks task_id ≡ some task)
      (pending : task_has_status ("PENDING" ∷ []) tasks task_id ≡ true)
      (completed : all (task_has_status ("COMPLETED" ∷ []) tasks) task.depends_on ≡ true) where
    promoted-Fate : Fate (set_status "READY" task_id tasks) (promoted ++ task_id ∷ []) task_id
    unfolding task_has_status
    promoted-Fate =
        let (current, read) = is_dict_of_status "PENDING" (get_value task_id tasks) pending in
        let written = value-set_status tasks task_id task_id current read in
        let written' : get_value task_id (set_status "READY" task_id tasks)
            ≡ dict (put "status" (str "READY") current) =
          rw (eq_refl task_id) at written in
        inl (
          In-last promoted task_id,
          record {
            was_pending =
                (unpromoted "PENDING" tasks promoted task_id refl (fates task_id) pending).1;
            is_ready =
                subst (λ v. value_has_status ("READY" ∷ []) v ≡ true) (sym written')
                  (ready_after current);
            task = task;
            contract_read = contract_read;
            dependencies = completed_before tasks promoted fates task.depends_on completed;
          },
        )

    other-Fate :
        (j : String)
        → (task_id == j) ≡ false
        → Fate (set_status "READY" task_id tasks) (promoted ++ task_id ∷ []) j
    unfolding task_has_status
    other-Fate j apart =
        let (current, read) = is_dict_of_status "PENDING" (get_value task_id tasks) pending in
        let written = value-set_status tasks task_id j current read in
        let same : get_value j (set_status "READY" task_id tasks) ≡ get_value j tasks =
          rw apart at written in
        elim (fates j) [
          | inl (named, p) ↦ inl (
            In-left j promoted task_id named,
            record {
              was_pending = p.was_pending;
              is_ready =
                  subst (λ v. value_has_status ("READY" ∷ []) v ≡ true) (sym same) p.is_ready;
              task = p.task;
              contract_read = p.contract_read;
              dependencies = p.dependencies;
            },
          )
          | inr (unnamed, kept) ↦ inr (
            (λ m. elim (In-append j promoted task_id m) [
              | inl m' ↦ unnamed m'
              | inr e ↦ let t = eq_refl j in cc
            ]),
            same ∙ kept,
          )
        ]

    next-Fate : (j : String) → Fate (set_status "READY" task_id tasks) (promoted ++ task_id ∷ []) j
    next-Fate j = elim (Bool-cases (task_id == j)) [
      | inl same ↦
          subst (Fate (set_status "READY" task_id tasks) (promoted ++ task_id ∷ []))
            ((eq_iff task_id j).0 same) promoted-Fate
      | inr apart ↦ other-Fate j apart
    ]

  promotable_parts :
      (tasks : Fields) (task_id : String)
      → is_promotable plan_tasks tasks task_id ≡ ok true
      → (task : TaskContract) × (first_contract plan_tasks task_id ≡ some task)
        × (task_has_status ("PENDING" ∷ []) tasks task_id ≡ true)
        × (all (task_has_status ("COMPLETED" ∷ []) tasks) task.depends_on ≡ true)
  unfolding is_promotable
  promotable_parts tasks task_id h =
      let (task, read, h1) = >>=-eq-ok (expect (first_contract plan_tasks task_id) key_error) _ h in
      let (pending, completed) =
        and-true_parts (task_has_status ("PENDING" ∷ []) tasks task_id)
          (all (task_has_status ("COMPLETED" ∷ []) tasks) task.depends_on) (ok-injective h1) in
      (
        task,
        expect-some (first_contract plan_tasks task_id) key_error task read,
        pending,
        completed,
      )

  promote_each-Fate :
      (order : List String) (tasks : Fields) (promoted : List String)
      → ((j : String) → Fate tasks promoted j)
      → (after : Fields) (named : List String)
      → promote_each plan_tasks order tasks promoted ≡ ok (after, named)
      → (j : String) → Fate after named j
  unfolding promote_each
  promote_each-Fate [] tasks promoted fates after named h j =
      let e = ok-injective h in subst (λ (x : Fields × List String). Fate (x.0) (x.1) j) e (fates j)
  promote_each-Fate (task_id ∷ order) tasks promoted fates after named h j =
      let (promotable, tested, h1) = >>=-eq-ok (is_promotable plan_tasks tasks task_id) _ h in
      elim (Bool-cases promotable) [
        | inl fits ↦
            let (task, read, pending, completed) =
              promotable_parts tasks task_id (rw fits at tested) in
            promote_each-Fate order (set_status "READY" task_id tasks) (promoted ++ task_id ∷ [])
              (next-Fate tasks promoted fates task_id task read pending completed) after named
              (rw fits at h1) j
        | inr waits ↦ promote_each-Fate order tasks promoted fates after named (rw waits at h1) j
      ]

-- The tasks before and after, and what became of each.
pub record Promotion (state : Fields) (plan : PlanDocument) (state' : Fields) (named : List String)
    : Type 0 where
  pub before : Fields
  pub after : Fields
  pub tasks_read : as_dict (get_value "tasks" state) ≡ some before
  pub state_written : state' ≡ put "tasks" (dict after) state
  pub fates : (task_id : String) → Fate plan.tasks before after named task_id

-- A task that `promote_ready` names was PENDING, all that it depends on was COMPLETED, and it is
-- READY afterwards; every other task is left as it was, and so is the rest of the state.
pub promote_ready-Promotion :
    (state : Fields) (plan : PlanDocument) (state' : Fields) (named : List String)
    → promote_ready state plan ≡ ok (state', named)
    → Promotion state plan state' named
unfolding promote_ready
promote_ready-Promotion state plan state' named h =
    let (before, read, h1) =
      >>=-eq-ok (expect (as_dict (get_value "tasks" state)) (contract "run task state is invalid"))
        _ h in
    let (order, _, h2) = >>=-eq-ok (topological_order plan.tasks) _ h1 in
    let (promotion, each_done, h3) = >>=-eq-ok (promote_each plan.tasks order before []) _ h2 in
    let e = ok-injective h3 in
    let same : promotion.1 ≡ named = ap (λ (x : Fields × List String). x.1) e in
    record {
      before = before;
      after = promotion.0;
      tasks_read = expect-some (as_dict (get_value "tasks" state)) _ before read;
      state_written = sym (ap (λ (x : Fields × List String). x.0) e);
      fates = λ task_id.
          subst (λ n. Fate plan.tasks before (promotion.0) n task_id) same
            (promote_each-Fate plan.tasks before order before []
              (λ j. inr ((λ m. elim m [ ]), refl)) (promotion.0) (promotion.1) each_done task_id);
    }
