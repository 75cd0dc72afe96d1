-- ===== src/Scheduler/Dispatch/Safety.antt =====
-- What `dispatchable` promises: the tasks that it names may run next to those that are active.
use vibe_coding_harness.Prelude.{
  ℕ, ◌+◌, ◌-◌, ◌≤◌, String, true, false, not, ◌≡◌, refl, sym, subst, ap, ◌∙◌, ◌⊎◌, inl, inr, some,
  ok, >>=-eq-ok, ok-injective, expect, expect-some, key_error, List, [], ◌∷◌, ◌++◌, length,
  length-append, leb, any, contains, All, In, any-false_of_In, contains_of_In, map_result,
  Bool-cases, Option-cases, or-false_parts, arith,
}
use mathlib.Core.List.{append_assoc, append-nil}
use vibe_coding_harness.Json.{Fields, get_value, as_dict, is_word}
use vibe_coding_harness.Models.Contracts.{TaskContract, PlanDocument}
use vibe_coding_harness.Scheduler.Scopes.{path_matches_scope, scopes_overlap, resources_overlap}
use vibe_coding_harness.Scheduler.Scopes.Disjoint.{scopes_overlap_sound}
use vibe_coding_harness.Scheduler.Order.{topological_order, ids}
use vibe_coding_harness.Scheduler.Dispatch.{
  task_has_status, contract_of, active_ids, in_conflict, conflicts, select, worker_limit,
  dispatch_tasks, dispatchable,
}

-- Two tasks that cannot touch the same file or hold the same resource.
pub record Disjoint (a b : TaskContract) : Type 0 where
  pub no_common_path :
      (left right path : String)
      → In left a.path_scope
      → In right b.path_scope
      → path_matches_scope path left ≡ true
      → path_matches_scope path right ≡ false
  pub no_common_resource :
      (resource : String) → In resource a.exclusive_resources → ¬ In resource b.exclusive_resources

-- A negative conflict test keeps two tasks apart.
in_conflict-Disjoint : (a b : TaskContract) → in_conflict a b ≡ ok false → Disjoint a b
unfolding in_conflict resources_overlap
in_conflict-Disjoint a b h =
    let (overlap, tested, h') = >>=-eq-ok (scopes_overlap a.path_scope b.path_scope) _ h in
    let (no_overlap, no_resource) =
      or-false_parts overlap (resources_overlap a.exclusive_resources b.exclusive_resources)
        (ok-injective h') in
    record {
      no_common_path = λ left right path in_left in_right.
          scopes_overlap_sound a.path_scope b.path_scope left right path (rw no_overlap at tested)
            in_left in_right;
      no_common_resource = λ resource in_a in_b.
          let absent =
            any-false_of_In (λ r. contains r b.exclusive_resources) a.exclusive_resources resource
              no_resource in_a in
          let there = contains_of_In resource b.exclusive_resources in_b in cc;
    }

conflicts-Disjoint :
    (candidate : TaskContract) (reservations : List TaskContract)
    → conflicts candidate reservations ≡ ok false
    → All (Disjoint candidate) reservations
unfolding conflicts
conflicts-Disjoint candidate [] h = tt
conflicts-Disjoint candidate (reserved ∷ reservations) h =
    let (conflict, tested, h') = >>=-eq-ok (in_conflict candidate reserved) _ h in
    elim (Bool-cases conflict) [
      | inl clash ↦ let e = ok-injective (rw clash at h') in cc
      | inr apart ↦ (
        in_conflict-Disjoint candidate reserved (rw apart at tested),
        conflicts-Disjoint candidate reservations (rw apart at h'),
      )
    ]

module _ (plan_tasks : List TaskContract) (tasks : Fields) where
  -- Each ID names a READY task whose contract is disjoint from all that hold a place before it.
  abbrev pub Admitted : List TaskContract → List String → Type 0
  Admitted reservations [] = Unit
  Admitted reservations (task_id ∷ more) =
      (candidate : TaskContract) × (contract_of plan_tasks task_id ≡ some candidate)
      × (task_has_status ("READY" ∷ []) tasks task_id ≡ true)
      × All (Disjoint candidate) reservations
      × Admitted (reservations ++ candidate ∷ []) more

  -- What the selection loop adds.
  record Selects (available : ℕ) (selected : List String) (reservations : List TaskContract)
      (out : List String) : Type 0 where
    more : List String
    extends : out ≡ selected ++ more
    within : length more ≡ 0 ⊎ length selected + length more ≤ available
    admitted : Admitted reservations more

  stop-Selects :
      (available : ℕ) (selected out : List String) (reservations : List TaskContract)
      → ok selected ≡ ok out
      → Selects available selected reservations out
  stop-Selects available selected out reservations h = record {
    more = [];
    extends = sym (ok-injective h) ∙ sym (append-nil selected);
    within = inl refl;
    admitted = tt;
  }

  take-Selects :
      (available : ℕ) (selected out : List String) (reservations : List TaskContract)
      (task_id : String) (candidate : TaskContract)
      → leb available (length selected) ≡ false
      → contract_of plan_tasks task_id ≡ some candidate
      → task_has_status ("READY" ∷ []) tasks task_id ≡ true
      → All (Disjoint candidate) reservations
      → Selects available (selected ++ task_id ∷ []) (reservations ++ candidate ∷ []) out
      → Selects available selected reservations out
  take-Selects available selected out reservations task_id candidate room named ready apart s =
      record {
        more = task_id ∷ s.more;
        extends = s.extends ∙ append_assoc selected (task_id ∷ []) s.more;
        within = inr (ground (arith, length-append selected (task_id ∷ [])));
        admitted = (candidate, named, ready, apart, s.admitted);
      }

  select-Selects :
      (available : ℕ) (order selected out : List String) (reservations : List TaskContract)
      → select available plan_tasks tasks order selected reservations ≡ ok out
      → Selects available selected reservations out
  unfolding select
  select-Selects available [] selected out reservations h =
      stop-Selects available selected out reservations h
  select-Selects available (task_id ∷ order) selected out reservations h =
      let skipped = select-Selects available order selected out reservations in
      elim (Bool-cases (leb available (length selected))) [
        | inl full ↦ stop-Selects available selected out reservations (rw full at h)
        | inr room ↦ elim (Bool-cases (task_has_status ("READY" ∷ []) tasks task_id)) [
          | inr waits ↦ skipped (rw (room, waits) at h)
          | inl ready ↦
              let h1 = rw (room, ready) at h in
              let (candidate, named, h2) =
                >>=-eq-ok (expect (contract_of plan_tasks task_id) key_error) _ h1 in
              let (conflict, tested, h3) = >>=-eq-ok (conflicts candidate reservations) _ h2 in
              elim (Bool-cases conflict) [
                | inl clash ↦ skipped (rw clash at h3)
                | inr free ↦
                    take-Selects available selected out reservations task_id candidate room
                      (expect-some (contract_of plan_tasks task_id) key_error candidate named) ready
                      (conflicts-Disjoint candidate reservations (rw free at tested))
                      (select-Selects available order (selected ++ task_id ∷ []) out
                        (reservations ++ candidate ∷ []) (rw free at h3))
              ]
        ]
      ]

  Selects-room :
      (maximum active : ℕ) (out : List String) (reservations : List TaskContract)
      → leb maximum active ≡ false
      → Selects (maximum - active) [] reservations out
      → active + length out ≤ maximum
  Selects-room maximum active out reservations room s =
      let same = ap (λ (xs : List String). length xs) s.extends in ground (arith, s.within)

-- What the answer of `dispatchable` says of the tasks that are active and of those it names.
pub record Dispatch (state : Fields) (plan : PlanDocument) (out : List String) : Type 0 where
  pub executing : is_word "EXECUTING" (get_value "status" state) ≡ true
  pub maximum : ℕ
  pub limit : worker_limit (get_value "max_workers" state) ≡ some maximum
  pub tasks : Fields
  pub tasks_read : as_dict (get_value "tasks" state) ≡ some tasks
  pub reservations : List TaskContract
  pub reserved :
      map_result (λ task_id. expect (contract_of plan.tasks task_id) key_error) (active_ids tasks)
      ≡ ok reservations
  pub within_limit : length (active_ids tasks) + length out ≤ maximum
  pub admitted : Admitted plan.tasks tasks reservations out

module _ (state : Fields) (plan : PlanDocument) (out : List String) where
  dispatch_tasks-Dispatch :
      (maximum : ℕ) (tasks : Fields)
      → is_word "EXECUTING" (get_value "status" state) ≡ true
      → worker_limit (get_value "max_workers" state) ≡ some maximum
      → as_dict (get_value "tasks" state) ≡ some tasks
      → dispatch_tasks maximum tasks plan.tasks ≡ ok out
      → (out ≡ []) ⊎ Dispatch state plan out
  unfolding dispatch_tasks
  dispatch_tasks-Dispatch maximum tasks run limit read h =
      elim (Bool-cases
        (any (λ task_id. not (contains task_id (ids plan.tasks))) (active_ids tasks))) [
          | inl unknown ↦ inl (sym (ok-injective (rw unknown at h)))
          | inr known ↦ elim (Bool-cases (leb maximum (length (active_ids tasks)))) [
            | inl full ↦ inl (sym (ok-injective (rw (known, full) at h)))
            | inr room ↦
                let h1 = rw (known, room) at h in
                let (reservations, reserved, h2) =
                  >>=-eq-ok
                    (map_result (λ task_id. expect (contract_of plan.tasks task_id) key_error)
                      (active_ids tasks))
                    _ h1 in
                let (order, _, h3) = >>=-eq-ok (topological_order plan.tasks) _ h2 in
                let s =
                  select-Selects plan.tasks tasks (maximum - length (active_ids tasks)) order [] out
                    reservations h3 in
                inr (record {
                  executing = run;
                  maximum = maximum;
                  limit = limit;
                  tasks = tasks;
                  tasks_read = read;
                  reservations = reservations;
                  reserved = reserved;
                  within_limit =
                      Selects-room plan.tasks tasks maximum (length (active_ids tasks)) out
                        reservations room s;
                  admitted =
                      subst (Admitted plan.tasks tasks reservations) (sym s.extends) s.admitted;
                })
          ]
        ]

  -- Whatever `dispatchable` names can be started: the run is executing, the active tasks and the
  -- named ones together keep the worker limit, and each named task is READY and shares neither a
  -- path nor an exclusive resource with a task that is active or named before it.
  pub dispatchable-safe : dispatchable state plan ≡ ok out → (out ≡ []) ⊎ Dispatch state plan out
  unfolding dispatchable
  dispatchable-safe h = elim (Bool-cases (is_word "EXECUTING" (get_value "status" state))) [
    | inr other ↦ inl (sym (ok-injective (rw other at h)))
    | inl run ↦ elim (Option-cases (worker_limit (get_value "max_workers" state))) [
      | inl no_limit ↦ inl (sym (ok-injective (rw (run, no_limit) at h)))
      | inr (maximum, limit) ↦
          let h1 = rw (run, limit) at h in
          let (tasks, read, h2) = >>=-eq-ok (expect (as_dict (get_value "tasks" state)) _) _ h1 in
          dispatch_tasks-Dispatch maximum tasks run limit
            (expect-some (as_dict (get_value "tasks" state)) _ tasks read) h2
    ]
  ]
