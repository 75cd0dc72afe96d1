-- ===== src/Runners/Ledger/Handover.antt =====
-- Who owns an Attempt before and after a retry of its provider, in `retry_transient` of src/vibe/runners/__init__.py.
use vibe_coding_harness.Prelude.{
  String, Bool, true, false, not, ◌||◌, ◌≡◌, ◌≢◌, refl, ap, ◌∙◌, Option, none, some, Result, ok,
  expect, expect-some, next, ok-injective, conflict, key_error, or-false_parts, true_of_not, eq_iff,
  eq_refl, Bool-cases, inl, inr, ◌==◌,
}
use vibe_coding_harness.Json.{
  Json, Fields, null, str, dict, get, get_value, put, as_dict, is_word, eq,
}
use vibe_coding_harness.Json.Laws.{get-put}
use vibe_coding_harness.Models.Access.{dict_item, modify_item}
use vibe_coding_harness.Models.Validation.Basic.{item}
use vibe_coding_harness.Store.Transactions.{conflict_if}
use vibe_coding_harness.Runners.{RoleInvocation, ProviderHandle, as_state_dict, change_active}
use vibe_coding_harness.Runners.Ledger.{optional_text, rotate_active, rotate_runtime, rotate_owner}

-- A token owns the Attempt of a Task, or of a role.
pub record TaskOwner (task_id token : String) (state : Fields) : Type 0 where
  pub tasks : Fields
  pub tasks_read : get "tasks" state ≡ some (dict tasks)
  pub task : Fields
  pub task_read : get task_id tasks ≡ some (dict task)
  pub active : Fields
  pub active_read : get "active_attempt" task ≡ some (dict active)
  pub token_read : get "attempt_token" active ≡ some (str token)

pub record RoleOwner (role token : String) (state : Fields) : Type 0 where
  pub runtimes : Fields
  pub runtimes_read : get "role_runtime" state ≡ some (dict runtimes)
  pub runtime : Fields
  pub runtime_read : get role runtimes ≡ some (dict runtime)
  pub token_read : get "active_attempt_token" runtime ≡ some (str token)

-- The owner of the Attempt of an invocation.
pub record Owner (i : RoleInvocation) (token : String) (state : Fields) : Type 0 where
  pub of_worker :
      i.role ≡ "worker"
      → (task_id : String) × (i.task_id ≡ some task_id) × TaskOwner task_id token state
  pub of_role : i.role ≢ "worker" → RoleOwner i.role token state

pub Owner-other :
    (i : RoleInvocation) (token : String) (s s' : Fields)
    → get "tasks" s' ≡ get "tasks" s
    → get "role_runtime" s' ≡ get "role_runtime" s
    → Owner i token s
    → Owner i token s'
Owner-other i token s s' same_tasks same_runtimes o = record {
  of_worker = λ w.
      let (task_id, named, t) = o.of_worker w in
      (
        task_id,
        named,
        record {
          tasks = t.tasks;
          tasks_read = same_tasks ∙ t.tasks_read;
          task = t.task;
          task_read = t.task_read;
          active = t.active;
          active_read = t.active_read;
          token_read = t.token_read;
        },
      );
  of_role = λ w.
      let r = o.of_role w in
      record {
        runtimes = r.runtimes;
        runtimes_read = same_runtimes ∙ r.runtimes_read;
        runtime = r.runtime;
        runtime_read = r.runtime_read;
        token_read = r.token_read;
      };
}

pub as_dict-some : (v : Json) (d : Fields) → as_dict v ≡ some d → v ≡ dict d
as_dict-some (dict d') d h = cc
as_dict-some _ d h = cc

pub item-get : (k : String) (d : Fields) (v : Json) → item k d ≡ ok v → get k d ≡ some v
unfolding item
item-get k d v h = expect-some (get k d) _ v h

pub dict_item-get : (k : String) (d v : Fields) → dict_item k d ≡ ok v → get k d ≡ some (dict v)
unfolding dict_item
dict_item-get k d v h =
    next (item k d) _ h (λ w read h1.
      item-get k d w read ∙ ap some (as_dict-some w v (expect-some (as_dict w) _ v h1)))

pub get_value-get : (k : String) (d v : Fields) → get_value k d ≡ dict v → get k d ≡ some (dict v)
unfolding get_value
get_value-get k d v h = by_option (get k d) h
  where
    by_option : (o : Option Json) → elim o [ none ↦ null | some w ↦ w ] ≡ dict v → o ≡ some (dict v)
    by_option none e = cc
    by_option (some w) e = ap some e

is_word-str : (w : String) (v : Json) → is_word w v ≡ true → v ≡ str w
is_word-str w (str s) h = ap (λ x. str x) ((eq_iff s w).0 h)
is_word-str w _ h = cc

pub conflict_if-false : (b : Bool) (message : String) → conflict_if b message ≡ ok tt → b ≡ false
unfolding conflict_if
conflict_if-false true message h = cc
conflict_if-false false message h = refl

-- The Attempt's token, before and after.
abbrev Renamed : String → Fields → String → String → Fields → Type 0
Renamed k before old new after = (get k before ≡ some (str old)) × (get k after ≡ some (str new))

rotate_active-Renamed :
    (i f : RoleInvocation) (handle : ProviderHandle) (active changed : Fields)
    → rotate_active i handle f active ≡ ok changed
    → Renamed "attempt_token" active i.attempt_token f.attempt_token changed
unfolding rotate_active
rotate_active-Renamed i f handle active changed h =
    next (item "attempt_token" active) _ h (λ token read h1.
      next (item "provider_handle" active) _ h1 (λ own _ h2.
        next
          (conflict_if (not (is_word i.attempt_token token) || not (eq own (as_state_dict handle)))
            "Worker retry owner was superseded")
          _ h2
          (λ _ owned h3.
            let (mine, _) =
              or-false_parts (not (is_word i.attempt_token token)) _
                (conflict_if-false _ "Worker retry owner was superseded" owned) in
            (
              item-get "attempt_token" active token read
                  ∙ ap some (is_word-str i.attempt_token token (true_of_not _ mine)),
              rw (← ok-injective h3) (simp get-put),
            ))))

rotate_runtime-Renamed :
    (i f : RoleInvocation) (runtime changed : Fields)
    → rotate_runtime i f runtime ≡ ok changed
    → Renamed "active_attempt_token" runtime i.attempt_token f.attempt_token changed
unfolding rotate_runtime
rotate_runtime-Renamed i f runtime changed h =
    next (item "active_attempt_token" runtime) _ h (λ token read h1.
      next (conflict_if (not (is_word i.attempt_token token)) "role retry owner was superseded") _
        h1
        (λ _ owned h2. (
          item-get "active_attempt_token" runtime token read
              ∙ ap some (
                  is_word-str i.attempt_token token
                    (true_of_not _ (conflict_if-false _ "role retry owner was superseded" owned))),
          rw (← ok-injective h2) (simp get-put),
        )))

-- A change of a nested dict that ended well.
record Modified (k : String) (change : Fields → Result Fields) (d new : Fields) : Type 0 where
  old : Fields
  old_read : get k d ≡ some (dict old)
  changed : Fields
  changing : change old ≡ ok changed
  new_read : get k new ≡ some (dict changed)

modify_item-Modified :
    (k : String) (change : Fields → Result Fields) (d new : Fields)
    → modify_item k change d ≡ ok new
    → Modified k change d new
unfolding modify_item
modify_item-Modified k change d new h = next (dict_item k d) _ h (λ old read h1.
    next (change old) _ h1 (λ changed changing h2. record {
      old = old;
      old_read = dict_item-get k d old read;
      changed = changed;
      changing = changing;
      new_read = rw (← ok-injective h2) (rw (get-put, eq_refl));
    }))

rotate_role-Owner :
    (i f : RoleInvocation) (state owned : Fields)
    → modify_item "role_runtime" (modify_item i.role (rotate_runtime i f)) state ≡ ok owned
    → RoleOwner i.role i.attempt_token state × RoleOwner i.role f.attempt_token owned
rotate_role-Owner i f state owned h =
    let outer =
      modify_item-Modified "role_runtime" (modify_item i.role (rotate_runtime i f)) state owned h in
    let inner =
      modify_item-Modified i.role (rotate_runtime i f) outer.old outer.changed outer.changing in
    let (before, after) = rotate_runtime-Renamed i f inner.old inner.changed inner.changing in
    (
      record {
        runtimes = outer.old;
        runtimes_read = outer.old_read;
        runtime = inner.old;
        runtime_read = inner.old_read;
        token_read = before;
      },
      record {
        runtimes = outer.changed;
        runtimes_read = outer.new_read;
        runtime = inner.changed;
        runtime_read = inner.new_read;
        token_read = after;
      },
    )

-- The Attempt of a worker, before and after.
abbrev WorkerOwners : RoleInvocation → RoleInvocation → Fields → Fields → Type 0
WorkerOwners i f state owned =
    (task_id : String) × (i.task_id ≡ some task_id)
    × TaskOwner task_id i.attempt_token state
    × TaskOwner task_id f.attempt_token owned

rotate_task-Owner :
    (i f : RoleInvocation) (handle : ProviderHandle) (task : Option String) (state owned : Fields)
    → i.task_id ≡ task
    → change_active key_error "Worker retry owner was superseded"
        (optional_text task)
        (rotate_active i handle f)
        state
      ≡ ok owned
    → WorkerOwners i f state owned
unfolding change_active optional_text
rotate_task-Owner i f handle none state owned named h = cc
rotate_task-Owner i f handle (some task_id) state owned named h =
    next (dict_item "tasks" state) _ h (λ tasks tasks_read h1.
      next (expect (as_dict (get_value task_id tasks)) key_error) _ h1 (λ task task_read h2.
        next (item "active_attempt" task) _ h2 (λ value value_read h3.
          next (expect (as_dict value) (conflict "Worker retry owner was superseded")) _ h3
            (λ active active_read h4.
              next (rotate_active i handle f active) _ h4 (λ changed changing h5.
                let (before, after) = rotate_active-Renamed i f handle active changed changing in
                let value_is =
                  as_dict-some value active (expect-some (as_dict value) _ active active_read) in
                (
                  task_id,
                  named,
                  record {
                    tasks = tasks;
                    tasks_read = dict_item-get "tasks" state tasks tasks_read;
                    task = task;
                    task_read = get_value-get task_id tasks task (
                        as_dict-some _ task
                          (expect-some (as_dict (get_value task_id tasks)) _ task task_read));
                    active = active;
                    active_read =
                        item-get "active_attempt" task value value_read ∙ ap some value_is;
                    token_read = before;
                  },
                  record {
                    tasks = put task_id (dict (put "active_attempt" (dict changed) task)) tasks;
                    tasks_read = rw (← ok-injective h5) (simp get-put);
                    task = put "active_attempt" (dict changed) task;
                    task_read = rw (get-put, eq_refl);
                    active = changed;
                    active_read = simp get-put;
                    token_read = after;
                  },
                ))))))

pub rotate_owner-Owner :
    (i f : RoleInvocation) (handle : ProviderHandle) (state owned : Fields)
    → rotate_owner i handle f state ≡ ok owned
    → Owner i i.attempt_token state × Owner i f.attempt_token owned
unfolding rotate_owner
rotate_owner-Owner i f handle state owned h = elim (Bool-cases (i.role == "worker")) [
  | inl worker ↦
      let as_worker = rw worker at h in
      let (task_id, named, before, after) =
        rotate_task-Owner i f handle i.task_id state owned refl as_worker in
      let is_worker = (eq_iff i.role "worker").0 worker in
      (
        record {
          of_worker = λ _. (task_id, named, before);
          of_role = λ other. absurd (other is_worker);
        },
        record {
          of_worker = λ _. (task_id, named, after);
          of_role = λ other. absurd (other is_worker);
        },
      )
  | inr other ↦
      let as_role = rw other at h in
      let (before, after) = rotate_role-Owner i f state owned as_role in
      (
        record {
          of_worker = λ is_worker. let w = (eq_iff i.role "worker").1 is_worker in cc;
          of_role = λ _. before;
        },
        record {
          of_worker = λ is_worker. let w = (eq_iff i.role "worker").1 is_worker in cc;
          of_role = λ _. after;
        },
      )
]
