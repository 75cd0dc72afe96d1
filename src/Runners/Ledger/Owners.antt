-- ===== src/Runners/Ledger/Owners.antt =====
-- Which token owns an Attempt, after the operations of `DispatchLedger` in src/vibe/runners/__init__.py.
use vibe_coding_harness.Prelude.{
  ℕ, suc, String, Bool, true, false, ◌≡◌, refl, sym, ap, ◌∙◌, some, Result, ok, err, expect,
  key_error, next, ok-injective, contains, Bool-cases, inl, inr, ◌==◌, ◌⊎◌, List, [], ◌∷◌, ◌++◌,
  Error,
}
use vibe_coding_harness.Json.{Fields, end, field, str, dict, keys, get_value, put, remove, as_dict}
use vibe_coding_harness.Json.Laws.{get-put}
use vibe_coding_harness.Models.Contracts.{fields, nat}
use vibe_coding_harness.Models.Access.{dict_item}
use vibe_coding_harness.Models.Validation.Basic.{item}
use vibe_coding_harness.Store.{Platform, Disk, Logged, append_log}
use vibe_coding_harness.Store.Transactions.{Artifacts, Mutate, revision_of, load}
use vibe_coding_harness.Store.Transactions.Committed.{Committed, transact-Committed, load-state}
use vibe_coding_harness.Runners.{pending_of}
use vibe_coding_harness.Runners.Ledger.{
  Callback, remove_dispatch, close_dispatch, has_dispatch, stale_event, accepted, transact_at,
  accept_found, accept_loaded, accept_current_result,
}

removed_key : (k : String) (d : Fields) → contains k (keys (remove k d)) ≡ false
unfolding remove
removed_key k end = refl
removed_key k (field j v d) = elim (Bool-cases (j == k)) [
  | inl same ↦ rw same (removed_key k d)
  | inr other ↦ rw (other, other) (removed_key k d)
]

pub remove_dispatch-removed :
    (token : String) (state new : Fields)
    → remove_dispatch token state ≡ ok new
    → (pending : Fields) × (new ≡ put "pending_dispatches" (dict (remove token pending)) state)
unfolding remove_dispatch
remove_dispatch-removed token state new h =
    next (dict_item "pending_dispatches" state) _ h (λ pending _ h1.
      next (expect (as_dict (get_value token pending)) key_error) _ h1
        (λ _ _ h2. (pending, sym (ok-injective h2))))

gone :
    (token : String) (n : ℕ) (pending state : Fields)
    → has_dispatch token
        (put "revision" (nat n) (put "pending_dispatches" (dict (remove token pending)) state))
      ≡ ok false
unfolding has_dispatch dict_item item
gone token n pending state = simp (get-put) (ap (λ b. ok b) (removed_key token pending))

module _ (env : Platform) where
  accepted-true :
      (log : List String) (x : Result Fields × Disk) (there : Logged)
      → accepted log x ≡ (ok true, there)
      → (new : Fields) × (x ≡ (ok new, there.disk))
  unfolding accepted
  accepted-true log (ok new, disk) there h =
      (new, cc (ap (λ (r : Result Bool × Logged). r.1.disk) h))
  accepted-true log (err e, disk) there h =
      let result = ap (λ (r : Result Bool × Logged). r.0) h in cc

  pub transact_at-Committed :
      (artifacts : Artifacts) (mutate : Mutate) (disk disk' : Disk) (r : Result ℕ) (new : Fields)
      → transact_at env artifacts mutate disk r ≡ (ok new, disk')
      → (n : ℕ) × Committed env disk n mutate new disk'
  unfolding transact_at
  transact_at-Committed artifacts mutate disk disk' (ok n) new h =
      (n, transact-Committed env disk n artifacts mutate new disk' h)
  transact_at-Committed artifacts mutate disk disk' (err e) new h =
      let result = ap (λ (x : Result Fields × Disk). x.0) h in cc

  -- A token that was closed by a transaction is no longer pending.
  record Closed (token : String) (disk' : Disk) : Type 0 where
    state : Fields
    written : disk'.state ≡ some (dict state)
    stale : has_dispatch token state ≡ ok false

  close_dispatch-Closed :
      (message token : String) (accept : Callback) (disk disk' : Disk) (n : ℕ) (new : Fields)
      → Committed env disk n (close_dispatch message token accept) new disk'
      → Closed token disk'
  unfolding close_dispatch
  close_dispatch-Closed message token accept disk disk' n new c =
      next (pending_of message token c.prepared.given) _ c.prepared.mutated (λ pending _ h1.
        next (accept c.prepared.given pending c.prepared.references) _ h1 (λ accepted_state _ h2.
          let (dispatches, removed) =
            remove_dispatch-removed token accepted_state c.prepared.updated h2 in
          record {
            state = new;
            written = c.state_written;
            stale =
                ap (has_dispatch token)
                  (c.prepared.new_state ∙ ap (put "revision" (nat (suc n))) removed)
                ∙ gone token (suc n) dispatches accepted_state;
          }))

  accept_found-Closed :
      (token : String) (artifacts : Artifacts) (accept : Callback) (state : Fields)
      (there there' : Logged) (r : Result Bool)
      → accept_found env token artifacts accept state there r ≡ (ok true, there')
      → Closed token there'.disk
  unfolding accept_found
  accept_found-Closed token artifacts accept state there there' (err e) h =
      let result = ap (λ (x : Result Bool × Logged). x.0) h in cc
  accept_found-Closed token artifacts accept state there there' (ok false) h =
      let result = ap (λ (x : Result Bool × Logged). x.0) h in cc
  accept_found-Closed token artifacts accept state there there' (ok true) h =
      let (new, moved) = accepted-true there.log _ there' h in
      let (n, c) =
        transact_at-Committed artifacts _ there.disk there'.disk (revision_of state) new moved in
      close_dispatch-Closed "result owner was superseded" token accept there.disk there'.disk n new
        c

  accept_loaded-Closed :
      (token : String) (artifacts : Artifacts) (accept : Callback) (there there' : Logged)
      (r : Result Fields)
      → accept_loaded env token artifacts accept there r ≡ (ok true, there')
      → Closed token there'.disk
  unfolding accept_loaded
  accept_loaded-Closed token artifacts accept there there' (err e) h =
      let result = ap (λ (x : Result Bool × Logged). x.0) h in cc
  accept_loaded-Closed token artifacts accept there there' (ok state) h =
      accept_found-Closed token artifacts accept state there there' (has_dispatch token state) h

  -- A rejection as stale: the state and the artifacts are kept, and the log gets one record.
  abbrev pub Stale : String → Logged → Result Bool × Logged → Type 0
  Stale token there x = x ≡ (
    ok false,
    record {
      disk = there.disk;
      log =
          there.log
          ++ env.dumps (
              dict (
                fields
                  (("event", str "stale-result-rejected") ∷ ("attempt_token", str token) ∷ [])))
            ∷ [];
    },
  )

  -- A rejection by the load of a state that is not valid: nothing is written.
  abbrev pub Unreadable : Logged → Result Bool × Logged → Type 0
  Unreadable there x = (e : Error) × (load env there.disk ≡ err e) × (x ≡ (err e, there))

  rejected_again :
      (token : String) (artifacts : Artifacts) (accept : Callback) (there : Logged)
      (r : Result Fields)
      → load env there.disk ≡ r
      → ((state : Fields) → r ≡ ok state → has_dispatch token state ≡ ok false)
      → Stale token there (accept_loaded env token artifacts accept there r)
        ⊎ Unreadable there (accept_loaded env token artifacts accept there r)
  unfolding accept_loaded accept_found append_log stale_event
  rejected_again token artifacts accept there (err e) read closed = inr (e, read, refl)
  rejected_again token artifacts accept there (ok state) read closed =
      inl (rw (closed state refl) refl)

  -- A result is accepted at most once. After a result of a token was accepted, another one of the
  -- same token, whatever it is, is rejected as stale: the state and the artifacts stay as they are, and
  -- the log gets one record of the rejection. If the state there does not load any more, the call
  -- fails with the error of the load and writes nothing.
  pub accept_current_result-once :
      (token : String) (artifacts : Artifacts) (accept : Callback) (there there' : Logged)
      → accept_current_result env token artifacts accept there ≡ (ok true, there')
      → (artifacts' : Artifacts) (accept' : Callback)
      → Stale token there' (accept_current_result env token artifacts' accept' there')
        ⊎ Unreadable there' (accept_current_result env token artifacts' accept' there')
  unfolding accept_current_result
  accept_current_result-once token artifacts accept there there' h artifacts' accept' =
      let closed =
        accept_loaded-Closed token artifacts accept there there' (load env there.disk) h in
      rejected_again token artifacts' accept' there' (load env there'.disk) refl (λ state read.
        ap (has_dispatch token) (load-state env there'.disk closed.state state closed.written read)
        ∙ closed.stale)
