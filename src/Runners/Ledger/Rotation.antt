-- ===== src/Runners/Ledger/Rotation.antt =====
-- A retry of a provider, `rotate` in `retry_transient` of src/vibe/runners/__init__.py.
use vibe_coding_harness.Prelude.{
  ℕ, String, Bool, true, false, not, ◌+◌, ◌≡◌, refl, sym, ap, ◌∙◌, none, some, List, [], ◌∷◌, ◌++◌,
  ok, reject_if, reject_if-ok, next, any, All, eqb, eqb_iff, or-false_parts, true_of_not, eq_iff,
  eq_refl, ◌==◌,
}
use vibe_coding_harness.Json.{Json, Fields, null, str, list, dict, of_items, get, put, remove, eq}
use vibe_coding_harness.Json.Laws.{get-put, get-remove}
use vibe_coding_harness.Models.Contracts.{ArtifactRef, artifact_as_dict, nat}
use vibe_coding_harness.Models.Access.{list_item}
use vibe_coding_harness.Models.Validation.Basic.{item}
use vibe_coding_harness.Store.Transactions.{conflict_if}
use vibe_coding_harness.Runners.{
  RoleInvocation, ProviderHandle, as_state_dict, new_dispatch, add_pending_dispatch, pending_of,
  put_pending,
}
use vibe_coding_harness.Runners.Ledger.Owners.{remove_dispatch-removed}
use vibe_coding_harness.Runners.Ledger.Dispatches.{
  put_pending-put, pending_of-get, pending_of-read, add_pending_dispatch-put,
}
use vibe_coding_harness.Runners.Ledger.Handover.{Owner, Owner-other, rotate_owner-Owner}
use vibe_coding_harness.Runners.Ledger.{
  stable_fields, remove_dispatch, validate_retry, rotate_owner, rotate,
}

-- The entry of an Attempt that goes on with another token.
pub record FreshEntry (i : RoleInvocation) (fresh : Fields) : Type 0 where
  pub same_operation : get "operation_id" fresh ≡ some (str i.operation_id)
  pub same_attempt : get "attempt_no" fresh ≡ some (nat i.attempt_no)
  pub next_retry : get "provider_retry_no" fresh ≡ some (nat (i.provider_retry_no + 1))
  pub unbound : get "provider_handle" fresh ≡ some null

-- The dispatches of a run after a retry.
pub record Rotated (i following : RoleInvocation) (summary : ArtifactRef) (state new : Fields)
    : Type 0 where
  pub pending : Fields
  pub pending_read : get "pending_dispatches" new ≡ some (dict pending)
  pub old_gone : get i.attempt_token pending ≡ none
  pub fresh : Fields
  pub fresh_read : get following.attempt_token pending ≡ some (dict fresh)
  pub entry : FreshEntry i fresh
  pub before : Fields
  pub before_read : get "pending_dispatches" state ≡ some (dict before)
  pub old : Fields
  pub old_read : get i.attempt_token before ≡ some (dict old)
  pub earlier : List Json
  pub earlier_read : list_item "provider_attempts" old ≡ ok earlier
  pub attempts :
      get "provider_attempts" fresh
      ≡ some (list (of_items (earlier ++ artifact_as_dict summary ∷ [])))
  pub owned_before : Owner i i.attempt_token state
  pub owned_after : Owner i following.attempt_token new

-- What `validate_retry` compares.
pub record SameAttempt (i following : RoleInvocation) : Type 0 where
  pub operation : i.operation_id ≡ following.operation_id
  pub attempt : i.attempt_no ≡ following.attempt_no
  pub retry : following.provider_retry_no ≡ i.provider_retry_no + 1
  pub tokens : (following.attempt_token == i.attempt_token) ≡ false

any-All : (bs : List Bool) → any not bs ≡ false → All (λ b. b ≡ true) bs
any-All [] h = tt
any-All (b ∷ bs) h =
    let (here, rest) = or-false_parts (not b) (any not bs) h in
    (true_of_not b here, any-All bs rest)

validate_retry-SameAttempt :
    (i following : RoleInvocation) → validate_retry i following ≡ ok tt → SameAttempt i following
unfolding validate_retry stable_fields
validate_retry-SameAttempt i f h =
    next
      (reject_if (any not (stable_fields i f)) "Provider retry changed semantic Attempt identity") _
      h
      (λ _ identity h1.
        let (_, (_, (operation, (attempt, _)))) =
          any-All (stable_fields i f)
            (reject_if-ok _ "Provider retry changed semantic Attempt identity" identity) in
        let (counter, tokens) =
          or-false_parts (not (eqb f.provider_retry_no (i.provider_retry_no + 1))) _
            (reject_if-ok _ "Provider retry counter or token is invalid" h1) in
        record {
          operation = (eq_iff i.operation_id f.operation_id).0 operation;
          attempt = (eqb_iff i.attempt_no f.attempt_no).0 attempt;
          retry = (eqb_iff f.provider_retry_no (i.provider_retry_no + 1)).0 (true_of_not _ counter);
          tokens = tokens;
        })

there : (v : Json) (d : Fields) → get "pending_dispatches" (put "pending_dispatches" v d) ≡ some v
there v d = simp get-put

got : (k : String) (v : Json) (d : Fields) → get k (put k v d) ≡ some v
got k v d = rw (get-put, eq_refl)

module _ (n : ℕ) (f : RoleInvocation) (prompt schema preflight request : ArtifactRef) where
  new_dispatch-operation :
      get "operation_id" (new_dispatch n f prompt schema preflight request)
      ≡ some (str f.operation_id)
  unfolding new_dispatch get
  new_dispatch-operation = refl

  new_dispatch-attempt :
      get "attempt_no" (new_dispatch n f prompt schema preflight request) ≡ some (nat f.attempt_no)
  unfolding new_dispatch get
  new_dispatch-attempt = refl

  new_dispatch-retry :
      get "provider_retry_no" (new_dispatch n f prompt schema preflight request)
      ≡ some (nat f.provider_retry_no)
  unfolding new_dispatch get
  new_dispatch-retry = refl

  new_dispatch-handle :
      get "provider_handle" (new_dispatch n f prompt schema preflight request) ≡ some null
  unfolding new_dispatch get
  new_dispatch-handle = refl

-- The dispatches, once the old one is removed.
removed_token :
    (old token : String) (v w : Json) (p : Fields)
    → (token == old) ≡ false
    → get old (put token w (put token v (remove old p))) ≡ none
removed_token old token v w p differs = rw (get-put, differs, get-put, differs, get-remove, eq_refl)

fresh_entry :
    (j : String) (v w : Json) (d : Fields)
    → ("provider_attempts" == j) ≡ false
    → get j d ≡ some v
    → get j (put "provider_attempts" w d) ≡ some v
fresh_entry j v w d other read = rw (get-put, other) read

-- What the changes of the dispatches keep.
elsewhere :
    (k : String) (u v w : Json) (d : Fields)
    → ("pending_dispatches" == k) ≡ false
    → get k (put "pending_dispatches" u (put "pending_dispatches" v (put "pending_dispatches" w d)))
      ≡ get k d
elsewhere k u v w d other = rw (get-put, other, get-put, other, get-put, other) refl

module _ (i f : RoleInvocation) (same : SameAttempt i f)
    (prompt schema preflight request summary : ArtifactRef) where
  fresh-FreshEntry :
      (n : ℕ) (w : Json) (fresh : Fields)
      → fresh ≡ new_dispatch n f prompt schema preflight request
      → FreshEntry i (put "provider_attempts" w fresh)
  fresh-FreshEntry n w fresh same_entry = record {
    same_operation = fresh_entry "operation_id" _ w fresh refl (
        ap (get "operation_id") same_entry
        ∙ new_dispatch-operation n f prompt schema preflight request
        ∙ ap (λ x. some (str x)) (sym same.operation));
    same_attempt = fresh_entry "attempt_no" _ w fresh refl (
        ap (get "attempt_no") same_entry
        ∙ new_dispatch-attempt n f prompt schema preflight request
        ∙ ap (λ x. some (nat x)) (sym same.attempt));
    next_retry = fresh_entry "provider_retry_no" _ w fresh refl (
        ap (get "provider_retry_no") same_entry
        ∙ new_dispatch-retry n f prompt schema preflight request
        ∙ ap (λ x. some (nat x)) same.retry);
    unbound = fresh_entry "provider_handle" _ w fresh refl (
        ap (get "provider_handle") same_entry
        ∙ new_dispatch-handle n f prompt schema preflight request);
  }

  -- The steps of `rotate` that change the dispatches.
  dispatches-Rotated :
      (state old owned s1 s2 fresh new : Fields) (earlier : List Json)
      → Owner i i.attempt_token state × Owner i f.attempt_token owned
      → pending_of "Provider retry was superseded" i.attempt_token state ≡ ok old
      → list_item "provider_attempts" old ≡ ok earlier
      → remove_dispatch i.attempt_token owned ≡ ok s1
      → add_pending_dispatch s1 f prompt schema preflight request ≡ ok s2
      → pending_of "Provider retry was superseded" f.attempt_token s2 ≡ ok fresh
      → put_pending f.attempt_token
          (put "provider_attempts"
            (list (of_items (earlier ++ artifact_as_dict summary ∷ [])))
            fresh)
          s2
        ≡ ok new
      → Rotated i f summary state new
  dispatches-Rotated state old owned s1 s2 fresh new earlier (owner, next_owner) old_read
        earlier_read removing adding freshly last =
      let attempts = list (of_items (earlier ++ artifact_as_dict summary ∷ [])) in
      let (p0, e1) = remove_dispatch-removed i.attempt_token owned s1 removing in
      let p1 = remove i.attempt_token p0 in
      let read1 = ap (get "pending_dispatches") e1 ∙ there (dict p1) owned in
      let (n, e2) =
        add_pending_dispatch-put s1 s2 p1 f prompt schema preflight request read1 adding in
      let entry = new_dispatch n f prompt schema preflight request in
      let p2 = put f.attempt_token (dict entry) p1 in
      let read2 = ap (get "pending_dispatches") e2 ∙ there (dict p2) s1 in
      let at_new =
        pending_of-get "Provider retry was superseded" f.attempt_token s2 fresh p2 read2 freshly in
      let same_entry : fresh ≡ entry = cc (at_new, got f.attempt_token (dict entry) p1) in
      let e3 =
        put_pending-put f.attempt_token (put "provider_attempts" attempts fresh) s2 new p2 read2
          last in
      let (before, before_read, dispatch_read) =
        pending_of-read "Provider retry was superseded" i.attempt_token state old old_read in
      let same_state =
        e3 ∙ ap (put "pending_dispatches" _) (e2 ∙ ap (put "pending_dispatches" _) e1) in
      record {
        pending = put f.attempt_token (dict (put "provider_attempts" attempts fresh)) p2;
        pending_read = ap (get "pending_dispatches") e3 ∙ there _ s2;
        old_gone = removed_token i.attempt_token f.attempt_token (dict entry) _ p0 same.tokens;
        fresh = put "provider_attempts" attempts fresh;
        fresh_read = got f.attempt_token _ p2;
        entry = fresh-FreshEntry n attempts fresh same_entry;
        old = old;
        before = before;
        before_read = before_read;
        old_read = dispatch_read;
        earlier = earlier;
        earlier_read = earlier_read;
        attempts = got "provider_attempts" attempts fresh;
        owned_before = owner;
        owned_after =
            Owner-other i f.attempt_token owned new
              (ap (get "tasks") same_state ∙ elsewhere "tasks" _ _ _ owned refl)
              (ap (get "role_runtime") same_state ∙ elsewhere "role_runtime" _ _ _ owned refl)
              next_owner;
      }

-- What `rotate` of a valid retry does, in the state that it is given.
pub rotate-Rotated :
    (i following : RoleInvocation) (handle : ProviderHandle)
    (prompt schema preflight request summary : ArtifactRef) (state new : Fields)
    → validate_retry i following ≡ ok tt
    → rotate i handle following prompt schema preflight request summary state ≡ ok new
    → Rotated i following summary state new
unfolding rotate
rotate-Rotated i f handle prompt schema preflight request summary state new valid h =
    next (pending_of "Provider retry was superseded" i.attempt_token state) _ h (λ old old_read h1.
      next (item "provider_handle" old) _ h1 (λ own _ h2.
        next (conflict_if (not (eq own (as_state_dict handle))) "Provider retry was superseded") _
          h2
          (λ _ _ h3. next (rotate_owner i handle f state) _ h3 (λ owned owning h4.
            next (list_item "provider_attempts" old) _ h4 (λ earlier earlier_read h5.
              next (remove_dispatch i.attempt_token owned) _ h5 (λ s1 removing h6.
                next (add_pending_dispatch s1 f prompt schema preflight request) _ h6
                  (λ s2 adding h7.
                    next (pending_of "Provider retry was superseded" f.attempt_token s2) _ h7
                      (λ fresh freshly h8.
                        dispatches-Rotated i f (validate_retry-SameAttempt i f valid) prompt schema
                          preflight request summary state old owned s1 s2 fresh new earlier
                          (rotate_owner-Owner i f handle state owned owning) old_read earlier_read
                          removing adding freshly h8))))))))

-- Two states agree with two others on a field.
abbrev pub Agree : Fields → Fields → Fields → Fields → String → Type 0
Agree s s' new new' k = (get k s' ≡ get k s) × (get k new' ≡ get k new)

-- What a rotation says of two states, it says of states that agree with them on the dispatches, the
-- Tasks and the roles.
pub Rotated-other :
    (i f : RoleInvocation) (summary : ArtifactRef) (s s' new new' : Fields)
    → Agree s s' new new' "pending_dispatches"
    → Agree s s' new new' "tasks"
    → Agree s s' new new' "role_runtime"
    → Rotated i f summary s new
    → Rotated i f summary s' new'
Rotated-other i f summary s s' new new' (dispatches_before, dispatches_after)
      (tasks_before, tasks_after) (roles_before, roles_after) r =
    record {
      pending = r.pending;
      pending_read = dispatches_after ∙ r.pending_read;
      old_gone = r.old_gone;
      fresh = r.fresh;
      fresh_read = r.fresh_read;
      entry = r.entry;
      before = r.before;
      before_read = dispatches_before ∙ r.before_read;
      old = r.old;
      old_read = r.old_read;
      earlier = r.earlier;
      earlier_read = r.earlier_read;
      attempts = r.attempts;
      owned_before = Owner-other i i.attempt_token s s' tasks_before roles_before r.owned_before;
      owned_after = Owner-other i f.attempt_token new new' tasks_after roles_after r.owned_after;
    }
