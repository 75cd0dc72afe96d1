-- ===== src/Store/Transactions/Committed.antt =====
-- What a transaction of src/vibe/state_store.py that ends well has done.
use vibe_coding_harness.Prelude.{
  ℕ, suc, String, Bool, true, false, not, ◌≡◌, ◌≢◌, refl, sym, ap, subst, ◌∙◌, Option, some, List,
  [], ◌∷◌, ◌++◌, Result, ok, err, ◌>>=◌, next, expect, expect-some, reject_if, reject_if-ok,
  contract, type_error, map_result, All, eqb, eqb_iff, true_of_not, ok-injective, and-true_parts,
  arith,
}
use vibe_coding_harness.Json.{ℤ, Json, Fields, list, of_items, dict, put, as_list, eq}
use vibe_coding_harness.Json.Laws.{get-put}
use vibe_coding_harness.Models.Contracts.{nat}
use vibe_coding_harness.Models.Validation.Basic.{item}
use vibe_coding_harness.Models.Validation.RunState.{validate_run_state}
use vibe_coding_harness.Models.Validation.Coherence.{validate_run_state-Meaning}
use vibe_coding_harness.Models.Access.{list_item}
use vibe_coding_harness.Store.{
  Platform, Disk, history_at, history_prefixes, require_history_prefixes, has_prefix,
}
use vibe_coding_harness.Store.Transactions.Atomic.{Extends, write_all-Extends}
use vibe_coding_harness.Models.Semantics.{validate_bound_state_semantics}
use vibe_coding_harness.Store.Transactions.{
  cache_bound_artifacts, load_body, extend_index, index_entry, dict_of, Artifacts, References,
  Mutate, revision_of, read_revision, conflict_if, load, references_of, index_artifacts,
  check_mutation, validate_artifact_bindings, prepare_transaction, write_all, replace_state, commit,
  commit_prepared, transact,
}

-- The same items by Python's `==`, and a history that only grew at its end.
abbrev pub SameItems : List Json → List Json → Type 0
SameItems [] [] = Unit
SameItems (v ∷ vs) (w ∷ ws) = (eq w v ≡ true) × SameItems vs ws
SameItems _ _ = ⊥

pub record Grows (before after : List Json) : Type 0 where
  pub kept : List Json
  pub added : List Json
  pub split : after ≡ kept ++ added
  pub same : SameItems before kept

has_prefix-Grows : (before after : List Json) → has_prefix before after ≡ true → Grows before after
unfolding has_prefix
has_prefix-Grows [] after h = record { kept = []; added = after; split = refl; same = tt }
has_prefix-Grows (v ∷ before) [] h = cc
has_prefix-Grows (v ∷ before) (w ∷ after) h =
    let (here, later) = and-true_parts (eq w v) (has_prefix before after) h in
    let g = has_prefix-Grows before after later in
    record {
      kept = w ∷ g.kept;
      added = g.added;
      split = ap (λ xs. w ∷ xs) g.split;
      same = (here, g.same);
    }

-- What became of a history: its list in the new state.
abbrev pub Continues : Fields → List String × List Json → Type 0
Continues state (path, before) =
    (after : List Json) × (history_at path (dict state) ≡ ok after) × Grows before after

require-Continues :
    (state : Fields) (prefixes : List (List String × List Json))
    → require_history_prefixes state prefixes ≡ ok tt
    → All (Continues state) prefixes
unfolding require_history_prefixes
require-Continues state [] h = tt
require-Continues state ((path, before) ∷ prefixes) h =
    next
      (history_at path (dict state) >>= λ current.
        reject_if (not (has_prefix before current)) "append-only history changed")
      _ h
      (λ _ here rest. next (history_at path (dict state)) _ here (λ after read checked. (
        (
          after,
          read,
          has_prefix-Grows before after (
              true_of_not (has_prefix before after) (
                reject_if-ok (not (has_prefix before after)) "append-only history changed"
                  checked)),
        ),
        require-Continues state prefixes rest,
      )))

index_artifacts-given :
    (state : Fields) (references : References) (indexed : Fields × List Json)
    → index_artifacts state references ≡ ok indexed
    → (index : Json) × (indexed.0 ≡ put "artifact_index" index state)
unfolding index_artifacts
index_artifacts-given state references indexed h =
    next (list_item "artifact_index" state) _ h (λ index _ h1.
      next (map_result index_entry index) _ h1 (λ entries_of _ h2.
        next (extend_index (dict_of [] entries_of) index references) _ h2 (λ extended _ h3. (
          list (of_items extended),
          sym (ap (λ (x : Fields × List Json). x.0) (ok-injective h3)),
        ))))

module _ (env : Platform) where
  -- A new state that is ready to be written.
  pub record Prepared (disk : Disk) (expected : ℕ) (mutate : Mutate) (new : Fields) : Type 0 where
    pub current : Fields
    pub current_read : load env disk ≡ ok current
    pub revision_read : revision_of current ≡ ok expected
    pub given : Fields
    pub index : Json
    pub given_state : given ≡ put "artifact_index" index current
    pub references : References
    pub updated : Fields
    pub mutated : mutate given references ≡ ok updated
    pub histories : List (List String × List Json)
    pub histories_read : history_prefixes current ≡ ok histories
    pub continued : All (Continues updated) histories
    pub new_state : new ≡ put "revision" (nat (suc expected)) updated
    pub valid : validate_run_state env.from_isoformat (dict new) ≡ ok new

  conflict_if-ok :
      (test : Bool) (message : String) → conflict_if test message ≡ ok tt → test ≡ false
  unfolding conflict_if
  conflict_if-ok true message h = cc
  conflict_if-ok false message h = refl

  same_revision : (a b : ℕ) (message : String) → conflict_if (not (eqb a b)) message ≡ ok tt → a ≡ b
  same_revision a b message h =
      (eqb_iff a b).0 (true_of_not (eqb a b) (conflict_if-ok (not (eqb a b)) message h))

  check_mutation-Continues :
      (current updated : Fields) (index : List Json) (histories : List (List String × List Json))
      → check_mutation current index histories updated ≡ ok tt
      → All (Continues updated) histories
  unfolding check_mutation
  check_mutation-Continues current updated index histories h =
      next (item "artifact_index" updated >>= λ v. expect (as_list v) type_error) _ h (λ now _ h1.
        next (reject_if (not (has_prefix index now)) "artifact_index is append-only") _ h1
          (λ _ _ h2.
            next (require_history_prefixes updated histories) _ h2
              (λ _ required h3. require-Continues updated histories required)))

  validated :
      (from : String → Option (Bool × ℤ)) (s new : Fields)
      → validate_run_state from (dict s) ≡ ok new
      → new ≡ s
  validated from s new h = let e = (validate_run_state-Meaning from (dict s) new h).0 in cc

  prepare_transaction-Prepared :
      (disk : Disk) (expected : ℕ) (artifacts : Artifacts) (mutate : Mutate) (new : Fields)
      → prepare_transaction env disk expected artifacts mutate ≡ ok new
      → Prepared disk expected mutate new
  unfolding prepare_transaction
  prepare_transaction-Prepared disk expected artifacts mutate new h =
      next (load env disk) _ h (λ current read h1.
        next (revision_of current) _ h1 (λ actual revision h2.
          next (conflict_if (not (eqb actual expected)) "expected another revision") _ h2
            (λ _ at h3. next (references_of env artifacts) _ h3 (λ references _ h4.
              next (history_prefixes current) _ h4 (λ histories histories_read h5.
                next (index_artifacts current references) _ h5 (λ indexed indexing h6.
                  next (mutate (indexed.0) references) _ h6 (λ updated mutated h7.
                    next (check_mutation current (indexed.1) histories updated) _ h7
                      (λ _ checked h8.
                        next
                          (validate_run_state env.from_isoformat
                            (dict (put "revision" (nat (suc expected)) updated)))
                          _ h8
                          (λ s valid h9.
                            next (validate_artifact_bindings env disk s artifacts) _ h9 (λ _ _ h10.
                              let same =
                                validated env.from_isoformat
                                  (put "revision" (nat (suc expected)) updated) s valid in
                              let is_new : s ≡ new = ok-injective h10 in
                              let here = sym is_new ∙ same in
                              record {
                                current = current;
                                current_read = read;
                                revision_read =
                                    revision
                                    ∙ ap (λ n. ok n)
                                        (same_revision actual expected "expected another revision"
                                          at);
                                given = indexed.0;
                                index =
                                    (index_artifacts-given current references indexed indexing).0;
                                given_state =
                                    (index_artifacts-given current references indexed indexing).1;
                                references = references;
                                updated = updated;
                                mutated = mutated;
                                histories = histories;
                                histories_read = histories_read;
                                continued =
                                    check_mutation-Continues current updated (indexed.1) histories
                                      checked;
                                new_state = here;
                                valid =
                                    subst
                                      (λ x. validate_run_state env.from_isoformat (dict x) ≡ ok new)
                                      (sym here) (valid ∙ ap (λ x. ok x) is_new);
                              }))))))))))

  -- What a transaction that ends well has done to the run directory.
  pub record Committed (disk : Disk) (expected : ℕ) (mutate : Mutate) (new : Fields) (disk' : Disk)
      : Type 0 where
    pub prepared : Prepared disk expected mutate new
    pub state_written : disk'.state ≡ some (dict new)
    pub files_kept : Extends disk.artifacts disk'.artifacts

  replaced :
      (old : Option Json) (state new : Fields) (files : Artifacts)
      (written : Result (Unit {0}) × Artifacts) (disk' : Disk)
      → Extends files (written.1)
      → replace_state old state written ≡ (ok new, disk')
      → (state ≡ new) × (disk'.state ≡ some (dict new)) × Extends files disk'.artifacts
  unfolding replace_state
  replaced old state new files (ok u, files') disk' x h =
      let result = ap (λ (r : Result Fields × Disk). r.0) h in
      let same = ok-injective result in
      let there = ap (λ (r : Result Fields × Disk). r.1) h in
      (same, cc (same, there), subst (λ (d : Disk). Extends files d.artifacts) there x)
  replaced old state new files (err e, files') disk' x h =
      let result = ap (λ (r : Result Fields × Disk). r.0) h in cc

  commit_prepared-Committed :
      (disk : Disk) (expected : ℕ) (artifacts : Artifacts) (mutate : Mutate)
      (prepared : Result Fields)
      → prepared ≡ prepare_transaction env disk expected artifacts mutate
      → (new : Fields) (disk' : Disk) → commit_prepared artifacts disk prepared ≡ (ok new, disk')
      → Committed disk expected mutate new disk'
  unfolding commit_prepared commit
  commit_prepared-Committed disk expected artifacts mutate (err e) is new disk' h =
      let result = ap (λ (r : Result Fields × Disk). r.0) h in cc
  commit_prepared-Committed disk expected artifacts mutate (ok state) is new disk' h =
      let (same, written, kept) =
        replaced disk.state state new disk.artifacts (write_all artifacts disk.artifacts) disk'
          (write_all-Extends artifacts disk.artifacts) h in
      record {
        prepared =
            prepare_transaction-Prepared disk expected artifacts mutate new
              (sym is ∙ ap (λ s. ok s) same);
        state_written = written;
        files_kept = kept;
      }

  -- A transaction that ends well found the expected revision, and its new state is what the callback
  -- made, with the next revision. Every history of the old state only grew at its end, the new state
  -- stands in the run directory and is valid, and no artifact that was there has changed.
  pub transact-Committed :
      (disk : Disk) (expected : ℕ) (artifacts : Artifacts) (mutate : Mutate) (new : Fields)
      (disk' : Disk)
      → transact env expected artifacts mutate disk ≡ (ok new, disk')
      → Committed disk expected mutate new disk'
  unfolding transact
  transact-Committed disk expected artifacts mutate new disk' h =
      commit_prepared-Committed disk expected artifacts mutate
        (prepare_transaction env disk expected artifacts mutate) refl new disk' h

  next_revision : (n : ℕ) (s : Fields) → revision_of (put "revision" (nat n) s) ≡ ok n
  unfolding revision_of read_revision item
  next_revision n s = rw (get-put "revision" "revision" (nat n) s) refl

  pub load-state :
      (disk : Disk) (s state : Fields)
      → disk.state ≡ some (dict s)
      → load env disk ≡ ok state
      → state ≡ s
  unfolding load
  load-state disk s state there h =
      next (expect disk.state (contract "state.json is missing")) _ h (λ value read h1.
        next (validate_run_state env.from_isoformat value) _ h1 (λ s' valid h2.
          next (cache_bound_artifacts env disk.artifacts s') _ h2 (λ bodies _ h3.
            next (validate_bound_state_semantics env.from_isoformat (load_body env bodies) s') _ h3
              (λ _ _ h4.
                let value_is : value ≡ dict s = cc (expect-some disk.state _ value read, there) in
                let same = validated env.from_isoformat s s' (rw value_is at valid) in
                sym (ok-injective h4) ∙ same))))

  -- Of two transactions that were prepared for the same revision at most one ends well: once one is
  -- committed, the other is refused, whatever it would write.
  pub transact-once :
      (disk : Disk) (expected : ℕ) (artifacts : Artifacts) (mutate : Mutate) (new : Fields)
      (disk' : Disk)
      → transact env expected artifacts mutate disk ≡ (ok new, disk')
      → (artifacts' : Artifacts) (mutate' : Mutate) (new' : Fields) (disk'' : Disk)
      → transact env expected artifacts' mutate' disk' ≢ (ok new', disk'')
  transact-once disk expected artifacts mutate new disk' h artifacts' mutate' new' disk'' h' =
      let first = transact-Committed disk expected artifacts mutate new disk' h in
      let second = (transact-Committed disk' expected artifacts' mutate' new' disk'' h').prepared in
      let same = load-state disk' new second.current first.state_written second.current_read in
      let is_new = same ∙ first.prepared.new_state in
      let now = next_revision (suc expected) first.prepared.updated in
      let twice : ok (suc expected) ≡ ok expected = cc (now, is_new, second.revision_read) in
      let n = ok-injective twice in omega arith
