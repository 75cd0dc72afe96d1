-- ===== src/Store/Transactions.antt =====
-- `StateStore` of src/vibe/state_store.py: `load`, `create` and `transact` on the run directory.
-- The callback of `transact` gets the state and the references, and gives the changed state back.
pub mod Atomic
pub mod Committed
use vibe_coding_harness.Prelude.{
  ℕ, suc, String, Bool, true, false, not, ◌&&◌, ◌||◌, Option, none, some, List, [], ◌∷◌, ◌++◌, map,
  Result, ok, err, ◌>>=◌, ◌>>◌, expect, reject_if, contract, conflict, key_error, type_error, eqb,
  each, map_result, ◌==◌, if◌then◌else◌,
}
use vibe_coding_harness.Prelude.Dict.{lookup, insert}
use vibe_coding_harness.Json.{
  ℤ, pos, Json, Fields, null, int, list, dict, items, of_items, get, put, as_dict, as_list, is_null,
  eq,
}
use vibe_coding_harness.Models.Contracts.{ArtifactRef, artifact_as_dict, nat}
use vibe_coding_harness.Models.Validation.Basic.{item}
use vibe_coding_harness.Models.Validation.RunState.{validate_run_state}
use vibe_coding_harness.Models.Access.{dict_item, list_item, str_item}
use vibe_coding_harness.Models.Semantics.{validate_bound_state_semantics}
use vibe_coding_harness.Store.{
  Platform, Disk, digest_of, artifact_ref, parse_artifact_bytes, artifact_refs, collect_refs,
  history_prefixes, require_history_prefixes, has_prefix,
}

abbrev pub Artifacts : Type 0
Artifacts = List (String × String)

abbrev pub References : Type 0
References = List (String × ArtifactRef)

abbrev pub Mutate : Type 0
Mutate = Fields → References → Result Fields

unfoldable pub conflict_if : Bool → String → Result (Unit {0})
conflict_if true message = err (conflict message)
conflict_if false message = ok tt

read_revision : Json → Result ℕ
read_revision (int (pos n)) = ok n
read_revision _ = err type_error

-- `state["revision"]`, which validation has found to be an integer of at least 0.
unfoldable pub revision_of : Fields → Result ℕ
unfolding item read_revision
revision_of state = item "revision" state >>= read_revision

module _ (env : Platform) where
  -- A bound artifact that is there with its digest.
  unfoldable pub bound_body : Artifacts → String × String → Result (String × String)
  unfolding lookup digest_of
  bound_body files (path, digest) = do
    body ← expect (lookup path files) (contract "artifact is missing")
    reject_if (not (digest_of env body == digest)) "bound artifact digest mismatch"
    ok (path, body)

  -- `_verify_and_cache_bound_artifacts`
  unfoldable pub cache_bound_artifacts : Artifacts → Fields → Result Artifacts
  unfolding collect_refs artifact_refs bound_body
  cache_bound_artifacts files state =
      collect_refs [] (artifact_refs (dict state)) >>= λ found. map_result (bound_body files) found

  -- `bodies.__getitem__` and the parse of the body.
  unfoldable pub load_body : Artifacts → String → Result Json
  unfolding lookup parse_artifact_bytes
  load_body bodies path =
      expect (lookup path bodies) key_error >>= λ body. parse_artifact_bytes env body

  unfoldable pub load : Disk → Result Fields
  unfolding validate_run_state cache_bound_artifacts validate_bound_state_semantics load_body
  load disk = do
    value ← expect disk.state (contract "state.json is missing")
    state ← validate_run_state env.from_isoformat value
    bodies ← cache_bound_artifacts disk.artifacts state
    validate_bound_state_semantics env.from_isoformat (load_body bodies) state
    ok state

  -- The references of a transaction, by their paths.
  unfoldable pub references_of : Artifacts → Result References
  unfolding artifact_ref
  references_of artifacts =
      map_result (λ (path, body). artifact_ref env path body >>= λ r. ok (path, r)) artifacts

index_entry : Json → Result (String × String)
unfolding str_item
index_entry v = do
  d ← expect (as_dict v) type_error
  path ← str_item "path" d
  digest ← str_item "sha256" d
  ok (path, digest)

-- A body under a path that the index has with another digest.
clashes : Option String → String → Bool
clashes none digest = false
clashes (some previous) digest = not (previous == digest)

is_new : Option String → Bool
is_new none = true
is_new (some digest) = false

-- The loop that adds the new references to the index.
unfoldable pub extend_index : List (String × String) → List Json → References → Result (List Json)
unfolding lookup insert clashes is_new artifact_as_dict conflict_if
extend_index indexed index [] = ok index
extend_index indexed index ((path, r) ∷ references) = do
  conflict_if (clashes (lookup r.path indexed) r.sha256)
      "immutable artifact already exists with different bytes"
  extend_index (insert r.path r.sha256 indexed)
      (if is_new (lookup r.path indexed) then index ++ artifact_as_dict r ∷ [] else index)
      references

-- `{item["path"]: item["sha256"] for item in …}`: the last entry of a path stays.
dict_of : List (String × String) → List (String × String) → List (String × String)
unfolding insert
dict_of d [] = d
dict_of d ((path, digest) ∷ rest) = dict_of (insert path digest d) rest

-- The state with the index that the callback finds.
unfoldable pub index_artifacts : Fields → References → Result (Fields × List Json)
unfolding list_item index_entry extend_index dict_of
index_artifacts state references = do
  index ← list_item "artifact_index" state
  indexed ← map_result index_entry index
  extended ← extend_index (dict_of [] indexed) index references
  ok (put "artifact_index" (list (of_items extended)) state, extended)

legacy_changed : Json → Json → Bool
unfolding eq
legacy_changed previous now = not (is_null previous) && not (eq now previous)

-- What the callback may not have changed.
unfoldable pub check_mutation :
    Fields → List Json → List (List String × List Json) → Fields → Result (Unit {0})
unfolding item has_prefix require_history_prefixes legacy_changed
check_mutation current index histories updated = do
  now ← (item "artifact_index" updated >>= λ v. expect (as_list v) type_error)
  reject_if (not (has_prefix index now)) "artifact_index is append-only"
  require_history_prefixes updated histories
  previous ← item "legacy_import" current
  legacy ← item "legacy_import" updated
  reject_if (legacy_changed previous legacy) "legacy_import is immutable once set"

is_bound : Option String → String → Bool
is_bound none digest = false
is_bound (some d) digest = d == digest

module _ (env : Platform) where
  -- The digest that a reference stands for: of the transaction's bytes, or of the file.
  unfoldable pub check_binding : Disk → Artifacts → String × String → Result (Unit {0})
  unfolding lookup digest_of bound_body
  check_binding disk artifacts (path, digest) = elim (lookup path artifacts) [
    | some body ↦ reject_if (not (digest_of env body == digest)) "artifact digest mismatch"
    | none ↦ bound_body env disk.artifacts (path, digest) >>= λ found. ok tt
  ]

  -- `_validate_artifact_bindings`
  unfoldable pub validate_artifact_bindings : Disk → Fields → Artifacts → Result (Unit {0})
  unfolding collect_refs artifact_refs artifact_ref lookup is_bound check_binding
  validate_artifact_bindings disk state artifacts = do
    found ← collect_refs [] (artifact_refs (dict state))
    each
        (λ (path, body). do
          expected ← artifact_ref env path body
          reject_if (not (is_bound (lookup path found) expected.sha256))
              "transaction artifact is not bound by new state")
        artifacts
    each (check_binding disk artifacts) found

  -- The new state, before anything is written.
  unfoldable pub prepare_transaction : Disk → ℕ → Artifacts → Mutate → Result Fields
  unfolding load revision_of references_of index_artifacts history_prefixes check_mutation
      conflict_if validate_run_state validate_artifact_bindings
  prepare_transaction disk expected_revision artifacts mutate = do
    current ← load env disk
    actual ← revision_of current
    conflict_if (not (eqb actual expected_revision)) "expected another revision"
    references ← references_of env artifacts
    histories ← history_prefixes current
    indexed ← index_artifacts current references
    updated ← mutate (indexed.0) references
    check_mutation current (indexed.1) histories updated
    validated ←
        validate_run_state env.from_isoformat
          (dict (put "revision" (nat (suc expected_revision)) updated))
    validate_artifact_bindings disk validated artifacts
    ok validated

-- `_write_immutable`: a file that is there keeps its bytes, which must be the same.
write_file : String → String → Option String → Artifacts → Result (Unit {0}) × Artifacts
write_file path body none files = (ok tt, files ++ (path, body) ∷ [])
write_file path body (some there) files =
    if there == body
    then (ok tt, files)
    else (err (conflict "immutable artifact already exists with different bytes"), files)

unfoldable pub write_immutable : String → String → Artifacts → Result (Unit {0}) × Artifacts
unfolding write_file lookup
write_immutable path body files = write_file path body (lookup path files) files

-- What follows a write, unless the write failed.
go_on :
    Result (Unit {0}) × Artifacts → Result (Unit {0}) × Artifacts → Result (Unit {0}) × Artifacts
go_on (ok u, files) rest = rest
go_on (err e, files) rest = (err e, files)

-- The loop over the artifacts, which stops at the first conflict.
unfoldable pub write_all : Artifacts → Artifacts → Result (Unit {0}) × Artifacts
unfolding write_immutable go_on
write_all [] files = (ok tt, files)
write_all ((path, body) ∷ artifacts) files =
    go_on (write_immutable path body files)
      (write_all artifacts (write_immutable path body files).1)

replace_state : Option Json → Fields → Result (Unit {0}) × Artifacts → Result Fields × Disk
replace_state old state (ok u, files) =
    (ok state, record { state = some (dict state); artifacts = files })
replace_state old state (err e, files) = (err e, record { state = old; artifacts = files })

-- The writes of a transaction whose new state is ready: the artifacts, then `state.json`.
unfoldable pub commit : Artifacts → Fields → Disk → Result Fields × Disk
unfolding write_all replace_state
commit artifacts state disk = replace_state disk.state state (write_all artifacts disk.artifacts)

-- A failed preparation writes nothing.
commit_prepared : Artifacts → Disk → Result Fields → Result Fields × Disk
unfolding commit
commit_prepared artifacts disk (ok state) = commit artifacts state disk
commit_prepared artifacts disk (err e) = (err e, disk)

module _ (env : Platform) where
  unfoldable pub transact : ℕ → Artifacts → Mutate → Disk → Result Fields × Disk
  unfolding prepare_transaction commit_prepared
  transact expected_revision artifacts mutate disk =
      commit_prepared artifacts disk
        (prepare_transaction env disk expected_revision artifacts mutate)

  prepare_creation : Disk → Fields → Artifacts → Option Json → Result Fields
  unfolding validate_run_state revision_of validate_artifact_bindings
  prepare_creation disk initial_state artifacts (some v) =
      err (conflict "state.json already exists")
  prepare_creation disk initial_state artifacts none = do
    state ← validate_run_state env.from_isoformat (dict initial_state)
    revision ← revision_of state
    reject_if (not (eqb revision 0)) "initial revision must be 0"
    validate_artifact_bindings env disk state artifacts
    ok state

  unfoldable pub create : Fields → Artifacts → Disk → Result Fields × Disk
  unfolding prepare_creation commit_prepared
  create initial_state artifacts disk =
      commit_prepared artifacts disk (prepare_creation disk initial_state artifacts disk.state)
