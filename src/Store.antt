-- ===== src/Store.antt =====
-- src/vibe/state_store.py: a run's directory as its state and its immutable artifacts, and
-- `StateStore.load`, `create` and `transact` on it. `state.json` holds the state as a value: its text
-- and the order of its keys are left out. The bytes of an artifact are a text. The run lock is held.
pub mod Transactions
use Prim.Native.String
use vibe_coding_harness.Prelude.{
  ℕ, suc, String, Bool, true, false, not, ◌&&◌, ◌||◌, Option, none, some, List, [], ◌∷◌, ◌++◌, map,
  Result, ok, err, ◌>>=◌, ◌>>◌, expect, reject_if, contract, conflict, key_error, type_error, eqb,
  contains, is_empty, each, map_result, ◌==◌, if◌then◌else◌,
}
use vibe_coding_harness.Prelude.Dict.{lookup, insert}
use vibe_coding_harness.Prelude.PosixPath.{is_absolute, parts, as_posix, first_part}
use vibe_coding_harness.Json.{
  ℤ, pos, Json, Items, Fields, null, int, str, list, dict, entries, items, of_items, keys, get, put,
  as_dict, as_list, as_str, is_null, eq, has_exact_keys,
}
use vibe_coding_harness.Models.Contracts.{ArtifactRef, artifact_as_dict, nat}
use vibe_coding_harness.Models.Validation.Basic.{item, reject_invalid_json_scalars}
use vibe_coding_harness.Models.Validation.RunState.{validate_run_state}
use vibe_coding_harness.Models.Access.{dict_item, list_item, str_item}
use vibe_coding_harness.Models.Semantics.{validate_bound_state_semantics}

-- The standard library: `datetime.fromisoformat`, `hashlib.sha256(body).hexdigest()`, and json's `loads`
-- with the program's hooks (`none` where it raises) and `dumps` as `canonical_json_bytes` calls it.
pub record Platform : Type 0 where
  pub from_isoformat : String → Option (Bool × ℤ)
  pub sha256_hex : String → String
  pub loads : String → Option Json
  pub dumps : Json → String

-- The run directory. `artifacts` are the files below it, by their relative paths.
pub record Disk : Type 0 where
  pub state : Option Json
  pub artifacts : List (String × String)

is_reserved : Option String → Bool
is_reserved none = false
is_reserved (some first) = first == "state.json" || first == "controller.lock"

unfoldable pub relative_artifact_path : String → Result (Unit {0})
unfolding parts is_absolute as_posix first_part is_reserved
relative_artifact_path value =
    reject_if
      (value == ""
        || is_empty (parts value)
        || is_absolute value
        || contains ".." (parts value)
        || contains "." (parts value)
        || not (value == as_posix value)
        || is_reserved (first_part value))
      "invalid artifact path"

module _ (env : Platform) where
  unfoldable pub digest_of : String → String
  digest_of body = String.◌++◌ "sha256:" (env.sha256_hex body)

  unfoldable pub artifact_ref : String → String → Result ArtifactRef
  unfolding relative_artifact_path digest_of
  artifact_ref path body =
      relative_artifact_path path >> ok (record { path = path; sha256 = digest_of body })

  -- `_parse_artifact_bytes` of src/vibe/models.py.
  unfoldable pub parse_artifact_bytes : String → Result Json
  unfolding reject_invalid_json_scalars
  parse_artifact_bytes body = do
    value ← expect (env.loads body) (contract "is not strict JSON")
    d ← expect (as_dict value) (contract "must be a JSON object")
    reject_invalid_json_scalars value
    ok value

-- The run directory together with the records of logs/controller.jsonl.
pub record Logged : Type 0 where
  pub disk : Disk
  pub log : List String

-- The append of one record, which is taken to work.
unfoldable pub append_log : Platform → Fields → Logged → Logged
append_log env event there = record {
  disk = there.disk;
  log = there.log ++ env.dumps (dict event) ∷ [];
}

ref_of : Option Json → Option Json → List ArtifactRef
ref_of (some (str path)) (some (str digest)) = record { path = path; sha256 = digest } ∷ []
ref_of _ _ = []

-- Every artifact reference in a value.
unfoldable mutual
  unfolding has_exact_keys get ref_of

  pub artifact_refs : Json → List ArtifactRef
  artifact_refs (dict d) =
      let below = refs_of_fields d in
      if has_exact_keys ("path" ∷ "sha256" ∷ []) d
      then ref_of (get "path" d) (get "sha256" d)
      else below
  artifact_refs (list xs) = refs_of_items xs
  artifact_refs _ = []

  pub refs_of_items : Items → List ArtifactRef
  refs_of_items Items.nil = []
  refs_of_items (Items.cons v vs) = artifact_refs v ++ refs_of_items vs

  pub refs_of_fields : Fields → List ArtifactRef
  refs_of_fields Fields.end = []
  refs_of_fields (Fields.field k v d) = artifact_refs v ++ refs_of_fields d

disagrees : Option String → String → Bool
disagrees none digest = false
disagrees (some previous) digest = not (previous == digest)

-- The references by their paths, where two of one path agree.
unfoldable pub collect_refs :
    List (String × String) → List ArtifactRef → Result (List (String × String))
unfolding relative_artifact_path disagrees lookup insert
collect_refs found [] = ok found
collect_refs found (r ∷ references) = do
  relative_artifact_path r.path
  reject_if (disagrees (lookup r.path found) r.sha256) "conflicting artifact digests"
  collect_refs (insert r.path r.sha256 found) references

-- `_history_at`: the list at a path of keys.
unfoldable pub history_at : List String → Json → Result (List Json)
unfolding get
history_at [] v = expect (as_list v) (contract "append-only history is not a list")
history_at (k ∷ path) v = do
  d ← expect (as_dict v) (contract "missing append-only history")
  next ← expect (get k d) (contract "missing append-only history")
  history_at path next

abbrev pub fixed_histories : List (List String)
fixed_histories =
    ("plans" ∷ [])
    ∷ ("evaluations" ∷ [])
    ∷ ("verifications" ∷ [])
    ∷ ("role_attempts" ∷ "planner" ∷ [])
    ∷ ("role_attempts" ∷ "evaluator" ∷ [])
    ∷ ("stop_receipts" ∷ [])
    ∷ []

unfoldable pub history_paths : Fields → Result (List (List String))
unfolding dict_item
history_paths state = dict_item "tasks" state >>= λ tasks.
    ok (fixed_histories ++ map (λ task_id. "tasks" ∷ task_id ∷ "attempts" ∷ []) (keys tasks))

unfoldable pub history_prefixes : Fields → Result (List (List String × List Json))
unfolding history_paths history_at
history_prefixes state = history_paths state >>= λ paths.
    map_result (λ path. history_at path (dict state) >>= λ h. ok (path, h)) paths

-- `current[: len(prefix)] == prefix`
unfoldable pub has_prefix : List Json → List Json → Bool
unfolding eq
has_prefix [] current = true
has_prefix (v ∷ prefix) [] = false
has_prefix (v ∷ prefix) (w ∷ current) = eq w v && has_prefix prefix current

unfoldable pub require_history_prefixes :
    Fields → List (List String × List Json) → Result (Unit {0})
unfolding history_at has_prefix
require_history_prefixes state prefixes =
    each
      (λ (path, prefix). history_at path (dict state) >>= λ current.
        reject_if (not (has_prefix prefix current)) "append-only history changed")
      prefixes
