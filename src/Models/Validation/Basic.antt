-- ===== src/Models/Validation/Basic.antt =====
-- The `_require_…` functions of src/vibe/models.py, artifacts and errors. `datetime.fromisoformat`
-- differs between the Python versions that the program supports, so it is a parameter: whether the
-- time carries an offset, and its instant, or `none` for ValueError.
use vibe_coding_harness.Prelude.{
  ℕ, String, Bool, true, false, not, ◌||◌, Option, none, some, List, [], ◌∷◌, Result, ok, err,
  ◌>>=◌, ◌>>◌, expect, reject_if, contract, key_error, leb, any, all, contains, is_empty,
  map_result, ◌==◌, if◌then◌else◌,
}
use vibe_coding_harness.Prelude.Text.{is_blank, has_surrogate}
use vibe_coding_harness.Prelude.Patterns.{digest_re, oid_re}
use vibe_coding_harness.Prelude.PosixPath.{is_absolute, parts, as_posix, first_part}
use vibe_coding_harness.Prelude.Dict.{lookup, insert}
use vibe_coding_harness.Json.{
  ℤ, pos, Json, Items, Fields, null, bool, int, str, list, dict, nil, cons, end, field, get, keys,
  as_list, has_exact_keys,
}
use vibe_coding_harness.Models.Contracts.{ArtifactRef}

-- `raw["k"]`
unfoldable pub item : String → Fields → Result Json
unfolding get
item k d = expect (get k d) key_error

unfoldable pub require_plain_int : Json → ℕ → Result ℕ
require_plain_int (int (pos n)) minimum =
    if leb minimum n then ok n else err (contract "must be an integer")
require_plain_int _ minimum = err (contract "must be an integer")

unfoldable pub require_string : Json → Result String
unfolding is_blank has_surrogate
require_string (str s) = do
  reject_if (is_blank s) "must be a non-empty string"
  reject_if (has_surrogate s) "contains an invalid Unicode scalar"
  ok s
require_string _ = err (contract "must be a non-empty string")

unfoldable pub require_exact_fields : Json → List String → Result Fields
unfolding has_exact_keys
require_exact_fields (dict d) expected = do
  reject_if (not (has_exact_keys expected d)) "fields are invalid"
  ok d
require_exact_fields _ expected = err (contract "must be an object")

unfoldable pub require_oid : Json → Result String
unfolding require_string oid_re
require_oid v = do
  text ← require_string v
  reject_if (not (oid_re text)) "must be a full commit OID"
  ok text

unfoldable pub require_rfc3339 : (String → Option (Bool × ℤ)) → Json → Result String
unfolding require_string
require_rfc3339 from_isoformat v = do
  text ← require_string v
  parsed ← expect (from_isoformat text) (contract "must be RFC3339")
  reject_if (not (parsed.0)) "must include a timezone"
  ok text

unfoldable pub require_relative_path : Json → Result String
unfolding require_string is_absolute parts as_posix
require_relative_path v = do
  raw ← require_string v
  reject_if
      (is_absolute raw
        || is_empty (parts raw)
        || contains "." (parts raw)
        || contains ".." (parts raw)
        || not (raw == as_posix raw))
      "must be a canonical relative path"
  ok raw

unfoldable mutual
  unfolding has_surrogate

  pub reject_invalid_json_scalars : Json → Result (Unit {0})
  reject_invalid_json_scalars (str s) =
      reject_if (has_surrogate s) "contains an invalid Unicode scalar"
  reject_invalid_json_scalars (list xs) = reject_invalid_items xs
  reject_invalid_json_scalars (dict d) = reject_invalid_fields d
  reject_invalid_json_scalars _ = ok tt

  pub reject_invalid_items : Items → Result (Unit {0})
  reject_invalid_items nil = ok tt
  reject_invalid_items (cons x xs) = reject_invalid_json_scalars x >> reject_invalid_items xs

  pub reject_invalid_fields : Fields → Result (Unit {0})
  reject_invalid_fields end = ok tt
  reject_invalid_fields (field k v d) =
      reject_if (has_surrogate k) "contains an invalid Unicode scalar"
      >> (reject_invalid_json_scalars v >> reject_invalid_fields d)

is_reserved : Option String → Bool
is_reserved none = false
is_reserved (some first) = first == "state.json" || first == "controller.lock"

unfoldable pub artifact : Json → Result ArtifactRef
unfolding require_exact_fields item require_string is_absolute parts as_posix first_part is_reserved
    digest_re
artifact v = do
  raw ← require_exact_fields v ("path" ∷ "sha256" ∷ [])
  path ← (item "path" raw >>= require_string)
  reject_if
      (is_empty (parts path)
        || is_absolute path
        || contains ".." (parts path)
        || contains "." (parts path)
        || not (path == as_posix path)
        || is_reserved (first_part path))
      "has an invalid artifact path"
  digest ← (item "sha256" raw >>= require_string)
  reject_if (not (digest_re digest)) "sha256 must be canonical"
  ok (record { path = path; sha256 = digest })

unfoldable pub optional_artifact : Json → Result (Option ArtifactRef)
unfolding artifact
optional_artifact null = ok none
optional_artifact v = artifact v >>= λ reference. ok (some reference)

-- Two references to one path must agree on its digest.
differs : Option String → String → Bool
differs none digest = false
differs (some previous) digest = not (previous == digest)

unfoldable pub check_digests : List ArtifactRef → List (String × String) → Result (Unit {0})
unfolding differs lookup insert
check_digests [] paths = ok tt
check_digests (r ∷ references) paths =
    reject_if (differs (lookup r.path paths) r.sha256) "contains conflicting artifact digests"
    >> check_digests references (insert r.path r.sha256 paths)

unfoldable pub artifact_list : Json → Result (List ArtifactRef)
unfolding artifact check_digests
artifact_list v = do
  values ← expect (as_list v) (contract "must be an array")
  references ← map_result artifact values
  check_digests references []
  ok references

is_bool : Json → Bool
is_bool (bool b) = true
is_bool _ = false

check_error_fields : Fields → Result (Unit {0})
unfolding item require_string is_bool artifact get
check_error_fields d = do
  reject_if
      (not (all (λ k. contains k (keys d)) ("code" ∷ "message" ∷ "retryable" ∷ []))
        || any (λ k. not (contains k ("code" ∷ "message" ∷ "retryable" ∷ "evidence" ∷ [])))
            (keys d))
      "fields are invalid"
  code ← (item "code" d >>= require_string)
  message ← (item "message" d >>= require_string)
  retryable ← item "retryable" d
  reject_if (not (is_bool retryable)) "retryable must be a boolean"
  elim (get "evidence" d) [
    | none ↦ ok tt
    | some evidence ↦ artifact evidence >>= λ reference. ok tt
  ]

unfoldable pub optional_error : Json → Result (Option Fields)
unfolding check_error_fields
optional_error null = ok none
optional_error (dict d) = check_error_fields d >>= λ checked. ok (some d)
optional_error _ = err (contract "must be null or an object")
