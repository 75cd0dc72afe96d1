-- ===== src/Scheduler/Scopes.antt =====
-- Path scopes and exclusive resources of src/vibe/scheduler.py. A scope is `.`, a directory with a
-- slash at its end, or a file.
pub mod Coverage
pub mod Normal
pub mod Disjoint
use Prim.Native.String
use vibe_coding_harness.Prelude.{
  String, Bool, true, false, not, ◌&&◌, ◌||◌, some, none, List, Result, ok, err, ◌>>=◌, ◌>>◌,
  expect, reject_if, index_error, map_result, any, contains, ◌==◌, if◌then◌else◌,
}
use vibe_coding_harness.Prelude.Text.{
  starts_with, ends_with_slash, rstrip_slash, drop_last, has_char,
}
use vibe_coding_harness.Prelude.PosixPath.{is_absolute, parts, as_posix, first_part}

-- The second test of the source, whose last alternatives read `path.parts[0]`.
check_parts : String → Result Bool
unfolding is_absolute parts as_posix first_part
check_parts raw =
    if raw == ""
      || is_absolute raw
      || contains ".." (parts raw)
      || contains "." (parts raw)
      || not (raw == as_posix raw)
    then ok true
    else (expect (first_part raw) index_error >>= λ first.
        ok (first == ".vibe-coding" || first == ".git"))

normalize_relative : String → Bool → Result String
unfolding check_parts as_posix
normalize_relative raw directory = do
  invalid ← check_parts raw
  reject_if invalid "invalid path scope"
  ok (String.◌++◌ (as_posix raw) (if directory then "/" else ""))

-- The first test of the source, and the text without the slash of a directory.
malformed : String → Bool
unfolding starts_with has_char
malformed value = value == "" || starts_with value "/" || has_char 92 value

undirected : String → String
unfolding ends_with_slash drop_last
undirected value = if ends_with_slash value then drop_last value else value

normalize_general : String → Result String
unfolding malformed undirected normalize_relative
normalize_general value = do
  reject_if (malformed value) "invalid path scope"
  normalize_relative (undirected value) (ends_with_slash value)

unfoldable pub normalize_scope : String → Result String
unfolding normalize_general
normalize_scope value = if value == "." then ok value else normalize_general value

unfoldable pub path_matches_scope : String → String → Bool
unfolding starts_with ends_with_slash
path_matches_scope path scope =
    if scope == "."
    then true
    else if ends_with_slash scope
    then starts_with path scope
    else path == scope

-- The body of the two loops of `scopes_overlap`.
unfoldable pub scope_pair_overlaps : String → String → Bool
unfolding path_matches_scope rstrip_slash
scope_pair_overlaps first second =
    (first == "." || second == ".")
    || rstrip_slash first == rstrip_slash second
    || ends_with_slash first && path_matches_scope (rstrip_slash second) first
    || ends_with_slash second && path_matches_scope (rstrip_slash first) second

unfoldable pub scopes_overlap : List String → List String → Result Bool
unfolding normalize_scope scope_pair_overlaps
scopes_overlap left right = do
  normalized_left ← map_result normalize_scope left
  normalized_right ← map_result normalize_scope right
  ok (
      any (λ first. any (λ second. scope_pair_overlaps first second) normalized_right)
        normalized_left)

unfoldable pub resources_overlap : List String → List String → Bool
resources_overlap left right = any (λ resource. contains resource right) left
