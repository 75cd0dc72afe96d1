-- ===== src/Prelude/PosixPath.antt =====
-- pathlib.PurePosixPath of one string: how CPython splits it into parts, and prints it back.
use Prim.Native.String.{String, [], ◌∷◌}
use Prim.Native.String
use mathlib.Core.Bool.{Bool, not, ◌&&◌, ◌||◌}
use mathlib.Core.List.{List}
use mathlib.Core.Option.{Option, none, some}
use text.Mathlib.Text.{◌==◌}
use vibe_coding_harness.Prelude.Tests.{if◌then◌else◌}
use vibe_coding_harness.Prelude.Lists.{is_empty}
use vibe_coding_harness.Prelude.Text.{starts_with, is_slash}

-- `s.split("/")`: the first piece, and those behind a slash.
pieces : String → String × List String
pieces [] = ("", List.[])
pieces (c ∷ s) =
    let (first, others) = pieces s in
    if is_slash c then ("", List.◌∷◌ first others) else (c ∷ first, others)

unfoldable pub split_slash : String → List String
unfolding pieces
split_slash s = let (first, others) = pieces s in List.◌∷◌ first others

-- Empty pieces and `.` are no parts.
significant : List String → List String
significant List.[] = List.[]
significant (List.◌∷◌ x xs) =
    let rest = significant xs in if x == "" || x == "." then rest else List.◌∷◌ x rest

-- One or three and more slashes in front are the root `/`; exactly two are `//`.
unfoldable pub root : String → String
unfolding starts_with
root s =
    if starts_with s "//" && not (starts_with s "///")
    then "//"
    else if starts_with s "/"
    then "/"
    else ""

unfoldable pub relative_parts : String → List String
unfolding significant split_slash
relative_parts s = significant (split_slash s)

-- `path.is_absolute()` and `path.parts`, where a root is the first part.
unfoldable pub is_absolute : String → Bool
unfolding root
is_absolute s = not (root s == "")

unfoldable pub parts : String → List String
unfolding relative_parts root
parts s = if root s == "" then relative_parts s else List.◌∷◌ (root s) (relative_parts s)

unfoldable pub join_slash : List String → String
join_slash List.[] = ""
join_slash (List.◌∷◌ x List.[]) = x
join_slash (List.◌∷◌ x (List.◌∷◌ y ys)) =
    String.◌++◌ x (String.◌++◌ "/" (join_slash (List.◌∷◌ y ys)))

-- `path.as_posix()`
unfoldable pub as_posix : String → String
unfolding parts join_slash
as_posix s =
    if is_empty (parts s) then "." else String.◌++◌ (root s) (join_slash (relative_parts s))

-- `path.parts[0]`, and `path.name`, the last part below the root.
unfoldable pub first_part : String → Option String
unfolding parts
first_part s = elim (parts s) [ List.[] ↦ none | List.◌∷◌ x xs ↦ some x ]
