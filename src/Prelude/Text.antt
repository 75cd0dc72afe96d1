-- ===== src/Prelude/Text.antt =====
-- Python's operations on text that the program uses, over the characters of the native `String`.
-- A `String` holds Unicode scalar values, so a lone surrogate, which a Python `str` can hold, is
-- no text of the model.
use Prim.Native.Char.{Char, code}
use Prim.Native.Nat.{ℕ, zero, suc, ◌-◌}
use Prim.Native.String.{String, [], ◌∷◌, count}
use mathlib.Core.Bool.{Bool, true, false, ◌&&◌, ◌||◌}
use mathlib.Core.List.{List}
use text.Mathlib.Text.{◌==◌}
use vibe_coding_harness.Prelude.Tests.{eqb, leb, if◌then◌else◌}
use vibe_coding_harness.Prelude.Lists.{any, all}

abbrev pub codes : String → List ℕ
codes [] = List.[]
codes (c ∷ s) = List.◌∷◌ (code c) (codes s)

-- `s.startswith(prefix)`
unfoldable pub starts_with : String → String → Bool
starts_with s [] = true
starts_with [] (c ∷ prefix) = false
starts_with (d ∷ s) (c ∷ prefix) = eqb (code d) (code c) && starts_with s prefix

abbrev pub is_slash : Char → Bool
is_slash c = eqb (code c) b'/'

-- `s.endswith("/")`
unfoldable pub ends_with_slash : String → Bool
ends_with_slash [] = false
ends_with_slash (c ∷ []) = is_slash c
ends_with_slash (c ∷ d ∷ s) = ends_with_slash (d ∷ s)

-- `s.rstrip("/")`
unfoldable pub rstrip_slash : String → String
rstrip_slash [] = []
rstrip_slash (c ∷ s) =
    let rest = rstrip_slash s in if is_slash c && rest == "" then "" else c ∷ rest

-- `s[:-1]`
unfoldable pub drop_last : String → String
drop_last [] = []
drop_last (c ∷ []) = []
drop_last (c ∷ d ∷ s) = c ∷ drop_last (d ∷ s)

-- `character in s`, for one character.
unfoldable pub has_char : ℕ → String → Bool
has_char n s = any (λ c. eqb c n) (codes s)

between : ℕ → ℕ → ℕ → Bool
between low high c = leb low c && leb c high

-- `str.isspace` of one character, in the Unicode database of Python.
unfoldable pub is_space : ℕ → Bool
unfolding between
is_space c =
    between 9 13 c
    || between 0x1c 0x20 c
    || eqb c 0x85
    || eqb c 0xa0
    || eqb c 0x1680
    || between 0x2000 0x200a c
    || between 0x2028 0x2029 c
    || eqb c 0x202f
    || eqb c 0x205f
    || eqb c 0x3000

-- `not s.strip()`
unfoldable pub is_blank : String → Bool
unfolding is_space
is_blank s = all is_space (codes s)

-- `any(0xD800 <= ord(character) <= 0xDFFF for character in s)`
unfoldable pub has_surrogate : String → Bool
unfolding between
has_surrogate s = any (between 0xd800 0xdfff) (codes s)

-- `s.endswith(suffix)`
unfoldable pub ends_with : String → String → Bool
ends_with [] suffix = suffix == ""
ends_with (c ∷ s) suffix = (c ∷ s) == suffix || ends_with s suffix

-- `s[:-n]` for a positive n, where a text that is too short is left empty.
take_text : ℕ → String → String
take_text zero s = ""
take_text (suc n) [] = ""
take_text (suc n) (c ∷ s) = c ∷ take_text n s

unfoldable pub drop_right : ℕ → String → String
unfolding take_text
drop_right n s = take_text (count s - n) s

-- `part in s`
unfoldable pub has_part : String → String → Bool
unfolding starts_with
has_part part [] = starts_with [] part
has_part part (c ∷ s) = starts_with (c ∷ s) part || has_part part s
