-- ===== src/Prelude/Patterns.antt =====
-- The regular expressions of the program, as `fullmatch` reads them. Each is a row of character
-- classes of fixed or bounded length, and `\\d` is every Unicode decimal digit (Nd), as in `re`.
use vibe_coding_harness.Prelude.Text.{codes}
use Prim.Native.Nat.{ℕ, zero, suc, ◌+◌}
use Prim.Native.String.{String}
use mathlib.Core.Bool.{Bool, true, false, ◌&&◌, ◌||◌}
use mathlib.Core.List.{List, [], ◌∷◌}
use vibe_coding_harness.Prelude.Tests.{eqb, leb}
use vibe_coding_harness.Prelude.Lists.{length, any, all}

abbrev Class : Type 0
Class = ℕ → Bool

between : ℕ → ℕ → Class
between low high c = leb low c && leb c high

-- The zero of each run of ten decimal digits in the Unicode database.
abbrev digit_zeros : List ℕ
digit_zeros =
    0x30 ∷ 0x660 ∷ 0x6f0 ∷ 0x7c0 ∷ 0x966 ∷ 0x9e6 ∷ 0xa66 ∷ 0xae6 ∷ 0xb66 ∷ 0xbe6 ∷ 0xc66 ∷ 0xce6
    ∷ 0xd66 ∷ 0xde6 ∷ 0xe50 ∷ 0xed0 ∷ 0xf20 ∷ 0x1040 ∷ 0x1090 ∷ 0x17e0 ∷ 0x1810 ∷ 0x1946 ∷ 0x19d0
    ∷ 0x1a80 ∷ 0x1a90 ∷ 0x1b50 ∷ 0x1bb0 ∷ 0x1c40 ∷ 0x1c50 ∷ 0xa620 ∷ 0xa8d0 ∷ 0xa900 ∷ 0xa9d0
    ∷ 0xa9f0 ∷ 0xaa50 ∷ 0xabf0 ∷ 0xff10 ∷ 0x104a0 ∷ 0x10d30 ∷ 0x11066 ∷ 0x110f0 ∷ 0x11136 ∷ 0x111d0
    ∷ 0x112f0 ∷ 0x11450 ∷ 0x114d0 ∷ 0x11650 ∷ 0x116c0 ∷ 0x11730 ∷ 0x118e0 ∷ 0x11950 ∷ 0x11c50
    ∷ 0x11d50 ∷ 0x11da0 ∷ 0x16a60 ∷ 0x16ac0 ∷ 0x16b50 ∷ 0x1d7ce ∷ 0x1d7d8 ∷ 0x1d7e2 ∷ 0x1d7ec
    ∷ 0x1d7f6 ∷ 0x1e140 ∷ 0x1e2f0 ∷ 0x1e950 ∷ 0x1fbf0 ∷ []

decimal : Class
unfolding between
decimal c = any (λ zero_digit. between zero_digit (zero_digit + 9) c) digit_zeros

hex : Class
unfolding between
hex c = between b'0' b'9' c || between b'a' b'f' c

upper : Class
unfolding between
upper c = between b'A' b'Z' c

lower : Class
unfolding between
lower c = between b'a' b'z' c

ascii_digit : Class
unfolding between
ascii_digit c = between b'0' b'9' c

alphanumeric : Class
unfolding upper lower ascii_digit
alphanumeric c = upper c || lower c || ascii_digit c

one_of : String → Class
one_of allowed c = any (λ a. eqb c a) (codes allowed)

exactly : ℕ → Class → (List ℕ → Bool) → List ℕ → Bool
exactly zero p then_rest s = then_rest s
exactly (suc n) p then_rest [] = false
exactly (suc n) p then_rest (c ∷ s) = p c && exactly n p then_rest s

literal : List ℕ → (List ℕ → Bool) → List ℕ → Bool
literal [] then_rest s = then_rest s
literal (a ∷ word) then_rest [] = false
literal (a ∷ word) then_rest (c ∷ s) = eqb c a && literal word then_rest s

at_end : List ℕ → Bool
at_end [] = true
at_end (c ∷ s) = false

at_most : ℕ → Class → List ℕ → Bool
at_most n p s = leb (length s) n && all p s

-- vibe.models
unfoldable pub digest_re : String → Bool
unfolding literal exactly hex at_end
digest_re s = literal (codes "sha256:") (exactly 64 hex at_end) (codes s)

unfoldable pub oid_re : String → Bool
unfolding exactly hex at_end
oid_re s = exactly 40 hex at_end (codes s) || exactly 64 hex at_end (codes s)

unfoldable pub run_id_re : String → Bool
unfolding literal exactly decimal at_end
run_id_re s =
    literal (codes "RUN-") (exactly 8 decimal (literal (codes "-") (exactly 3 decimal at_end)))
      (codes s)

unfoldable pub task_id_re : String → Bool
unfolding literal exactly decimal at_end
task_id_re s = literal (codes "TASK-") (exactly 3 decimal at_end) (codes s)

unfoldable pub acceptance_id_re : String → Bool
unfolding literal exactly decimal at_end
acceptance_id_re s = literal (codes "AC-") (exactly 3 decimal at_end) (codes s)

unfoldable pub operation_id_re : String → Bool
unfolding exactly alphanumeric at_most one_of
operation_id_re s =
    exactly 1 alphanumeric (at_most 127 (λ c. alphanumeric c || one_of "_-" c)) (codes s)

-- vibe.scheduler
unfoldable pub resource_re : String → Bool
unfolding exactly alphanumeric at_most one_of
resource_re s =
    exactly 1 alphanumeric (at_most 127 (λ c. alphanumeric c || one_of "._:/-" c)) (codes s)

-- vibe.config
unfoldable pub command_id_re : String → Bool
unfolding exactly lower ascii_digit at_most one_of
command_id_re s =
    exactly 1 lower (at_most 63 (λ c. lower c || ascii_digit c || one_of "_-" c)) (codes s)

unfoldable pub env_name_re : String → Bool
unfolding exactly upper lower alphanumeric one_of
env_name_re s =
    exactly 1 (λ c. upper c || lower c || one_of "_" c) (all (λ c. alphanumeric c || one_of "_" c))
      (codes s)
