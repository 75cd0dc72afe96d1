-- ===== src/Prelude/Lists.antt =====
-- Lists measured by native numbers, their tests, and Python's ordered sets of strings.
use Prim.Native.Nat.{ℕ, suc, ◌+◌}
use Prim.Native.String.{String}
use mathlib.Core.Path.{◌≡◌, sym}
use mathlib.Core.Bool.{Bool, true, false, not, ◌&&◌, ◌||◌}
use mathlib.Core.Logic.{◌⊎◌, inl, inr}
use mathlib.Core.List.{List, [], ◌∷◌, ◌++◌}
use native.Mathlib.Omega.{arith}
use text.Mathlib.TextEquality.{eq_iff}
use text.Mathlib.TextPositions.{eq_refl}
use text.Mathlib.Text.{◌==◌}
use vibe_coding_harness.Prelude.Tests.{eqb, or-false_parts, Bool-cases, if◌then◌else◌}

module _ {ℓ} {A : Type ℓ} where
  abbrev pub length : List A → ℕ
  length [] = 0
  length (x ∷ xs) = suc (length xs)

  abbrev pub any : (A → Bool) → List A → Bool
  any p [] = false
  any p (x ∷ xs) = p x || any p xs

  abbrev pub all : (A → Bool) → List A → Bool
  all p [] = true
  all p (x ∷ xs) = p x && all p xs

  abbrev pub is_empty : List A → Bool
  is_empty [] = true
  is_empty (x ∷ xs) = false

  -- A predicate of every item, by recursion.
  abbrev pub All {κ} : (A → Type κ) → List A → Type κ
  All P [] = Unit
  All P (x ∷ xs) = P x × All P xs

  pub length-append : (xs ys : List A) → length (xs ++ ys) ≡ length xs + length ys
  length-append [] ys = omega arith
  length-append (x ∷ xs) ys = omega (arith, length-append xs ys)

-- Membership with its place, for the lists of records that the theorems range over.
module _ {A : Type 0} where
  abbrev pub In : A → List A → Type 0
  In a [] = ⊥
  In a (x ∷ xs) = (a ≡ x) ⊎ In a xs

-- `x in xs`
abbrev pub contains : String → List String → Bool
contains a [] = false
contains a (x ∷ xs) = x == a || contains a xs

-- `set(xs).issubset(ys)`
abbrev pub subset : List String → List String → Bool
subset xs ys = all (λ x. contains x ys) xs

-- `tuple(dict.fromkeys(xs))`: the first occurrence of each string, in order.
unfoldable pub distinct_from : List String → List String → List String
distinct_from seen [] = []
distinct_from seen (x ∷ xs) =
    let rest = distinct_from seen xs in
    let new = x ∷ distinct_from (x ∷ seen) xs in if contains x seen then rest else new

unfoldable pub from_keys : List String → List String
unfolding distinct_from
from_keys xs = distinct_from [] xs

-- `len(set(xs)) != len(xs)`
unfoldable pub has_duplicates : List String → Bool
unfolding from_keys
has_duplicates xs = not (eqb (length (from_keys xs)) (length xs))

module _ {A : Type 0} where
  pub any-false_of_In :
      (p : A → Bool) (xs : List A) (a : A) → any p xs ≡ false → In a xs → p a ≡ false
  any-false_of_In p [] a h m = elim m [ ]
  any-false_of_In p (x ∷ xs) a h (inl e) = rw e (or-false_parts (p x) (any p xs) h).0
  any-false_of_In p (x ∷ xs) a h (inr m) =
      any-false_of_In p xs a (or-false_parts (p x) (any p xs) h).1 m

-- The test `contains` and membership.
pub contains_of_In : (a : String) (xs : List String) → In a xs → contains a xs ≡ true
contains_of_In a [] m = elim m [ ]
contains_of_In a (x ∷ xs) (inl e) = rw (← e) (rw (eq_refl a))
contains_of_In a (x ∷ xs) (inr m) = ground (arith, contains_of_In a xs m)

pub In-contains : (a : String) (xs : List String) → contains a xs ≡ true → In a xs
In-contains a [] h = cc
In-contains a (x ∷ xs) h = elim (Bool-cases (x == a)) [
  | inl same ↦ inl (sym ((eq_iff x a).0 same))
  | inr other ↦ inr (In-contains a xs (rw other at h))
]
