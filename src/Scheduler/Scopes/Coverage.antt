-- ===== src/Scheduler/Scopes/Coverage.antt =====
-- What the overlap test means: two scopes that it keeps apart have no path in common.
use Prim.Native.Char.{code}
use Prim.Native.String.{[], ◌∷◌}
use vibe_coding_harness.Prelude.{
  String, true, ◌&&◌, ◌≡◌, refl, sym, ap, ◌∙◌, ◌⊎◌, inl, inr, arith, eq_iff, ◌==◌, Bool-cases,
  and-true_parts, eqb_iff,
}
use vibe_coding_harness.Prelude.Text.{starts_with, ends_with_slash, rstrip_slash, is_slash}
use vibe_coding_harness.Scheduler.Scopes.{path_matches_scope, scope_pair_overlaps}
use text.Mathlib.TextEquality.{Char-path}

-- Two prefixes of one text: one is a prefix of the other.
prefixes_comparable :
    (p f g : String)
    → starts_with p f ≡ true
    → starts_with p g ≡ true
    → (starts_with g f ≡ true) ⊎ (starts_with f g ≡ true)
unfolding starts_with
prefixes_comparable p [] g a b = inl refl
prefixes_comparable p (c ∷ f) [] a b = inr refl
prefixes_comparable [] (c ∷ f) (d ∷ g) a b = cc
prefixes_comparable (x ∷ p) (c ∷ f) (d ∷ g) a b = ground (arith, prefixes_comparable p f g)

starts_with-empty : (f : String) → starts_with "" f ≡ true → f ≡ ""
unfolding starts_with
starts_with-empty [] a = refl
starts_with-empty (c ∷ f) a = cc

-- A text with a prefix, both without their slashes at the end.
starts_with-rstrip :
    (g f : String)
    → starts_with g f ≡ true
    → (rstrip_slash g ≡ rstrip_slash f) ⊎ (starts_with (rstrip_slash g) f ≡ true)
unfolding starts_with rstrip_slash
starts_with-rstrip g [] a = inr refl
starts_with-rstrip [] (c ∷ f) a = cc
starts_with-rstrip (d ∷ g) (c ∷ f) a =
    let (h, t) = and-true_parts _ _ a in
    let same = Char-path d c ((eqb_iff (code d) (code c)).0 h) in
    elim (starts_with-rstrip g f t) [
      | inl e ↦ inl (rw (same, e))
      | inr r ↦ elim (Bool-cases (is_slash d && rstrip_slash g == "")) [
        | inl gone ↦
            let (slash, nothing) = and-true_parts (is_slash d) (rstrip_slash g == "") gone in
            let empty = (eq_iff (rstrip_slash g) "").0 nothing in
            let f_empty = starts_with-empty f (rw empty at r) in
            inl (rw (f_empty, gone) (rw (rw same at slash)))
        | inr kept ↦ inr (rw kept (rw (h, r)))
      ]
    ]

-- A scope below a directory scope, in the two ways in which the overlap test sees it.
below_directory :
    (f g : String)
    → ends_with_slash f ≡ true
    → starts_with g f ≡ true
    → (rstrip_slash g ≡ rstrip_slash f) ⊎ (path_matches_scope (rstrip_slash g) f ≡ true)
unfolding path_matches_scope
below_directory f g directory inside = elim (starts_with-rstrip g f inside) [
  | inl e ↦ inl e
  | inr r ↦ inr (ground arith)
]

-- How a path lies in a scope that is not the whole repository.
within :
    (p f : String)
    → path_matches_scope p f ≡ true
    → (f ≡ ".") ⊎ ((ends_with_slash f ≡ true) × (starts_with p f ≡ true)) ⊎ (p ≡ f)
unfolding path_matches_scope
within p f m = ground (arith, eq_iff f ".", eq_iff p f)

-- The four alternatives of the overlap test, as reasons for its answer.
by_root : (f g : String) → (f ≡ ".") ⊎ (g ≡ ".") → scope_pair_overlaps f g ≡ true
unfolding scope_pair_overlaps
by_root f g h = ground (arith, eq_iff f ".", eq_iff g ".")

by_same : (f g : String) → rstrip_slash f ≡ rstrip_slash g → scope_pair_overlaps f g ≡ true
unfolding scope_pair_overlaps
by_same f g h = ground (arith, eq_iff (rstrip_slash f) (rstrip_slash g))

by_first :
    (f g : String)
    → ends_with_slash f ≡ true
    → path_matches_scope (rstrip_slash g) f ≡ true
    → scope_pair_overlaps f g ≡ true
unfolding scope_pair_overlaps
by_first f g d m = ground arith

by_second :
    (f g : String)
    → ends_with_slash g ≡ true
    → path_matches_scope (rstrip_slash f) g ≡ true
    → scope_pair_overlaps f g ≡ true
unfolding scope_pair_overlaps
by_second f g d m = ground arith

file_below :
    (p f g : String)
    → ends_with_slash f ≡ true
    → starts_with p f ≡ true
    → p ≡ g
    → scope_pair_overlaps f g ≡ true
file_below p f g d s e = elim (below_directory f g d (rw e at s)) [
  | inl same ↦ by_same f g (sym same)
  | inr m ↦ by_first f g d m
]

file_above :
    (p f g : String)
    → p ≡ f
    → ends_with_slash g ≡ true
    → starts_with p g ≡ true
    → scope_pair_overlaps f g ≡ true
file_above p f g e d s = elim (below_directory g f d (rw e at s)) [
  | inl same ↦ by_same f g same
  | inr m ↦ by_second f g d m
]

two_directories :
    (p f g : String)
    → ends_with_slash f ≡ true
    → starts_with p f ≡ true
    → ends_with_slash g ≡ true
    → starts_with p g ≡ true
    → scope_pair_overlaps f g ≡ true
two_directories p f g df sf dg sg = elim (prefixes_comparable p f g sf sg) [
  | inl g_below ↦ file_below g f g df g_below refl
  | inr f_below ↦ file_above f f g refl dg f_below
]

-- Two scopes that hold one path overlap.
pub common_path-overlaps :
    (p f g : String)
    → path_matches_scope p f ≡ true
    → path_matches_scope p g ≡ true
    → scope_pair_overlaps f g ≡ true
common_path-overlaps p f g mf mg = elim (within p f mf) [
  | inl root ↦ by_root f g (inl root)
  | inr (inl (df, sf)) ↦ elim (within p g mg) [
    | inl root ↦ by_root f g (inr root)
    | inr (inl (dg, sg)) ↦ two_directories p f g df sf dg sg
    | inr (inr e) ↦ file_below p f g df sf e
  ]
  | inr (inr e) ↦ elim (within p g mg) [
    | inl root ↦ by_root f g (inr root)
    | inr (inl (dg, sg)) ↦ file_above p f g e dg sg
    | inr (inr e') ↦ by_same f g (ap rstrip_slash (sym e ∙ e'))
  ]
]
