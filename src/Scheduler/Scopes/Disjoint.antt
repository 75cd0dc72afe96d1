-- ===== src/Scheduler/Scopes/Disjoint.antt =====
-- The overlap test on whole scope lists: what keeps two tasks out of each other's files.
use vibe_coding_harness.Prelude.{
  String, Bool, true, false, ◌≡◌, sym, ◌∙◌, List, In, any, any-false_of_In, ok, >>=-eq-ok,
  map_result, ok-injective, Bool-cases, inl, inr,
}
use vibe_coding_harness.Scheduler.Scopes.{
  normalize_scope, path_matches_scope, scope_pair_overlaps, scopes_overlap,
}
use vibe_coding_harness.Scheduler.Scopes.Coverage.{common_path-overlaps}
use vibe_coding_harness.Scheduler.Scopes.Normal.{map_normalize-canonical}

abbrev any_pair : List String → List String → Bool
any_pair left right = any (λ first. any (scope_pair_overlaps first) right) left

pairs_same :
    (left right ls rs : List String) (answer : Bool)
    → ls ≡ left
    → rs ≡ right
    → any_pair ls rs ≡ answer
    → any_pair left right ≡ answer
pairs_same left right ls rs answer l r h = rw (l, r) at h

-- An answer of the overlap test is that of the pairs of scopes as they were written.
scopes_overlap-pairs :
    (left right : List String) (answer : Bool)
    → scopes_overlap left right ≡ ok answer
    → any_pair left right ≡ answer
unfolding scopes_overlap
scopes_overlap-pairs left right answer h =
    let (ls, l, h') = >>=-eq-ok (map_result normalize_scope left) _ h in
    let (rs, r, h'') = >>=-eq-ok (map_result normalize_scope right) _ h' in
    pairs_same left right ls rs answer (map_normalize-canonical left ls l)
      (map_normalize-canonical right rs r) (ok-injective h'')

not_both :
    (path a b : String)
    → path_matches_scope path a ≡ true
    → scope_pair_overlaps a b ≡ false
    → path_matches_scope path b ≡ false
not_both path a b within_a apart = elim (Bool-cases (path_matches_scope path b)) [
  | inl within_b ↦ let clash = sym (common_path-overlaps path a b within_a within_b) ∙ apart in cc
  | inr outside ↦ outside
]

-- If the overlap test keeps two scope lists apart, no path is matched by a scope of each.
pub scopes_overlap_sound :
    (left right : List String) (a b path : String)
    → scopes_overlap left right ≡ ok false
    → In a left
    → In b right
    → path_matches_scope path a ≡ true
    → path_matches_scope path b ≡ false
scopes_overlap_sound left right a b path h in_left in_right within_a =
    let row = any-false_of_In _ left a (scopes_overlap-pairs left right false h) in_left in
    let apart = any-false_of_In _ right b row in_right in not_both path a b within_a apart
