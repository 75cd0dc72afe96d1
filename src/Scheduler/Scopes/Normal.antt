-- ===== src/Scheduler/Scopes/Normal.antt =====
-- `normalize_scope` accepts only scopes that are canonical already, and where it raises IndexError.
use Prim.Native.Char.{code}
use Prim.Native.String
use text.Mathlib.TextEquality.{Char-path}
use text.Mathlib.TextLemmas.{cons-append, append-nil}
use vibe_coding_harness.Prelude.{
  String, Bool, true, false, ◌≡◌, refl, sym, ap, ◌∙◌, inl, inr, arith, eq_iff, ◌==◌, Bool-cases,
  eqb_iff, if◌then◌else◌, List, ok, err, [], ◌∷◌, past_reject_if, error_past_reject_if, >>=-eq-err,
  ◌>>=◌, ◌>>◌, >>=-eq-ok, reject_if, index_error, map_result, ◌↔◌,
}
use vibe_coding_harness.Prelude.Text.{ends_with_slash, drop_last}
use vibe_coding_harness.Prelude.PosixPath.{as_posix, first_part}
use vibe_coding_harness.Scheduler.Scopes.{
  normalize_scope, normalize_general, normalize_relative, check_parts, malformed, undirected,
}

-- A text that ends with a slash is its beginning and the slash.
drop_last-append : (v : String) → ends_with_slash v ≡ true → String.◌++◌ (drop_last v) "/" ≡ v
unfolding ends_with_slash drop_last
drop_last-append String.[] h = cc
drop_last-append (String.◌∷◌ c String.[]) h =
    ap (λ x. String.◌∷◌ x "") (Char-path _ c (sym ((eqb_iff (code c) 47).0 h)))
drop_last-append (String.◌∷◌ c (String.◌∷◌ d s)) h =
    cons-append c (drop_last (String.◌∷◌ d s)) "/"
    ∙ ap (λ x. String.◌∷◌ c x) (drop_last-append (String.◌∷◌ d s) h)

check_parts-canonical : (raw : String) → check_parts raw ≡ ok false → as_posix raw ≡ raw
unfolding check_parts
check_parts-canonical raw h = ground (arith, eq_iff raw (as_posix raw))

normalize_relative-canonical :
    (raw v : String) (directory : Bool)
    → normalize_relative raw directory ≡ ok v
    → v ≡ String.◌++◌ raw (if directory then "/" else "")
unfolding normalize_relative
normalize_relative-canonical raw v directory h =
    let (invalid, checked, rest) =
      >>=-eq-ok (check_parts raw)
        (λ invalid.
          reject_if invalid "invalid path scope"
          >> ok (String.◌++◌ (as_posix raw) (if directory then "/" else "")))
        h in
    elim (Bool-cases invalid) [
      | inl bad ↦ let failure = rw bad at rest in cc
      | inr good ↦
          let canonical = check_parts-canonical raw (rw good at checked) in
          let value = rw (good, canonical) at rest in cc
    ]

normalize_general-canonical : (value w : String) → normalize_general value ≡ ok w → w ≡ value
unfolding normalize_general
normalize_general-canonical value w h =
    let (_, h') =
      past_reject_if (malformed value) "invalid path scope"
        (normalize_relative (undirected value) (ends_with_slash value)) h in
    elim (Bool-cases (ends_with_slash value)) [
      | inl d ↦
          normalize_relative-canonical (drop_last value) w true (rw (d, undirected) at h')
          ∙ drop_last-append value d
      | inr f ↦
          normalize_relative-canonical value w false (rw (f, undirected) at h') ∙ append-nil value
    ]

-- A scope that is accepted is canonical: normalisation gives it back as it was written.
pub normalize_scope-canonical : (value w : String) → normalize_scope value ≡ ok w → w ≡ value
unfolding normalize_scope
normalize_scope-canonical value w h = elim (Bool-cases (value == ".")) [
  | inl root ↦ let e = rw root at h in cc
  | inr other ↦ normalize_general-canonical value w (rw other at h)
]

pub map_normalize-canonical :
    (scopes normalized : List String)
    → map_result normalize_scope scopes ≡ ok normalized
    → normalized ≡ scopes
map_normalize-canonical [] normalized h = cc
map_normalize-canonical (s ∷ scopes) normalized h =
    let (w, first, h') =
      >>=-eq-ok (normalize_scope s) (λ y. map_result normalize_scope scopes >>= λ ys. ok (y ∷ ys))
        h in
    let (ws, others, h'') = >>=-eq-ok (map_result normalize_scope scopes) (λ ys. ok (w ∷ ys)) h' in
    cc (normalize_scope-canonical s w first, map_normalize-canonical scopes ws others)

check_parts-index_error : (raw : String) → check_parts raw ≡ err index_error → raw ≡ "."
unfolding check_parts first_part as_posix
check_parts-index_error raw h = ground (arith, eq_iff raw (as_posix raw))

normalize_relative-index_error :
    (raw : String) (directory : Bool)
    → normalize_relative raw directory ≡ err index_error
    → raw ≡ "."
unfolding normalize_relative
normalize_relative-index_error raw directory h = elim (>>=-eq-err (check_parts raw) _ h) [
  | inl e ↦ check_parts-index_error raw e
  | inr (invalid, _, rest) ↦ let (_, stuck) = error_past_reject_if invalid _ _ (λ x. x) rest in cc
]

dot_slash : (v : String) → drop_last v ≡ "." → ends_with_slash v ≡ true → v ≡ "./"
dot_slash v e d = sym (drop_last-append v d) ∙ ap (λ x. String.◌++◌ x "/") e

normalize_general-index_error :
    (value : String)
    → (value == ".") ≡ false
    → normalize_general value ≡ err index_error
    → value ≡ "./"
unfolding normalize_general
normalize_general-index_error value other h =
    let (_, h') =
      error_past_reject_if (malformed value) "invalid path scope"
        (normalize_relative (undirected value) (ends_with_slash value)) (λ x. x) h in
    elim (Bool-cases (ends_with_slash value)) [
      | inl d ↦
          dot_slash value
            (normalize_relative-index_error (drop_last value) true (rw (d, undirected) at h')) d
      | inr f ↦
          let dot = normalize_relative-index_error value false (rw (f, undirected) at h') in
          cc (other, (eq_iff value ".").1 dot)
    ]

-- `./` is the one scope at which the code reads the first part of a path that has none.
pub normalize_scope-index_error_iff :
    (value : String) → (normalize_scope value ≡ err index_error) ↔ (value ≡ "./")
unfolding normalize_scope
normalize_scope-index_error_iff value = (
  λ h. elim (Bool-cases (value == ".")) [
    | inl root ↦ let e = rw root at h in cc
    | inr other ↦ normalize_general-index_error value other (rw other at h)
  ],
  λ e. rw e refl,
)
