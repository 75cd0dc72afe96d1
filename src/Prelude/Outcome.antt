-- ===== src/Prelude/Outcome.antt =====
-- Errors as values. `contract` is vibe.models.ContractError; the other three are Python's own.
-- A message keeps its literal words; what an f-string puts in is left out.
use Prim.Native.String.{String}
use mathlib.Core.Path.{◌≡◌, refl, subst, ap}
use mathlib.Core.Logic.{◌⊎◌, inl, inr}
use mathlib.Core.Bool.{Bool, true, false}
use mathlib.Core.Option.{Option, none, some}
use mathlib.Core.List.{List, [], ◌∷◌}

pub data Error : Type 0 where
  contract : (message : String) → Error
  -- vibe.models.StateConflictError, and vibe.integrator.IntegrationRejected.
  conflict : (message : String) → Error
  rejected : (message : String) → Error
  key_error value_error index_error type_error : Error
  -- The bound of a loop ran out: no error of the program.
  out_of_rounds : Error

-- What a call gives: an exception that it raises, or its value.
pub data Result {κ} (Value : Type κ) : Type κ where
  err : (raised : Error) → Result Value
  ok : (value : Value) → Result Value

-- `if test: raise ContractError(message)`
abbrev pub reject_if : Bool → String → Result (Unit {0})
reject_if true message = err (contract message)
reject_if false message = ok tt

-- A value that must be there, with the error otherwise.
abbrev pub expect {ℓ} : {A : Type ℓ} → Option A → Error → Result A
expect none e = err e
expect (some a) e = ok a

-- Statements in a row: an exception leaves out the rest.
infixl 5 ◌>>=◌ ◌>>◌
abbrev pub ◌>>=◌ {κ ι} :
    {Value : Type κ} {Next : Type ι} → Result Value → (Value → Result Next) → Result Next
err raised >>= rest = err raised
ok value >>= rest = rest value

abbrev pub ◌>>◌ {κ ι} : {Value : Type κ} {Next : Type ι} → Result Value → Result Next → Result Next
first >> rest = first >>= λ _. rest

-- A comprehension whose body may raise, and a loop that only checks.
abbrev pub map_result {ℓ κ} : {A : Type ℓ} {B : Type κ} → (A → Result B) → List A → Result (List B)
map_result f [] = ok []
map_result f (x ∷ xs) = f x >>= λ y. map_result f xs >>= λ ys. ok (y ∷ ys)

abbrev pub each {ℓ} : {A : Type ℓ} → (A → Result (Unit {0})) → List A → Result (Unit {0})
each f [] = ok tt
each f (x ∷ xs) = f x >> each f xs

-- A block that ends well, taken apart.
module _ {κ ι} {Value : Type κ} {Next : Type ι} where
  pub >>=-eq-ok :
      (first : Result Value) (rest : Value → Result Next) {end : Next}
      → (first >>= rest) ≡ ok end
      → (value : Value) × (first ≡ ok value) × (rest value ≡ ok end)
  >>=-eq-ok (err raised) rest h = cc
  >>=-eq-ok (ok value) rest h = (value, refl, h)

  pub >>-eq-ok :
      (first : Result Value) (rest : Result Next) {end : Next}
      → (first >> rest) ≡ ok end
      → (rest ≡ ok end)
  >>-eq-ok (err raised) rest h = cc
  >>-eq-ok (ok value) rest h = h

  pub >>=-eq-err :
      (first : Result Value) (rest : Value → Result Next) {raised : Error}
      → (first >>= rest) ≡ err raised
      → (first ≡ err raised) ⊎ ((value : Value) × (first ≡ ok value) × (rest value ≡ err raised))
  >>=-eq-err (err raised) rest h = inl (cc)
  >>=-eq-err (ok value) rest h = inr (value, refl, h)

pub reject_if-ok : (test : Bool) (message : String) → reject_if test message ≡ ok tt → test ≡ false
reject_if-ok true message h = cc
reject_if-ok false message h = refl

-- What stands behind a check that lets a result, or another error, through.
pub past_reject_if {ℓ} :
    {A : Type ℓ} (test : Bool) (message : String) (k : Result A) {r : A}
    → (reject_if test message >> k) ≡ ok r
    → (test ≡ false) × (k ≡ ok r)
past_reject_if true message k h = cc
past_reject_if false message k h = (refl, h)

abbrev pub IsContract : Error → Type 0
IsContract (contract message) = Unit
IsContract _ = ⊥

abbrev OnErr {ℓ} : {A : Type ℓ} → (Error → Type 0) → Result A → Type 0
OnErr P (ok a) = Unit
OnErr P (err e) = P e

pub error_past_reject_if {ℓ} :
    {A : Type ℓ} (test : Bool) (message : String) (k : Result A) {e : Error}
    → ¬ IsContract e
    → (reject_if test message >> k) ≡ err e
    → (test ≡ false) × (k ≡ err e)
error_past_reject_if true message k other h = absurd (other (subst (OnErr IsContract) h tt))
error_past_reject_if false message k other h = (refl, h)

pub ok-injective {ℓ} : {A : Type ℓ} {a b : A} → ok a ≡ ok b → a ≡ b
ok-injective e = cc

-- A value that was there.
pub expect-some {ℓ} :
    {A : Type ℓ} (o : Option A) (e : Error) (a : A) → expect o e ≡ ok a → o ≡ some a
expect-some none e a h = cc
expect-some (some b) e a h = ap some (ok-injective h)

-- One statement of a block that ends well, for the proof about what follows it.
pub next :
    {A B P : Type 0} (first : Result A) (rest : A → Result B) {end : B}
    → (first >>= rest) ≡ ok end
    → ((a : A) → first ≡ ok a → rest a ≡ ok end → P)
    → P
next (err e) rest h k = cc
next (ok a) rest h k = k a refl h
