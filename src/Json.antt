-- ===== src/Json.antt =====
-- JSON values as Python's json module decodes them: dict, list, str, int, float, bool, None. A dict
-- keeps its insertion order. A float keeps its printed text, and is compared by it.
pub mod Laws
use vibe_coding_harness.Prelude.{
  ℕ, zero, suc, String, Bool, true, false, not, ◌&&◌, Option, none, some, List, [], ◌∷◌, map,
  length, all, contains, is_empty, ◌==◌, eqb, if◌then◌else◌,
}

-- `negsuc n` is -(n + 1).
pub data ℤ : Type 0 where
  pos : ℕ → ℤ
  negsuc : ℕ → ℤ

mutual
  pub data Json : Type 0 where
    null : Json
    bool : Bool → Json
    int : ℤ → Json
    float : String → Json
    str : String → Json
    list : Items → Json
    dict : Fields → Json

  pub data Items : Type 0 where
    nil : Items
    cons : Json → Items → Items

  pub data Fields : Type 0 where
    end : Fields
    field : String → Json → Fields → Fields

abbrev pub items : Items → List Json
items nil = []
items (cons v vs) = v ∷ items vs

abbrev pub of_items : List Json → Items
of_items [] = nil
of_items (v ∷ vs) = cons v (of_items vs)

abbrev pub entries : Fields → List (String × Json)
entries end = []
entries (field k v d) = (k, v) ∷ entries d

abbrev pub keys : Fields → List String
keys end = []
keys (field k v d) = k ∷ keys d

-- `d.get(k)`, and `d[k] = v`, which keeps the place of a key that is there.
unfoldable pub get : String → Fields → Option Json
get k end = none
get k (field j v d) = if j == k then some v else get k d

unfoldable pub put : String → Json → Fields → Fields
put k v end = field k v end
put k v (field j w d) = if j == k then field j v d else field j w (put k v d)

-- `d.get(k, default)`
unfoldable pub get_or : String → Json → Fields → Json
unfolding get
get_or k default d = elim (get k d) [ none ↦ default | some v ↦ v ]

-- `None` for a missing key: `d.get(k)` as a value.
unfoldable pub get_value : String → Fields → Json
unfolding get_or
get_value k d = get_or k null d

-- `set(d) == expected`, for the literal sets of the program.
unfoldable pub has_exact_keys : List String → Fields → Bool
has_exact_keys expected d =
    all (λ k. contains k expected) (keys d) && all (λ k. contains k (keys d)) expected

abbrev ℤ_eq : ℤ → ℤ → Bool
ℤ_eq (pos m) (pos n) = eqb m n
ℤ_eq (negsuc m) (negsuc n) = eqb m n
ℤ_eq _ _ = false

-- `True` is 1 and `False` is 0 to Python's `==`.
abbrev of_bool : Bool → ℤ
of_bool true = pos 1
of_bool false = pos 0

abbrev eq_number : ℤ → Json → Bool
eq_number m (int n) = ℤ_eq m n
eq_number m (bool b) = ℤ_eq m (of_bool b)
eq_number m _ = false

-- Python's `==` on values: lists by their items, dicts by their entries in any order.
unfoldable mutual
  unfolding get

  pub eq : Json → Json → Bool
  eq null null = true
  eq (bool a) w = eq_number (of_bool a) w
  eq (int m) w = eq_number m w
  eq (float a) (float b) = a == b
  eq (str a) (str b) = a == b
  eq (list xs) (list ys) = eq_items xs ys
  eq (dict xs) (dict ys) = eqb (length (keys xs)) (length (keys ys)) && eq_fields xs ys
  eq _ _ = false

  pub eq_items : Items → Items → Bool
  eq_items nil nil = true
  eq_items (cons x xs) (cons y ys) = eq x y && eq_items xs ys
  eq_items _ _ = false

  pub eq_fields : Fields → Fields → Bool
  eq_fields end d = true
  eq_fields (field k v xs) d = elim (get k d) [ none ↦ false | some w ↦ eq v w ] && eq_fields xs d

-- `bool(v)`. A float is false where it prints as a zero.
unfoldable pub truthy : Json → Bool
truthy null = false
truthy (bool b) = b
truthy (int n) = not (ℤ_eq n (pos 0))
truthy (float s) = not (s == "0.0") && not (s == "-0.0")
truthy (str s) = not (s == "")
truthy (list xs) = not (is_empty (items xs))
truthy (dict d) = not (is_empty (keys d))

abbrev pub is_null : Json → Bool
is_null null = true
is_null _ = false

abbrev pub as_dict : Json → Option Fields
as_dict (dict d) = some d
as_dict _ = none

abbrev pub as_list : Json → Option (List Json)
as_list (list xs) = some (items xs)
as_list _ = none

abbrev pub as_str : Json → Option String
as_str (str s) = some s
as_str _ = none

-- `isinstance(v, …)`
abbrev pub is_dict : Json → Bool
is_dict (dict d) = true
is_dict _ = false

abbrev pub is_list : Json → Bool
is_list (list xs) = true
is_list _ = false

abbrev pub is_str : Json → Bool
is_str (str s) = true
is_str _ = false

-- `v == "word"`
abbrev pub is_word : String → Json → Bool
is_word w (str s) = s == w
is_word w _ = false

-- `del d[k]`, for a key that is there.
unfoldable pub remove : String → Fields → Fields
remove k end = end
remove k (field j v d) = if j == k then remove k d else field j v (remove k d)
