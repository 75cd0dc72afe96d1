-- ===== src/Models/Access.antt =====
-- Reading and changing the nested values of a state that validation has gone through: a missing key
-- is KeyError, and a value of another kind is TypeError.
use vibe_coding_harness.Prelude.{String, List, [], ◌∷◌, ◌++◌, Result, ok, ◌>>=◌, expect, type_error}
use vibe_coding_harness.Json.{Json, Fields, list, dict, of_items, put, as_dict, as_list, as_str}
use vibe_coding_harness.Models.Validation.Basic.{item}

-- `d["k"]` where a dict, a list, or a string is wanted.
unfoldable pub dict_item : String → Fields → Result Fields
unfolding item
dict_item k d = item k d >>= λ v. expect (as_dict v) type_error

unfoldable pub list_item : String → Fields → Result (List Json)
unfolding item
list_item k d = item k d >>= λ v. expect (as_list v) type_error

unfoldable pub str_item : String → Fields → Result String
unfolding item
str_item k d = item k d >>= λ v. expect (as_str v) type_error

-- A change of the dict at `d["k"]`.
unfoldable pub modify_item : String → (Fields → Result Fields) → Fields → Result Fields
unfolding dict_item
modify_item k change d = do old ← dict_item k d; new ← change old; ok (put k (dict new) d)

-- `d["k"].append(v)`
unfoldable pub append_item : String → Json → Fields → Result Fields
unfolding list_item
append_item k v d = list_item k d >>= λ xs. ok (put k (list (of_items (xs ++ v ∷ []))) d)
