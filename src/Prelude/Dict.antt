-- ===== src/Prelude/Dict.antt =====
-- A Python dict with string keys and values of one type, in insertion order.
use Prim.Native.String.{String}
use mathlib.Core.Option.{Option, none, some}
use mathlib.Core.List.{List, [], ◌∷◌}
use text.Mathlib.Text.{◌==◌}
use vibe_coding_harness.Prelude.Tests.{if◌then◌else◌}

module _ {κ} {Value : Type κ} where
  -- `d[key] = value`: a key that is there keeps its place.
  unfoldable pub insert : String → Value → List (String × Value) → List (String × Value)
  insert key value [] = List.◌∷◌ (key, value) []
  insert key value (entry ∷ entries) =
      if entry.0 == key then (entry.0, value) ∷ entries else entry ∷ insert key value entries

  -- `d.get(key)`
  unfoldable pub lookup : String → List (String × Value) → Option Value
  lookup key [] = none
  lookup key (entry ∷ entries) = if entry.0 == key then some entry.1 else lookup key entries
