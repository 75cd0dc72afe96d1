-- ===== src/Config/Commands.antt =====
-- The verification command catalog of src/vibe/config.py: which commands a list of IDs names.
use vibe_coding_harness.Prelude.{
  String, Option, none, some, List, [], ◌∷◌, ◌++◌, Result, ok, ◌>>◌, expect, reject_if, contract,
  map_result, has_duplicates, from_keys, ◌==◌, if◌then◌else◌,
}
use vibe_coding_harness.Models.Contracts.{CommandSpec, FrozenRunConfig}

-- `{command.id: command for command in catalog}[command_id]`: the last one of an ID stays.
unfoldable pub find_command : String → List CommandSpec → Option CommandSpec
find_command id [] = none
find_command id (c ∷ catalog) = elim (find_command id catalog) [
  | none ↦ if c.id == id then some c else none
  | some later ↦ some later
]

unfoldable pub resolve_command_ids : FrozenRunConfig → List String → Result (List CommandSpec)
unfolding find_command has_duplicates
resolve_command_ids config ids = do
  reject_if (has_duplicates ids) "command IDs must be unique"
  map_result (λ id. expect (find_command id config.command_catalog) (contract "unknown command ID"))
      ids

unfoldable pub effective_command_ids : FrozenRunConfig → List String → Result (List String)
unfolding resolve_command_ids from_keys
effective_command_ids config additions = do
  resolve_command_ids config additions
  let combined = from_keys (config.required_command_ids ++ additions)
  resolve_command_ids config combined
  ok combined
