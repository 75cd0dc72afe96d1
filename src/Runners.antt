-- ===== src/Runners.antt =====
-- The ledger of dispatches of src/vibe/runners/__init__.py: the changes of the state by which an Attempt gets, keeps
-- and loses its token. The calls that start and watch a provider are not here.
pub mod Ledger
use Prim.Native.String
use vibe_coding_harness.Prelude.{
  ℕ, suc, String, Bool, true, false, not, ◌&&◌, ◌||◌, ◌+◌, Option, none, some, List, [], ◌∷◌, ◌++◌,
  map, Result, ok, err, Error, ◌>>=◌, ◌>>◌, expect, reject_if, contract, conflict, key_error, eqb,
  contains, ◌==◌, if◌then◌else◌,
}
use vibe_coding_harness.Prelude.Dict.{lookup}
use vibe_coding_harness.Prelude.Decimal.{decimal_3}
use vibe_coding_harness.Json.{
  ℤ, pos, Json, Fields, null, str, list, dict, of_items, keys, get_value, put, remove, as_dict,
  is_null, is_word, eq,
}
use vibe_coding_harness.Models.Contracts.{ArtifactRef, PromptRef, artifact_as_dict, fields, nat}
use vibe_coding_harness.Models.Validation.Basic.{item}
use vibe_coding_harness.Models.Access.{dict_item, list_item, modify_item}
use vibe_coding_harness.Store.{Platform, Disk}
use vibe_coding_harness.Store.Transactions.{
  Artifacts, References, Mutate, conflict_if, revision_of, load, transact,
}

pub record RoleInvocation : Type 0 where
  pub role : String
  pub task_id : Option String
  pub operation_id : String
  pub attempt_no : ℕ
  pub attempt_created_at : String
  pub attempt_token : String
  pub provider_retry_no : ℕ
  pub expected_base : String
  pub branch : Option String
  pub worktree : String
  pub target_root : String
  pub run_root : String
  pub prompt_body : String
  pub prompt_versions : List PromptRef
  pub schema_body : String
  pub preflight_body : String
  pub authorized_command_ids : List String
  pub required_command_ids : List String
  pub config_sha256 : String
  pub codex_version : String
  pub execution_policy_sha256 : String
  pub sandbox : String
  pub artifact_prefix : String
  pub timeout_seconds : ℕ

-- src/vibe/providers/base.py
pub record ProviderHandle : Type 0 where
  pub adapter : String
  pub attempt_token : String
  pub pid : ℕ
  pub process_start_identity : String
  pub process_group : ℕ
  pub child_pid : ℕ
  pub child_process_start_identity : String
  pub child_process_group : ℕ
  pub codex_version : String
  pub execution_policy_sha256 : String
  pub launch_path : String
  pub stdout_path : String
  pub stderr_path : String
  pub exit_path : String
  pub result_path : String

unfoldable pub as_state_dict : ProviderHandle → Json
as_state_dict h = dict (
    fields (
      ("adapter", str h.adapter)
      ∷ ("attempt_token", str h.attempt_token)
      ∷ ("pid", nat h.pid)
      ∷ ("process_start_identity", str h.process_start_identity)
      ∷ ("process_group", nat h.process_group)
      ∷ ("child_pid", nat h.child_pid)
      ∷ ("child_process_start_identity", str h.child_process_start_identity)
      ∷ ("child_process_group", nat h.child_process_group)
      ∷ []))

-- `PromptRef.as_dict` of src/vibe/models.py.
prompt_as_dict : PromptRef → Json
prompt_as_dict p =
    dict (fields (("id", str p.id) ∷ ("version", nat p.version) ∷ ("sha256", str p.sha256) ∷ []))

optional_str : Option String → Json
optional_str none = null
optional_str (some s) = str s

unfoldable pub provider_prefix : RoleInvocation → String
unfolding decimal_3
provider_prefix i = String.◌++◌ i.artifact_prefix (
    String.◌++◌ "/providers/"
      (String.◌++◌ (decimal_3 (i.provider_retry_no + 1)) (String.◌++◌ "-" i.attempt_token)))

below : RoleInvocation → String → Json
unfolding provider_prefix
below i leaf = str (String.◌++◌ (provider_prefix i) leaf)

-- The entry that a new dispatch gets.
unfoldable pub new_dispatch :
    ℕ → RoleInvocation → ArtifactRef → ArtifactRef → ArtifactRef → ArtifactRef → Fields
unfolding optional_str provider_prefix artifact_as_dict prompt_as_dict below
new_dispatch revision i prompt schema preflight request = fields (
    ("attempt_token", str i.attempt_token)
    ∷ ("role", str i.role)
    ∷ ("task_id", optional_str i.task_id)
    ∷ ("operation_id", str i.operation_id)
    ∷ ("attempt_no", nat i.attempt_no)
    ∷ ("attempt_created_at", str i.attempt_created_at)
    ∷ ("provider_retry_no", nat i.provider_retry_no)
    ∷ ("expected_base", str i.expected_base)
    ∷ ("branch", optional_str i.branch)
    ∷ ("worktree", str i.worktree)
    ∷ ("provider_prefix", str (provider_prefix i))
    ∷ ("prompt", artifact_as_dict prompt)
    ∷ ("schema", artifact_as_dict schema)
    ∷ ("preflight", artifact_as_dict preflight)
    ∷ ("prompt_versions", list (of_items (map prompt_as_dict i.prompt_versions)))
    ∷ ("request", artifact_as_dict request)
    ∷ ("launch_path", below i "/launch.json")
    ∷ ("stdout_path", below i "/stdout.log")
    ∷ ("stderr_path", below i "/stderr.log")
    ∷ ("exit_path", below i "/exit.json")
    ∷ ("result_path", below i "/result.json")
    ∷ ("launch", null)
    ∷ ("stdout", null)
    ∷ ("stderr", null)
    ∷ ("exit", null)
    ∷ ("result", null)
    ∷ ("provider_attempts", list (of_items []))
    ∷ ("provider_handle", null)
    ∷ ("prepared_revision", nat (suc revision))
    ∷ [])

unfoldable pub add_pending_dispatch :
    Fields → RoleInvocation → ArtifactRef → ArtifactRef → ArtifactRef → ArtifactRef → Result Fields
unfolding dict_item revision_of new_dispatch
add_pending_dispatch current i prompt schema preflight request = do
  pending ← dict_item "pending_dispatches" current
  reject_if (contains i.attempt_token (keys pending)) "attempt token already prepared"
  revision ← revision_of current
  ok (
      put "pending_dispatches"
        (dict (
          put i.attempt_token (dict (new_dispatch revision i prompt schema preflight request))
            pending))
        current)

-- `v not in (None, expected)`
other_than : Json → Json → Bool
unfolding eq
other_than expected v = not (is_null v) && not (eq v expected)

-- The dispatch of a token, or the conflict that the caller raises for a missing one.
unfoldable pub pending_of : String → String → Fields → Result Fields
unfolding dict_item get_value
pending_of message token current = dict_item "pending_dispatches" current >>= λ pending.
    expect (as_dict (get_value token pending)) (conflict message)

pub put_pending : String → Fields → Fields → Result Fields
unfolding modify_item
put_pending token d current =
    modify_item "pending_dispatches" (λ pending. ok (put token (dict d) pending)) current

is_live : Json → Bool
is_live v = is_word "STARTING" v || is_word "RUNNING" v

-- The Worker's Attempt of the task that a dispatch names, changed; `missing` is raised where there is no such task.
unfoldable pub change_active :
    Error → String → Json → (Fields → Result Fields) → Fields → Result Fields
unfolding dict_item get_value item
change_active missing message (str task_id) change current = do
  tasks ← dict_item "tasks" current
  task ← expect (as_dict (get_value task_id tasks)) missing
  value ← item "active_attempt" task
  active ← expect (as_dict value) (conflict message)
  changed ← change active
  ok (
      put "tasks" (dict (put task_id (dict (put "active_attempt" (dict changed) task)) tasks))
        current)
change_active missing message _ change current = err missing
