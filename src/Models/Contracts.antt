-- ===== src/Models/Contracts.antt =====
-- The frozen dataclasses of src/vibe/models.py that the modelled operations use, and their
-- `as_dict`. A tuple is a List, and an integer that every parser checks to be at least 0 is a ℕ.
use vibe_coding_harness.Prelude.{
  ℕ, String, Option, none, some, List, [], ◌∷◌, map, Result, ok, reject_if, ◌>>◌, ◌==◌, not, ◌||◌,
}
use vibe_coding_harness.Json.{Json, Fields, null, int, str, list, dict, end, field, of_items, pos}
use vibe_coding_harness.Models.Status.{AttemptStatus}

-- A dict display, `{"k": v, …}`, and a list of strings as a value.
abbrev pub fields : List (String × Json) → Fields
fields [] = end
fields ((k, v) ∷ rest) = field k v (fields rest)

abbrev pub strings : List String → Json
strings xs = list (of_items (map str xs))

abbrev pub nat : ℕ → Json
nat n = int (pos n)

pub record ArtifactRef : Type 0 where
  pub path : String
  pub sha256 : String

unfoldable pub artifact_as_dict : ArtifactRef → Json
artifact_as_dict r = dict (fields (("path", str r.path) ∷ ("sha256", str r.sha256) ∷ []))

pub record PromptRef : Type 0 where
  pub id : String
  pub version : ℕ
  pub sha256 : String

pub record CommandSpec : Type 0 where
  pub id : String
  pub purpose : String
  pub argv : List String
  pub cwd : String
  pub timeout_seconds : ℕ
  pub env_allowlist : List String

unfoldable pub command_as_dict : CommandSpec → Json
command_as_dict c = dict (
    fields (
      ("id", str c.id)
      ∷ ("purpose", str c.purpose)
      ∷ ("argv", strings c.argv)
      ∷ ("cwd", str c.cwd)
      ∷ ("timeout_seconds", nat c.timeout_seconds)
      ∷ ("env_allowlist", strings c.env_allowlist)
      ∷ []))

pub record CommandAuthorization : Type 0 where
  pub mode : String
  pub source_path : Option String
  pub source_sha256 : String

abbrev optional_str : Option String → Json
optional_str none = null
optional_str (some s) = str s

unfoldable pub authorization_as_dict : CommandAuthorization → Json
authorization_as_dict a = dict (
    fields (
      ("mode", str a.mode)
      ∷ ("source_path", optional_str a.source_path)
      ∷ ("source_sha256", str a.source_sha256)
      ∷ []))

pub record FrozenRunConfig : Type 0 where
  pub provider_name : String
  pub max_workers : ℕ
  pub task_attempts : ℕ
  pub provider_retries : ℕ
  pub evidence_rounds : ℕ
  pub repair_rounds : ℕ
  pub max_plan_tasks : ℕ
  pub command_catalog : List CommandSpec
  pub required_command_ids : List String
  pub command_authorization : CommandAuthorization

unfoldable pub config_as_dict : FrozenRunConfig → Fields
unfolding command_as_dict authorization_as_dict
config_as_dict c = fields (
    ("provider", dict (fields (("name", str c.provider_name) ∷ [])))
    ∷ ("scheduler", dict (fields (("max_workers", nat c.max_workers) ∷ [])))
    ∷ (
      "limits",
      dict (
          fields (
            ("task_attempts", nat c.task_attempts)
            ∷ ("provider_retries", nat c.provider_retries)
            ∷ ("evidence_rounds", nat c.evidence_rounds)
            ∷ ("repair_rounds", nat c.repair_rounds)
            ∷ ("max_plan_tasks", nat c.max_plan_tasks)
            ∷ [])),
    )
    ∷ (
      "verification",
      dict (
          fields (
            ("command_catalog", list (of_items (map command_as_dict c.command_catalog)))
            ∷ ("required_command_ids", strings c.required_command_ids)
            ∷ ("authorization", authorization_as_dict c.command_authorization)
            ∷ [])),
    )
    ∷ [])

pub record AcceptanceCriterion : Type 0 where
  pub id : String
  pub description : String

pub record TaskContract : Type 0 where
  pub id : String
  pub objective : String
  pub worker_type : String
  pub covers : List String
  pub depends_on : List String
  pub path_scope : List String
  pub exclusive_resources : List String
  pub acceptance_checks : List String
  pub max_attempts : ℕ

pub record PlanDocument : Type 0 where
  pub schema_version : ℕ
  pub plan_version : ℕ
  pub summary : String
  pub acceptance_criteria : List AcceptanceCriterion
  pub global_verification : List String
  pub tasks : List TaskContract

pub record AttemptManifest : Type 0 where
  pub schema_version : ℕ
  pub role : String
  pub operation_id : String
  pub task_id : Option String
  pub attempt_no : ℕ
  pub attempt_token : String
  pub status : AttemptStatus
  pub created_at : String
  pub completed_at : String
  pub expected_base : String
  pub branch : Option String
  pub worktree : String
  pub preflight : Option ArtifactRef
  pub prompt_versions : List PromptRef
  pub provider_attempts : List ArtifactRef
  pub request : Option ArtifactRef
  pub launch : Option ArtifactRef
  pub stdout : Option ArtifactRef
  pub stderr : Option ArtifactRef
  pub exit : Option ArtifactRef
  pub result : Option ArtifactRef
  pub source_audit : Option ArtifactRef
  pub verification : Option ArtifactRef
  pub last_error : Option Fields

pub record StopRequest : Type 0 where
  pub run_id : String
  pub observed_revision : ℕ
  pub controller_token : String
  pub requested_at : String
  pub nonce : String

unfoldable pub stop_request_as_dict : StopRequest → Json
stop_request_as_dict r = dict (
    fields (
      ("run_id", str r.run_id)
      ∷ ("observed_revision", nat r.observed_revision)
      ∷ ("controller_token", str r.controller_token)
      ∷ ("requested_at", str r.requested_at)
      ∷ ("nonce", str r.nonce)
      ∷ []))

pub record StopReceipt : Type 0 where
  pub request : StopRequest
  pub outcome : String
  pub stopped_tokens : List String
  pub forced_tokens : List String
  pub completed_at : String

unfoldable pub stop_receipt_as_dict : StopReceipt → Result Json
unfolding stop_request_as_dict
stop_receipt_as_dict r = do
  reject_if (not (r.outcome == "STOPPED" || r.outcome == "IGNORED_STALE_CONTROLLER"))
      "stop receipt outcome is invalid"
  ok (
      dict (
        fields (
          ("request", stop_request_as_dict r.request)
          ∷ ("outcome", str r.outcome)
          ∷ ("stopped_tokens", strings r.stopped_tokens)
          ∷ ("forced_tokens", strings r.forced_tokens)
          ∷ ("completed_at", str r.completed_at)
          ∷ [])))
