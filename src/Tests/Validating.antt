-- ===== src/Tests/Validating.antt =====
-- A run that is paused while it is planned, and the manifest of an Attempt, as src/vibe/models.py
-- validates them.
use vibe_coding_harness.Prelude.{
  String, Bool, true, ◌≡◌, refl, Option, some, none, ok, err, contract, [], ◌∷◌,
}
use vibe_coding_harness.Json.{ℤ, pos, Json, Fields, null, str, list, dict, nil}
use vibe_coding_harness.Models.Status.{AttemptStatus}
use vibe_coding_harness.Models.Manifest.{validate_attempt_manifest}
use vibe_coding_harness.Models.Manifest.Ended.{Ended, validate_attempt_manifest-Ended}
use vibe_coding_harness.Models.Contracts.{ArtifactRef, AttemptManifest, fields, nat}
use vibe_coding_harness.Models.Validation.RunState.{validate_run_state}
use vibe_coding_harness.Models.Validation.Coherence.{Meaning, validate_run_state-Meaning}

abbrev pub all_utc : String → Option (Bool × ℤ)
all_utc text = some (true, pos 0)

abbrev pub digest : String
digest = "sha256:0123456789abcdef0123456789abcdef0123456789abcdef0123456789abcdef"

abbrev pub oid : String
oid = "0123456789abcdef0123456789abcdef01234567"

abbrev pub reference : String → Json
reference path = dict (fields (("path", str path) ∷ ("sha256", str digest) ∷ []))

abbrev pub idle : Json
idle = dict (
    fields (
      ("operation_id", null)
      ∷ ("attempt_no", nat 0)
      ∷ ("failure_count", nat 0)
      ∷ ("max_attempts", nat 2)
      ∷ ("active_attempt_token", null)
      ∷ ("last_error", null)
      ∷ []))

abbrev pub repository : Json
repository = dict (
    fields (
      ("identity", str digest)
      ∷ ("base_ref", str "HEAD")
      ∷ ("base_sha", str oid)
      ∷ ("integration_ref", str "refs/heads/vibe/run-RUN-20260723-001")
      ∷ ("integration_head", str oid)
      ∷ []))

abbrev pub run : String → Json → Fields
run status resume = fields (
    ("schema_version", nat 4)
    ∷ ("run_id", str "RUN-20260723-001")
    ∷ ("revision", nat 7)
    ∷ ("goal", str "Add a parser")
    ∷ ("repository", repository)
    ∷ ("status", str status)
    ∷ ("resume_status", resume)
    ∷ ("plan_version", nat 0)
    ∷ ("repair_round", nat 0)
    ∷ ("max_repair_rounds", nat 3)
    ∷ ("max_workers", nat 2)
    ∷ ("controller", null)
    ∷ (
      "creation",
      dict (fields (("intent", reference "creation/intent.json") ∷ ("receipt", null) ∷ [])),
    )
    ∷ ("config", reference "config.json")
    ∷ ("artifact_index", list nil)
    ∷ ("plans", list nil)
    ∷ ("role_attempts", dict (fields (("planner", list nil) ∷ ("evaluator", list nil) ∷ [])))
    ∷ ("role_runtime", dict (fields (("planner", idle) ∷ ("evaluator", idle) ∷ [])))
    ∷ ("evaluations", list nil)
    ∷ ("verifications", list nil)
    ∷ ("legacy_import", null)
    ∷ ("tasks", dict (fields []))
    ∷ ("pending_dispatches", dict (fields []))
    ∷ ("pending_source_commit", null)
    ∷ ("pending_integration", null)
    ∷ ("pending_evaluation", null)
    ∷ ("latest_evaluation", null)
    ∷ ("global_verification", null)
    ∷ ("stop_receipts", list nil)
    ∷ ("last_error", null)
    ∷ ("created_at", str "2026-07-23T00:00:00+00:00")
    ∷ ("updated_at", str "2026-07-23T00:00:00+00:00")
    ∷ [])

validation : Unit {0}
unfolding validate_run_state
validation = tt

accepts_paused :
    validate_run_state all_utc (dict (run "PAUSED" (str "PLANNING")))
    ≡ ok (run "PAUSED" (str "PLANNING"))
unfolding validation
accepts_paused = refl

rejects_paused :
    validate_run_state all_utc (dict (run "PAUSED" null))
    ≡ err (contract "resume_status is required while paused/stopped")
unfolding validation
rejects_paused = refl

rejects_resuming :
    validate_run_state all_utc (dict (run "PLANNING" (str "PLANNING")))
    ≡ err (contract "resume_status is only valid while paused/stopped")
unfolding validation
rejects_resuming = refl

validate_run_state-Meaning_example :
    (dict (run "PAUSED" (str "PLANNING")) ≡ dict (run "PAUSED" (str "PLANNING")))
    × Meaning (run "PAUSED" (str "PLANNING"))
validate_run_state-Meaning_example =
    validate_run_state-Meaning all_utc (dict (run "PAUSED" (str "PLANNING")))
      (run "PAUSED" (str "PLANNING")) accepts_paused

-- The manifest of a planner's Attempt that succeeded.
abbrev pub manifest : Json → Fields
manifest preflight = fields (
    ("schema_version", nat 1)
    ∷ ("role", str "planner")
    ∷ ("operation_id", str "PLAN-001")
    ∷ ("task_id", null)
    ∷ ("attempt_no", nat 1)
    ∷ ("attempt_token", str "T1")
    ∷ ("status", str "SUCCEEDED")
    ∷ ("created_at", str "2026-07-23T00:00:00+00:00")
    ∷ ("completed_at", str "2026-07-23T00:01:00+00:00")
    ∷ ("expected_base", str oid)
    ∷ ("branch", null)
    ∷ ("worktree", str ".vibe-coding/worktrees/planner")
    ∷ ("preflight", preflight)
    ∷ ("prompt_versions", list nil)
    ∷ ("provider_attempts", list nil)
    ∷ ("request", reference "planner/request.json")
    ∷ ("launch", null)
    ∷ ("stdout", null)
    ∷ ("stderr", null)
    ∷ ("exit", null)
    ∷ ("result", reference "planner/result.json")
    ∷ ("source_audit", null)
    ∷ ("verification", null)
    ∷ ("last_error", null)
    ∷ [])

abbrev artifact_ref : String → Option ArtifactRef
artifact_ref path = some (record { path = path; sha256 = digest })

abbrev planner_attempt : AttemptManifest
planner_attempt = record {
  schema_version = 1;
  role = "planner";
  operation_id = "PLAN-001";
  task_id = none;
  attempt_no = 1;
  attempt_token = "T1";
  status = AttemptStatus.succeeded;
  created_at = "2026-07-23T00:00:00+00:00";
  completed_at = "2026-07-23T00:01:00+00:00";
  expected_base = oid;
  branch = none;
  worktree = ".vibe-coding/worktrees/planner";
  preflight = artifact_ref "planner/preflight.json";
  prompt_versions = [];
  provider_attempts = [];
  request = artifact_ref "planner/request.json";
  launch = none;
  stdout = none;
  stderr = none;
  exit = none;
  result = artifact_ref "planner/result.json";
  source_audit = none;
  verification = none;
  last_error = none;
}

manifests : Unit {0}
unfolding validate_attempt_manifest
manifests = tt

accepts_manifest :
    validate_attempt_manifest all_utc (dict (manifest (reference "planner/preflight.json")))
    ≡ ok planner_attempt
unfolding manifests
accepts_manifest = refl

rejects_manifest :
    validate_attempt_manifest all_utc (dict (manifest null))
    ≡ err (contract "attempt manifest preflight is required")
unfolding manifests
rejects_manifest = refl

validate_attempt_manifest-Ended_example : Ended planner_attempt
validate_attempt_manifest-Ended_example =
    validate_attempt_manifest-Ended all_utc (dict (manifest (reference "planner/preflight.json")))
      planner_attempt accepts_manifest
