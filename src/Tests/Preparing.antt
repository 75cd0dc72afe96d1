-- ===== src/Tests/Preparing.antt =====
-- A Task whose integration is prepared: `_persist_pending` of src/vibe/integrator.py.
use vibe_coding_harness.Prelude.{String, ◌≡◌, refl, Result, ok, err, some, List, [], ◌∷◌}
use vibe_coding_harness.Json.{Json, Fields, null, str, list, dict, nil, put, of_items}
use vibe_coding_harness.Models.Contracts.{ArtifactRef, fields, nat}
use vibe_coding_harness.Store.Transactions.{load}
use vibe_coding_harness.Integrator.World.{World}
use vibe_coding_harness.Integrator.Protocol.{persist_pending}
use vibe_coding_harness.Integrator.Protocol.Prepared.{Prepared, persist_pending-Prepared}
use vibe_coding_harness.Tests.Validating.{digest, oid, reference, run}
use vibe_coding_harness.Tests.Integrating.{
  verification, marker, indexed, elsewhere, files, env, git, Branch, branch, now,
}

abbrev active : Json
active = dict (
    fields (
      ("attempt_token", str "T1")
      ∷ ("status", str "VERIFYING")
      ∷ ("created_at", str "2026-07-23T00:00:00+00:00")
      ∷ ("task_base_sha", str oid)
      ∷ ("branch", str "refs/heads/vibe/task")
      ∷ ("worktree", str ".vibe-coding/worktrees/task")
      ∷ ("preflight", reference "preflight.json")
      ∷ ("provider_handle", null)
      ∷ ("result_path", str "result.json")
      ∷ []))

abbrev ready_task : Json
ready_task = dict (
    fields (
      ("task", reference "task.json")
      ∷ ("status", str "READY_TO_INTEGRATE")
      ∷ ("attempt_no", nat 1)
      ∷ ("failure_count", nat 0)
      ∷ ("max_attempts", nat 2)
      ∷ ("active_attempt", active)
      ∷ ("attempts", list nil)
      ∷ ("result", reference "result.json")
      ∷ ("verification", null)
      ∷ ("source_commits", list (of_items (str elsewhere ∷ [])))
      ∷ ("integrated_commits", list nil)
      ∷ ("last_error", null)
      ∷ []))

abbrev present : List String
present =
    "creation/intent.json" ∷ "config.json" ∷ "task.json" ∷ "preflight.json" ∷ "result.json"
    ∷ "verification.json" ∷ []

abbrev ready_state : Fields
ready_state =
    put "artifact_index" (list (of_items (indexed present)))
      (put "tasks" (dict (fields (("TASK-001", ready_task) ∷ []))) (run "EXECUTING" null))

abbrev ready_world : World Branch
ready_world = record {
  disk = record { state = some (dict ready_state); artifacts = files present };
  repository = branch oid;
}

abbrev source_audit : ArtifactRef
source_audit = record { path = "source-audit.json"; sha256 = digest }

preparing : Unit {0}
unfolding put load persist_pending
preparing = tt

after_preparation : World Branch
unfolding preparing
after_preparation =
    (persist_pending env git ready_state "TASK-001" source_audit verification marker now
      ready_world).1

value : Fields
unfolding preparing
value =
    from
      (persist_pending env git ready_state "TASK-001" source_audit verification marker now
        ready_world).0
  where
    from : Result Fields → Fields
    from (ok d) = d
    from (err e) = Fields.end

prepares :
    persist_pending env git ready_state "TASK-001" source_audit verification marker now ready_world
    ≡ (ok value, after_preparation)
unfolding preparing after_preparation value
prepares = refl

persist_pending-Prepared_example :
    Prepared env git "TASK-001" verification marker ready_world after_preparation
persist_pending-Prepared_example =
    persist_pending-Prepared env git ready_state "TASK-001" source_audit verification marker now
      ready_world after_preparation value prepares
