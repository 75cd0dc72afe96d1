-- ===== src/Tests/Tasks.antt =====
-- The life of one task, and the scopes of src/vibe/scheduler.py.
use vibe_coding_harness.Prelude.{
  ◌+◌, ◌≤◌, String, true, false, ◌≡◌, refl, ◌↔◌, inl, none, Option, Result, ok, err, index_error,
  List, [], ◌∷◌,
}
use vibe_coding_harness.Json.{Fields, str, put, get, get_value}
use vibe_coding_harness.Models.Contracts.{ArtifactRef, TaskContract, fields}
use vibe_coding_harness.Scheduler.Scopes.{normalize_scope, path_matches_scope, scopes_overlap}
use vibe_coding_harness.Scheduler.Scopes.Normal.{
  normalize_scope-canonical, normalize_scope-index_error_iff,
}
use vibe_coding_harness.Scheduler.Scopes.Disjoint.{scopes_overlap_sound}
use vibe_coding_harness.Scheduler.Attempts.{
  TaskWorktree, new_task_state, start_attempt, bind_attempt_preflight, close_attempt,
}
use vibe_coding_harness.Scheduler.Attempts.Histories.{
  Event, start, bind, close, apply_all, starts, retries, attempts_bounded,
}

scopes : Unit {0}
unfolding normalize_scope path_matches_scope scopes_overlap
scopes = tt

normalize_directory : normalize_scope "src/vibe/" ≡ ok "src/vibe/"
unfolding scopes
normalize_directory = refl

normalize_scope-canonical_example : ◌≡◌ {A = String} "src/vibe/" "src/vibe/"
normalize_scope-canonical_example =
    normalize_scope-canonical "src/vibe/" "src/vibe/" normalize_directory

normalize_scope-index_error_iff_example :
    (normalize_scope "./" ≡ err index_error) ↔ (◌≡◌ {A = String} "./" "./")
normalize_scope-index_error_iff_example = normalize_scope-index_error_iff "./"

scopes_overlap_sound_example : path_matches_scope "src/vibe/cli.py" "tests/" ≡ false
unfolding scopes
scopes_overlap_sound_example =
    scopes_overlap_sound ("src/vibe/" ∷ []) ("tests/" ∷ "README.md" ∷ []) "src/vibe/" "tests/"
      "src/vibe/cli.py" refl (inl refl) (inl refl) refl

abbrev contract : TaskContract
contract = record {
  id = "TASK-001";
  objective = "Write the parser";
  worker_type = "implementation";
  covers = "AC-001" ∷ [];
  depends_on = [];
  path_scope = "src/" ∷ [];
  exclusive_resources = [];
  acceptance_checks = [];
  max_attempts = 2;
}

abbrev worktree : String → TaskWorktree
worktree branch = record {
  path = "/home/user/repo/.vibe-coding/worktrees/run/TASK-001";
  branch = branch;
  base_sha = "base";
}

abbrev preflight : String → ArtifactRef
preflight path = record { path = path; sha256 = "digest" }

abbrev two_attempts : List Event
two_attempts =
    start "base" (worktree "refs/heads/vibe/run/TASK-001-a1") "T1"
      "2026-07-23T00:00:00.000000+00:00"
    ∷ bind "T1" (preflight "tasks/TASK-001/attempts/001/preflight.json")
    ∷ close "FAILED" none true
    ∷ start "base" (worktree "refs/heads/vibe/run/TASK-001-a2") "T2"
        "2026-07-23T00:01:00.000000+00:00"
    ∷ bind "T2" (preflight "tasks/TASK-001/attempts/002/preflight.json")
    ∷ close "SUCCEEDED" none false
    ∷ []

life : Unit {0}
unfolding new_task_state apply_all start_attempt bind_attempt_preflight close_attempt get put
    get_value
life = tt

result_of : Result Fields → Fields
result_of (ok s) = s
result_of (err e) = fields []

fresh : Fields
unfolding life result_of
fresh = result_of (new_task_state contract)

final : Fields
unfolding life result_of fresh
final = result_of (apply_all fresh two_attempts)

final_status : get "status" final ≡ Option.some (str "INTEGRATING")
unfolding final
final_status = refl

attempts_bounded_example :
    (starts two_attempts ≤ 2)
    × (starts two_attempts ≤ retries two_attempts + 1)
    × (retries two_attempts ≤ starts two_attempts)
unfolding final
attempts_bounded_example = attempts_bounded contract fresh final two_attempts refl refl
