-- ===== src/Models/Transition.antt =====
-- `transition_run` of src/vibe/models.py, with its table of allowed transitions. The run state is a
-- dict; `copy.deepcopy` is a value, so the given state is never changed.
pub mod Phases
pub mod Table
pub mod Moves
pub mod Refinement
pub mod Traces
use vibe_coding_harness.Prelude.{
  String, Bool, true, false, not, ◌||◌, List, [], ◌∷◌, map, Result, ok, err, ◌>>=◌, ◌>>◌, expect,
  reject_if, contains, key_error, value_error, if◌then◌else◌,
}
use vibe_coding_harness.Json.{Json, Fields, null, str, get, put, is_word}
use vibe_coding_harness.Models.Status.{
  RunStatus, created, planning, executing, global_verifying, evaluating, repairing, paused, stopped,
  imported_read_only, run_value, run_status,
}

abbrev pub allowed_run_transitions : RunStatus → List RunStatus
allowed_run_transitions created = planning ∷ paused ∷ stopped ∷ []
allowed_run_transitions planning = executing ∷ paused ∷ stopped ∷ RunStatus.failed ∷ []
allowed_run_transitions executing = global_verifying ∷ paused ∷ stopped ∷ RunStatus.failed ∷ []
allowed_run_transitions global_verifying =
    evaluating ∷ repairing ∷ paused ∷ stopped ∷ RunStatus.failed ∷ []
allowed_run_transitions evaluating =
    evaluating ∷ repairing ∷ paused ∷ stopped ∷ RunStatus.succeeded ∷ RunStatus.failed ∷ []
allowed_run_transitions repairing = executing ∷ paused ∷ stopped ∷ RunStatus.failed ∷ []
allowed_run_transitions paused =
    created ∷ planning ∷ executing ∷ global_verifying ∷ evaluating ∷ repairing ∷ stopped ∷ []
allowed_run_transitions stopped =
    created ∷ planning ∷ executing ∷ global_verifying ∷ evaluating ∷ repairing ∷ []
allowed_run_transitions RunStatus.succeeded = []
allowed_run_transitions RunStatus.failed = []
allowed_run_transitions imported_read_only = []

-- `status in {RunStatus.PAUSED, RunStatus.STOPPED}`
abbrev pub is_halt : RunStatus → Bool
is_halt paused = true
is_halt stopped = true
is_halt _ = false

-- `RunStatus(value)`; a value that is no string is no member either.
abbrev pub to_run_status : Json → Result RunStatus
to_run_status (str text) = expect (run_status text) value_error
to_run_status _ = err value_error

-- The first activity that a halt stores, and the check and reset when a halted run goes on.
store_resume : RunStatus → Fields → Fields
store_resume current state =
    if is_halt current then state else put "resume_status" (str (run_value current)) state

clear_resume : RunStatus → Fields → Result Fields
clear_resume target state = do
  resume ← expect (get "resume_status" state) key_error
  reject_if (not (is_word (run_value target) resume)) "resume target does not match"
  ok (put "resume_status" null state)

unfoldable pub update_resume : RunStatus → RunStatus → Fields → Result Fields
unfolding store_resume clear_resume
update_resume current target state =
    if is_halt target
    then ok (store_resume current state)
    else if is_halt current
    then clear_resume target state
    else ok state

unfoldable pub transition_run : Fields → RunStatus → Result Fields
unfolding update_resume
transition_run state target = do
  status ← expect (get "status" state) key_error
  current ← to_run_status status
  reject_if (not (contains (run_value target) (map run_value (allowed_run_transitions current))))
      "invalid run transition"
  updated ← update_resume current target state
  ok (put "status" (str (run_value target)) updated)
