-- ===== src/Tests/Runs.antt =====
-- Runs of the state machine of src/vibe/models.py.
use vibe_coding_harness.Prelude.{String, ◌≡◌, refl, ok, err, contract, List, [], ◌∷◌, In}
use vibe_coding_harness.Json.{Fields, null, str, get, put}
use vibe_coding_harness.Models.Contracts.{fields}
use vibe_coding_harness.Models.Status.{
  RunStatus, created, planning, executing, global_verifying, evaluating, repairing, paused, stopped,
  run_value, run_status,
}
use vibe_coding_harness.Models.Transition.{transition_run}
use vibe_coding_harness.Models.Transition.Phases.{live, halted, Represents, ◌⟶◌, advance, plan}
use vibe_coding_harness.Models.Transition.Refinement.{
  transition_run-refines, transition_run-accepts, ended-transition,
}
use vibe_coding_harness.Models.Transition.Traces.{run_targets, success-needs, halt-resume}

abbrev state : RunStatus → Fields
state status = fields (("status", str (run_value status)) ∷ ("resume_status", null) ∷ [])

program : Unit {0}
unfolding transition_run run_status get put run_targets
program = tt

state_created : Represents (state created) (live created)
unfolding program
state_created = (refl, refl, refl)

abbrev paused_state : Fields
paused_state = fields (("status", str "PAUSED") ∷ ("resume_status", str "EXECUTING") ∷ [])

executing_pauses : transition_run (state executing) paused ≡ ok paused_state
unfolding program
executing_pauses = refl

executing_resumes : transition_run paused_state executing ≡ ok (state executing)
unfolding program
executing_resumes = refl

executing_elsewhere :
    transition_run paused_state evaluating ≡ err (contract "resume target does not match")
unfolding program
executing_elsewhere = refl

transition_run-refines_example :
    Represents paused_state (halted paused executing) × (live executing ⟶ halted paused executing)
unfolding program
transition_run-refines_example =
    transition_run-refines (state executing) paused_state (live executing) paused (refl, refl, refl)
      executing_pauses

transition_run-accepts_example : (s' : Fields) × (transition_run (state created) planning ≡ ok s')
transition_run-accepts_example =
    transition_run-accepts (state created) (live created) (live planning) state_created
      (advance plan)

ended-transition_example :
    transition_run (state RunStatus.failed) planning ≡ err (contract "invalid run transition")
unfolding program
ended-transition_example =
    ended-transition (state RunStatus.failed) RunStatus.failed planning (refl, refl, refl)

abbrev whole_run : List RunStatus
whole_run =
    planning ∷ executing ∷ stopped ∷ executing ∷ global_verifying ∷ repairing ∷ executing
    ∷ global_verifying ∷ evaluating ∷ RunStatus.succeeded ∷ []

whole_run_succeeds : run_targets (state created) whole_run ≡ ok (state RunStatus.succeeded)
unfolding program
whole_run_succeeds = refl

success-needs_example :
    In planning whole_run
    × In executing whole_run
    × In global_verifying whole_run
    × In evaluating whole_run
unfolding program
success-needs_example =
    success-needs whole_run (state created) (state RunStatus.succeeded) state_created
      whole_run_succeeds refl

halt-resume_example :
    (executing ≡ executing) × ((k : String) → get k (state executing) ≡ get k (state executing))
unfolding program
halt-resume_example =
    halt-resume (state executing) paused_state (state executing) executing paused executing
      (refl, refl, refl) refl refl executing_pauses executing_resumes
