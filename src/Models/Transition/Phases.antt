-- ===== src/Models/Transition/Phases.antt =====
-- The abstract life of a run, without the dict: what it is doing, what it will resume, how it ended.
use vibe_coding_harness.Prelude.{◌≡◌, Bool, true, false, some, ◌≢◌, if◌then◌else◌}
use vibe_coding_harness.Json.{Fields, null, str, get}
use vibe_coding_harness.Models.Status.{
  RunStatus, created, planning, executing, global_verifying, evaluating, repairing, paused, stopped,
  imported_read_only, run_value,
}
use vibe_coding_harness.Models.Transition.{is_halt}

-- The six states in which the Controller works, and the three that it never leaves.
abbrev pub is_active : RunStatus → Bool
is_active created = true
is_active planning = true
is_active executing = true
is_active global_verifying = true
is_active evaluating = true
is_active repairing = true
is_active _ = false

abbrev pub is_terminal : RunStatus → Bool
is_terminal RunStatus.succeeded = true
is_terminal RunStatus.failed = true
is_terminal imported_read_only = true
is_terminal _ = false

pub data Phase : Type 0 where
  live : (activity : RunStatus) → Phase
  halted : (halt activity : RunStatus) → Phase
  ended : (outcome : RunStatus) → Phase

-- One round of work, from the goal to the verdict, with the repair loop.
pub data Advances : RunStatus → RunStatus → Type 0 where
  plan : Advances created planning
  execute : Advances planning executing
  verify : Advances executing global_verifying
  evaluate : Advances global_verifying evaluating
  verification_failed : Advances global_verifying repairing
  evaluate_again : Advances evaluating evaluating
  findings : Advances evaluating repairing
  repaired : Advances repairing executing

infix 40 ◌⟶◌
pub data ◌⟶◌ : Phase → Phase → Type 0 where
  advance : {a b : RunStatus} → Advances a b → live a ⟶ live b
  succeed : live evaluating ⟶ ended RunStatus.succeeded
  fail : {a : RunStatus} → is_active a ≡ true → a ≢ created → live a ⟶ ended RunStatus.failed
  pause : {a : RunStatus} → is_active a ≡ true → live a ⟶ halted paused a
  stop : {a : RunStatus} → is_active a ≡ true → live a ⟶ halted stopped a
  stop_paused : {a : RunStatus} → is_active a ≡ true → halted paused a ⟶ halted stopped a
  resume : {h a : RunStatus} → is_halt h ≡ true → is_active a ≡ true → halted h a ⟶ live a

-- A state dict stands for a phase. The coherence of `status` and `resume_status` is part of it.
abbrev pub Represents : Fields → Phase → Type 0
Represents s (live a) =
    (get "status" s ≡ some (str (run_value a)))
    × (get "resume_status" s ≡ some null)
    × (is_active a ≡ true)
Represents s (halted h a) =
    (get "status" s ≡ some (str (run_value h)))
    × (get "resume_status" s ≡ some (str (run_value a)))
    × (is_halt h ≡ true)
    × (is_active a ≡ true)
Represents s (ended e) =
    (get "status" s ≡ some (str (run_value e)))
    × (get "resume_status" s ≡ some null)
    × (is_terminal e ≡ true)

-- The phase that a transition to a target leads to.
abbrev pub after : Phase → RunStatus → Phase
after (live a) t = if is_halt t then halted t a else if is_terminal t then ended t else live t
after (halted h a) t = if is_halt t then halted t a else live t
after (ended e) t = ended e

-- The status that a phase shows.
abbrev pub shown : Phase → RunStatus
shown (live a) = a
shown (halted h a) = h
shown (ended e) = e
