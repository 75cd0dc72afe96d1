-- ===== src/Models/Transition/Table.antt =====
-- The table of `transition_run` read against the steps of the phases.
use vibe_coding_harness.Prelude.{Bool, ◌≡◌, refl, ◌≢◌, true, false, map, contains, arith}
use mathlib.Core.Bool.{false≢true}
use vibe_coding_harness.Models.Status.{
  RunStatus, created, planning, executing, global_verifying, evaluating, repairing, paused, stopped,
  imported_read_only, run_value,
}
use vibe_coding_harness.Models.Transition.{is_halt, allowed_run_transitions}
use vibe_coding_harness.Models.Transition.Phases.{
  live, halted, after, is_active, is_terminal, ◌⟶◌, plan, execute, verify, evaluate,
  verification_failed, evaluate_again, findings, repaired, advance, succeed, fail, pause, stop,
  stop_paused, resume,
}

abbrev pub allows : RunStatus → RunStatus → Bool
allows c t = contains (run_value t) (map run_value (allowed_run_transitions c))

pub kind : (t : RunStatus) → is_halt t ≡ false → is_terminal t ≡ false → is_active t ≡ true
kind created h k = refl
kind _ h k = ground arith

pub not-halt_of_active : (t : RunStatus) → is_active t ≡ true → is_halt t ≡ false
not-halt_of_active created h = refl
not-halt_of_active _ h = ground arith

-- The table read from an active state, as steps of the phases.
pub allows-step :
    (a t : RunStatus) → is_active a ≡ true → allows a t ≡ true → live a ⟶ after (live a) t
allows-step created planning i h = advance plan
allows-step planning executing i h = advance execute
allows-step executing global_verifying i h = advance verify
allows-step global_verifying evaluating i h = advance evaluate
allows-step global_verifying repairing i h = advance verification_failed
allows-step evaluating evaluating i h = advance evaluate_again
allows-step evaluating repairing i h = advance findings
allows-step repairing executing i h = advance repaired
allows-step evaluating RunStatus.succeeded i h = succeed
allows-step planning RunStatus.failed i h = fail refl (λ e. cc)
allows-step executing RunStatus.failed i h = fail refl (λ e. cc)
allows-step global_verifying RunStatus.failed i h = fail refl (λ e. cc)
allows-step evaluating RunStatus.failed i h = fail refl (λ e. cc)
allows-step repairing RunStatus.failed i h = fail refl (λ e. cc)
allows-step a paused i h = pause i
allows-step a stopped i h = stop i
allows-step created _ i h = absurd (false≢true h)
allows-step planning _ i h = absurd (false≢true h)
allows-step executing _ i h = absurd (false≢true h)
allows-step global_verifying _ i h = absurd (false≢true h)
allows-step evaluating _ i h = absurd (false≢true h)
allows-step repairing _ i h = absurd (false≢true h)
allows-step paused _ i h = absurd (false≢true i)
allows-step stopped _ i h = absurd (false≢true i)
allows-step RunStatus.succeeded _ i h = absurd (false≢true i)
allows-step RunStatus.failed _ i h = absurd (false≢true i)
allows-step imported_read_only _ i h = absurd (false≢true i)

pub resume-step :
    (c a t : RunStatus)
    → is_halt c ≡ true
    → is_active a ≡ true
    → t ≡ a
    → halted c a ⟶ after (halted c a) t
resume-step c a t ic ia same = rw same (rw (not-halt_of_active a ia) (resume ic ia))

-- The only halt that a halted run accepts is a stop of a paused one.
pub halt-step :
    (c a t : RunStatus)
    → is_halt c ≡ true
    → is_active a ≡ true
    → is_halt t ≡ true
    → allows c t ≡ true
    → halted c a ⟶ after (halted c a) t
halt-step paused a stopped ic ia it h = stop_paused ia
halt-step paused a paused ic ia it h = absurd (false≢true h)
halt-step paused a _ ic ia it h = absurd (false≢true it)
halt-step stopped a paused ic ia it h = absurd (false≢true h)
halt-step stopped a stopped ic ia it h = absurd (false≢true h)
halt-step stopped a _ ic ia it h = absurd (false≢true it)
halt-step _ a t ic ia it h = absurd (false≢true ic)

pub active-fails :
    (a : RunStatus) → is_active a ≡ true → a ≢ created → allows a RunStatus.failed ≡ true
active-fails created i started = absurd (started refl)
active-fails _ i started = cc

pub active-pauses : (a : RunStatus) → is_active a ≡ true → allows a paused ≡ true
active-pauses created i = refl
active-pauses _ i = cc

pub active-stops : (a : RunStatus) → is_active a ≡ true → allows a stopped ≡ true
active-stops created i = refl
active-stops _ i = cc

pub allows-halt : (a h : RunStatus) → is_active a ≡ true → is_halt h ≡ true → allows a h ≡ true
allows-halt a paused i halts = active-pauses a i
allows-halt a stopped i halts = active-stops a i
allows-halt a _ i halts = absurd (false≢true halts)

pub paused-resumes : (a : RunStatus) → is_active a ≡ true → allows paused a ≡ true
paused-resumes created i = refl
paused-resumes _ i = cc

pub stopped-resumes : (a : RunStatus) → is_active a ≡ true → allows stopped a ≡ true
stopped-resumes created i = refl
stopped-resumes _ i = cc

pub allows-resume : (h a : RunStatus) → is_halt h ≡ true → is_active a ≡ true → allows h a ≡ true
allows-resume paused a halts i = paused-resumes a i
allows-resume stopped a halts i = stopped-resumes a i
allows-resume _ a halts i = absurd (false≢true halts)

-- An ended run accepts nothing.
pub refused : (e t : RunStatus) → is_terminal e ≡ true → allows e t ≡ false
refused RunStatus.succeeded t h = refl
refused RunStatus.failed t h = refl
refused imported_read_only t h = refl
refused _ t h = absurd (false≢true h)
