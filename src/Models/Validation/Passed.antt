-- ===== src/Models/Validation/Passed.antt =====
-- What the single checks of `validate_run_state` in src/vibe/models.py say once they are passed.
use vibe_coding_harness.Prelude.{
  String, Bool, true, false, not, ◌&&◌, ◌||◌, ◌≡◌, ap, ◌∙◌, ◌⊎◌, inl, inr, Option, some, List, [],
  ◌∷◌, Result, ok, err, contract, ◌>>=◌, >>=-eq-ok, past_reject_if, reject_if, reject_if-ok, refl,
  expect-some, ok-injective, Bool-cases, arith, ◌==◌, eq_iff,
}
use vibe_coding_harness.Json.{
  ℤ, Json, Fields, null, bool, int, float, str, list, dict, get, get_value, is_null, is_word,
  truthy,
}
use vibe_coding_harness.Models.Status.{
  RunStatus, paused, run_value, run_members, run_status, find_value,
}
use vibe_coding_harness.Models.Transition.{is_halt}
use vibe_coding_harness.Models.Transition.Phases.{Phase, ended, is_active, is_terminal}
use vibe_coding_harness.Models.Validation.Basic.{item, optional_error, require_rfc3339}
use vibe_coding_harness.Models.Validation.RunState.{
  run_status_of, check_resume, check_status, check_times, check_coherence, is_migration_pause,
  precedes,
}

find_value-value {ℓ} :
    {A : Type ℓ} (value : A → String) (xs : List A) (text : String) (a : A)
    → find_value value xs text ≡ some a
    → text ≡ value a
find_value-value value [] text a h = cc
find_value-value value (x ∷ xs) text a h = elim (Bool-cases (value x == text)) [
  | inl same ↦ let e = rw same at h in let t = (eq_iff (value x) text).0 same in cc
  | inr other ↦ find_value-value value xs text a (rw other at h)
]

item-get : (k : String) (d : Fields) (v : Json) → item k d ≡ ok v → get k d ≡ some v
unfolding item
item-get k d v h = expect-some (get k d) _ v h

run_status_of-value :
    (v : Json) (message : String) (c : RunStatus)
    → run_status_of v message ≡ ok c
    → v ≡ str (run_value c)
unfolding run_status_of run_status
run_status_of-value (str s) message c h =
    ap str (
      find_value-value run_value run_members s c
        (expect-some (run_status s) (contract message) c h))
run_status_of-value _ message c h = cc

abbrev pub Resumes : Json → Type 0
Resumes r = (r ≡ null) ⊎ ((a : RunStatus) × (r ≡ str (run_value a)) × (is_active a ≡ true))

active_resume :
    (r : Json)
    → (run_status_of r "resume_status is invalid" >>= λ resume.
        reject_if (not (is_active resume)) "resume_status must name an active state")
      ≡ ok tt
    → Resumes r
active_resume r h =
    let (a, named, h1) = >>=-eq-ok (run_status_of r "resume_status is invalid") _ h in
    let active = reject_if-ok (not (is_active a)) _ h1 in
    inr (a, run_status_of-value r _ a named, ground (arith, active))

check_resume-Resumes : (r : Json) → check_resume r ≡ ok tt → Resumes r
unfolding check_resume
check_resume-Resumes null h = inl refl
check_resume-Resumes (bool b) h = active_resume (bool b) h
check_resume-Resumes (int n) h = active_resume (int n) h
check_resume-Resumes (float t) h = active_resume (float t) h
check_resume-Resumes (str t) h = active_resume (str t) h
check_resume-Resumes (list xs) h = active_resume (list xs) h
check_resume-Resumes (dict d) h = active_resume (dict d) h

pub check_status-reads :
    (s : Fields) (c : RunStatus)
    → check_status s ≡ ok c
    → (get "status" s ≡ some (str (run_value c)))
      × ((r : Json) × (get "resume_status" s ≡ some r) × Resumes r)
unfolding check_status
check_status-reads s c h =
    let (v, got, h1) = >>=-eq-ok (item "status" s) _ h in
    let (c', named, h2) = >>=-eq-ok (run_status_of v "status is invalid") _ h1 in
    let (r, resume, h3) = >>=-eq-ok (item "resume_status" s) _ h2 in
    let (_, checked, h4) = >>=-eq-ok (check_resume r) _ h3 in
    let value = run_status_of-value v _ c' named in
    let same = ok-injective h4 in
    (
      cc (item-get "status" s v got),
      (r, item-get "resume_status" s r resume, check_resume-Resumes r checked),
    )

checked-value :
    {A : Type 0} (m : Result A) (d e : Fields)
    → (m >>= λ _. ok (some d)) ≡ ok (some e)
    → dict d ≡ dict e
checked-value (ok a) d e h = cc
checked-value (err x) d e h = cc

optional_error-dict : (v : Json) (e : Fields) → optional_error v ≡ ok (some e) → v ≡ dict e
unfolding optional_error
optional_error-dict null e h = cc
optional_error-dict (dict d) e h = checked-value _ d e h
optional_error-dict _ e h = cc

-- Nothing is prepared or dispatched.
pub record Quiet (s : Fields) : Type 0 where
  pub dispatches : Json
  pub dispatches_read : get "pending_dispatches" s ≡ some dispatches
  pub no_dispatches : truthy dispatches ≡ false
  pub no_source_commit : get "pending_source_commit" s ≡ some null
  pub no_integration : get "pending_integration" s ≡ some null
  pub no_evaluation : get "pending_evaluation" s ≡ some null

-- A migrated run that waits for a plan, or for the rest of its installation, with nothing to resume.
pub record WaitsForMigration (s : Fields) : Type 0 where
  pub is_paused : get "status" s ≡ some (str "PAUSED")
  pub no_resume : get "resume_status" s ≡ some null
  pub error : Fields
  pub last_error : get "last_error" s ≡ some (dict error)
  pub code :
      (is_word "SCHEMA3_REPLAN_REQUIRED" (get_value "code" error)
        || is_word "MIGRATION_INSTALLING" (get_value "code" error))
      ≡ true

abbrev pub Settled : Phase → Fields → Type 0
Settled (ended outcome) s = Quiet s
Settled _ s = Unit

-- The three tests of the last block, as they were passed.
pub record Coherence (c : RunStatus) (e : Option Fields) (r : Json) (s : Fields) : Type 0 where
  pub resumes : (is_halt c && is_null r && not (is_migration_pause c e)) ≡ false
  pub only_halted : (not (is_halt c) && not (is_null r)) ≡ false
  pub quiet : is_terminal c ≡ true → Quiet s

null_of_is_null : (v : Json) → is_null v ≡ true → v ≡ null
null_of_is_null null h = refl
null_of_is_null _ h = cc

nothing_pending :
    (terminal : Bool) (dispatches source integration evaluation : Json)
    → reject_if
        (terminal
          && (truthy dispatches
              || not (is_null source)
              || not (is_null integration)
              || not (is_null evaluation)))
        "terminal runs cannot retain pending work"
      ≡ ok tt
    → terminal ≡ true
    → (truthy dispatches ≡ false) × (source ≡ null) × (integration ≡ null) × (evaluation ≡ null)
nothing_pending terminal dispatches source integration evaluation h t =
    let quiet = reject_if-ok _ "terminal runs cannot retain pending work" h in
    ground (arith, null_of_is_null source, null_of_is_null integration, null_of_is_null evaluation)

pub check_coherence-Coherence :
    (c : RunStatus) (e : Option Fields) (r : Json) (s : Fields)
    → get "resume_status" s ≡ some r
    → check_coherence c e s ≡ ok tt
    → Coherence c e r s
unfolding check_coherence
check_coherence-Coherence c e r s got h =
    let (r', resume, h1) = >>=-eq-ok (item "resume_status" s) _ h in
    let same : r' ≡ r = cc (item-get "resume_status" s r' resume, got) in
    let (resumes, h2) =
      past_reject_if (is_halt c && is_null r' && not (is_migration_pause c e))
        "resume_status is required while paused/stopped" _ h1 in
    let (only_halted, h3) =
      past_reject_if (not (is_halt c) && not (is_null r'))
        "resume_status is only valid while paused/stopped" _ h2 in
    let (dispatches, d, h4) = >>=-eq-ok (item "pending_dispatches" s) _ h3 in
    let (source, p, h5) = >>=-eq-ok (item "pending_source_commit" s) _ h4 in
    let (integration, i, h6) = >>=-eq-ok (item "pending_integration" s) _ h5 in
    let (evaluation, v, h7) = >>=-eq-ok (item "pending_evaluation" s) _ h6 in
    record {
      resumes = rw same at resumes;
      only_halted = rw same at only_halted;
      quiet = λ terminal.
          let (no_dispatches, no_source, no_integration, no_evaluation) =
            nothing_pending (is_terminal c) dispatches source integration evaluation h7 terminal in
          record {
            dispatches = dispatches;
            dispatches_read = item-get "pending_dispatches" s dispatches d;
            no_dispatches = no_dispatches;
            no_source_commit = item-get "pending_source_commit" s source p ∙ ap some no_source;
            no_integration =
                item-get "pending_integration" s integration i ∙ ap some no_integration;
            no_evaluation = item-get "pending_evaluation" s evaluation v ∙ ap some no_evaluation;
          };
    }

pub check_times-last :
    (f : String → Option (Bool × ℤ)) (s e : Fields)
    → check_times f s ≡ ok (some e)
    → get "last_error" s ≡ some (dict e)
unfolding check_times
check_times-last f s e h =
    let (last, read, h1) = >>=-eq-ok (item "last_error" s >>= optional_error) _ h in
    let (v, got, checked) = >>=-eq-ok (item "last_error" s) optional_error read in
    let (created, _, h2) = >>=-eq-ok (item "created_at" s >>= require_rfc3339 f) _ h1 in
    let (updated, _, h3) = >>=-eq-ok (item "updated_at" s >>= require_rfc3339 f) _ h2 in
    let (_, h4) =
      past_reject_if (precedes (f updated) (f created)) "updated_at must not precede created_at" _
        h3 in
    item-get "last_error" s v got
    ∙ ap some (optional_error-dict v e (checked ∙ ap (λ o. ok o) (ok-injective h4)))

pub migration-WaitsForMigration :
    (c : RunStatus) (e : Option Fields) (s : Fields)
    → is_migration_pause c e ≡ true
    → get "status" s ≡ some (str (run_value c))
    → get "resume_status" s ≡ some null
    → ((d : Fields) → e ≡ some d → get "last_error" s ≡ some (dict d))
    → WaitsForMigration s
unfolding is_migration_pause
migration-WaitsForMigration paused (some d) s m status read last = record {
  is_paused = status;
  no_resume = read;
  error = d;
  last_error = last d refl;
  code = m;
}
migration-WaitsForMigration _ _ s m status read last = cc
