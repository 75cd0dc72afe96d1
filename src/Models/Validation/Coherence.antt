-- ===== src/Models/Validation/Coherence.antt =====
-- What a state that `validate_run_state` of src/vibe/models.py accepts is worth to the rest of the program.
use vibe_coding_harness.Prelude.{
  String, Bool, true, ◌≡◌, ap, subst, ◌∙◌, ◌⊎◌, inl, inr, Option, some, ok, contract, >>=-eq-ok,
  expect, expect-some, ok-injective, Bool-cases, arith,
}
use vibe_coding_harness.Json.{ℤ, Json, Fields, null, str, dict, get, as_dict}
use vibe_coding_harness.Models.Status.{RunStatus, run_value}
use vibe_coding_harness.Models.Transition.{is_halt}
use vibe_coding_harness.Models.Transition.Phases.{
  Phase, live, halted, ended, Represents, is_active, is_terminal,
}
use vibe_coding_harness.Models.Transition.Table.{kind}
use vibe_coding_harness.Models.Validation.RunState.{
  check_identity, check_status, check_contents, check_work, check_outcomes, check_times,
  check_coherence, validate_run_state,
}
use vibe_coding_harness.Models.Validation.Passed.{
  Resumes, check_status-reads, WaitsForMigration, Settled, Coherence, check_coherence-Coherence,
  check_times-last, migration-WaitsForMigration,
}

-- What a validated state stands for.
abbrev pub Meaning : Fields → Type 0
Meaning s = WaitsForMigration s ⊎ ((p : Phase) × Represents s p × Settled p s)

module _ (f : String → Option (Bool × ℤ)) (s : Fields) (c : RunStatus)
    (status : get "status" s ≡ some (str (run_value c))) where
  of_null :
      (e : Option Fields)
      → get "resume_status" s ≡ some null
      → check_times f s ≡ ok e
      → Coherence c e null s
      → Meaning s
  of_null e none_read timed k = elim (Bool-cases (is_halt c)) [
    | inl halts ↦ inl (
        migration-WaitsForMigration c e s (ground (arith, k.resumes)) status none_read
          (λ d same. check_times-last f s d (timed ∙ ap (λ o. ok o) same)))
    | inr goes ↦ elim (Bool-cases (is_terminal c)) [
      | inl over ↦ inr (ended c, (status, none_read, over), k.quiet over)
      | inr works ↦ inr (live c, (status, none_read, kind c goes works), tt)
    ]
  ]

  of_active :
      (e : Option Fields) (a : RunStatus)
      → get "resume_status" s ≡ some (str (run_value a))
      → is_active a ≡ true
      → Coherence c e (str (run_value a)) s
      → Meaning s
  of_active e a read active k =
      inr (halted c a, (status, read, ground (arith, k.only_halted), active), tt)

  Meaning-read :
      (e : Option Fields) (r : Json)
      → check_times f s ≡ ok e
      → get "resume_status" s ≡ some r
      → Resumes r
      → Coherence c e r s
      → Meaning s
  Meaning-read e r timed read (inl nothing) k =
      of_null e (read ∙ ap some nothing) timed (subst (λ r'. Coherence c e r' s) nothing k)
  Meaning-read e r timed read (inr (a, named, active)) k =
      of_active e a (read ∙ ap some named) active (subst (λ r'. Coherence c e r' s) named k)

as_dict-dict : (v : Json) (d : Fields) → as_dict v ≡ some d → v ≡ dict d
as_dict-dict (dict d') d h = cc
as_dict-dict _ d h = cc

-- A state that `validate_run_state` accepts stands for a phase of the run: `resume_status` names an
-- active state exactly while the run is paused or stopped, and an ended run keeps no pending
-- dispatch and no prepared marker. The one exception is a paused run with nothing to resume whose
-- last error is one of the two migration codes.
pub validate_run_state-Meaning :
    (from_isoformat : String → Option (Bool × ℤ)) (value : Json) (state : Fields)
    → validate_run_state from_isoformat value ≡ ok state
    → (value ≡ dict state) × Meaning state
unfolding validate_run_state
validate_run_state-Meaning f value state h =
    let (s, is_a_dict, h0) =
      >>=-eq-ok (expect (as_dict value) (contract "run state must be an object")) _ h in
    let (_, _, h1) = >>=-eq-ok (check_identity s) _ h0 in
    let (c, status, h2) = >>=-eq-ok (check_status s) _ h1 in
    let (_, _, h3) = >>=-eq-ok (check_contents s) _ h2 in
    let (_, _, h4) = >>=-eq-ok (check_work f s) _ h3 in
    let (_, _, h5) = >>=-eq-ok (check_outcomes s) _ h4 in
    let (e, timed, h6) = >>=-eq-ok (check_times f s) _ h5 in
    let (_, coherent, h7) = >>=-eq-ok (check_coherence c e s) _ h6 in
    let (read, (r, resume, resumes)) = check_status-reads s c status in
    let k = check_coherence-Coherence c e r s resume coherent in
    let meaning = Meaning-read f s c read e r timed resume resumes k in
    (
      as_dict-dict value s (expect-some (as_dict value) _ s is_a_dict)
          ∙ ap (λ d. dict d) (ok-injective h7),
      subst Meaning (ok-injective h7) meaning,
    )
