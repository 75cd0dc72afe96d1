-- ===== src/Tests/Succeeding.antt =====
-- A run that may succeed: `goal_gate_satisfied` of src/vibe/models.py.
use vibe_coding_harness.Prelude.{true, false, ◌≡◌, refl, ok, List, [], ◌∷◌}
use vibe_coding_harness.Json.{Json, Fields, null, bool, str, list, dict, put, of_items}
use vibe_coding_harness.Models.Contracts.{fields, nat}
use vibe_coding_harness.Models.Gate.{all_hold, goal_gate_satisfied}
use vibe_coding_harness.Models.Gate.Satisfied.{Satisfied, goal_gate_satisfied-Satisfied}
use vibe_coding_harness.Tests.Validating.{oid, reference, run}

abbrev done_task : Json
done_task = dict (
    fields (
      ("status", str "COMPLETED")
      ∷ ("attempts", list (of_items (reference "attempt.json" ∷ [])))
      ∷ ("result", reference "result.json")
      ∷ ("verification", reference "verification.json")
      ∷ []))

abbrev latest : Json
latest = dict (
    fields (
      ("verdict", str "PASS")
      ∷ ("evaluation", reference "evaluation.json")
      ∷ ("integration_head", str oid)
      ∷ []))

abbrev global : Json
global = dict (
    fields (
      ("passed", bool true)
      ∷ ("verification", reference "verification.json")
      ∷ ("integration_head", str oid)
      ∷ []))

finished : Fields
unfolding put
finished = put "plan_version" (nat 1) (
    put "plans" (list (of_items (reference "plan.json" ∷ []))) (
      put "tasks" (dict (fields (("TASK-001", done_task) ∷ []))) (
        put "verifications" (list (of_items (reference "verification.json" ∷ []))) (
          put "evaluations" (list (of_items (reference "evaluation.json" ∷ []))) (
            put "latest_evaluation" latest
              (put "global_verification" global (run "EVALUATING" null)))))))

abbrev evidence : Json
evidence = dict (
    fields (
      ("integration_head", str oid)
      ∷ ("criterion_ids", list (of_items (str "AC-001" ∷ [])))
      ∷ ("verification", reference "verification.json")
      ∷ []))

abbrev envelope : List Json → Fields
envelope findings = fields (
    ("verdict", str "PASS")
    ∷ ("integration_head", str oid)
    ∷ ("evidence_catalog", dict (fields (("E1", evidence) ∷ [])))
    ∷ ("findings", list (of_items findings))
    ∷ (
      "criteria",
      list (
          of_items (
            dict (
              fields (
                ("id", str "AC-001")
                ∷ ("verdict", str "PASS")
                ∷ ("evidence_ids", list (of_items (str "E1" ∷ [])))
                ∷ []))
            ∷ [])),
    )
    ∷ [])

gating : Unit {0}
unfolding goal_gate_satisfied all_hold finished
gating = tt

opens : goal_gate_satisfied finished (envelope []) oid ≡ ok true
unfolding gating
opens = refl

stays_shut : goal_gate_satisfied finished (envelope (str "a finding" ∷ [])) oid ≡ ok false
unfolding gating
stays_shut = refl

goal_gate_satisfied-Satisfied_example : Satisfied finished (envelope []) oid
goal_gate_satisfied-Satisfied_example =
    goal_gate_satisfied-Satisfied finished (envelope []) oid opens
