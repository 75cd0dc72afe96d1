-- ===== src/Tests/Binding.antt =====
-- A state and the manifest that it binds: `validate_bound_state_semantics` of src/vibe/models.py.
use vibe_coding_harness.Prelude.{
  String, ◌≡◌, refl, Result, ok, err, key_error, contract, ◌==◌, if◌then◌else◌,
}
use vibe_coding_harness.Json.{Json, Fields, null, str, dict, put}
use vibe_coding_harness.Models.Semantics.{validate_bound_state_semantics}
use vibe_coding_harness.Models.Semantics.Bound.{Bound, validate_bound_state_semantics-Bound}
use vibe_coding_harness.Tests.Validating.{all_utc}
use vibe_coding_harness.Tests.Integrating.{state, attempt}

load_attempt : String → Fields → Result Json
load_attempt path manifest = if path == "attempt.json" then ok (dict manifest) else err key_error

binding : Unit {0}
unfolding validate_bound_state_semantics load_attempt put
binding = tt

accepts_bound :
    validate_bound_state_semantics all_utc
      (λ path. load_attempt path attempt)
      (state "EXECUTING" null)
    ≡ ok tt
unfolding binding
accepts_bound = refl

rejects_failed :
    validate_bound_state_semantics all_utc
      (λ path. load_attempt path (put "status" (str "FAILED") attempt))
      (state "EXECUTING" null)
    ≡ err (contract "integrated Task lacks successful Attempt")
unfolding binding
rejects_failed = refl

validate_bound_state_semantics-Bound_example :
    Bound all_utc (λ path. load_attempt path attempt) (state "EXECUTING" null)
validate_bound_state_semantics-Bound_example =
    validate_bound_state_semantics-Bound all_utc (λ path. load_attempt path attempt)
      (state "EXECUTING" null) accepts_bound
