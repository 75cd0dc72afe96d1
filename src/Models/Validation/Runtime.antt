-- ===== src/Models/Validation/Runtime.antt =====
-- The repository, the Controller, provider handles and the runtimes of the two read-only roles.
use vibe_coding_harness.Prelude.{
  ℕ, String, not, ◌||◌, Option, none, some, List, [], ◌∷◌, Result, ok, ◌>>=◌, ◌>>◌, reject_if, ltb,
  each, ◌==◌,
}
use Prim.Native.String
use vibe_coding_harness.Prelude.Text.{starts_with}
use vibe_coding_harness.Prelude.Patterns.{digest_re, oid_re, operation_id_re}
use vibe_coding_harness.Json.{Json, Fields, null, is_word, is_null}
use vibe_coding_harness.Models.Validation.Basic.{
  item, require_plain_int, require_string, require_exact_fields, require_oid, optional_error,
}

unfoldable pub string_at : String → Fields → Result String
unfolding item require_string
string_at k d = item k d >>= require_string

unfoldable pub int_at : String → ℕ → Fields → Result ℕ
unfolding item require_plain_int
int_at k minimum d = item k d >>= λ v. require_plain_int v minimum

unfoldable pub oid_at : String → Fields → Result String
unfolding item require_oid
oid_at k d = item k d >>= require_oid

-- The loops over field names that only check.
unfoldable pub strings_at : List String → Fields → Result (Unit {0})
unfolding string_at
strings_at names d = each (λ k. string_at k d >>= λ v. ok tt) names

unfoldable pub ints_at : List String → ℕ → Fields → Result (Unit {0})
unfolding int_at
ints_at names minimum d = each (λ k. int_at k minimum d >>= λ v. ok tt) names

unfoldable pub oids_at : List String → Fields → Result (Unit {0})
unfolding oid_at
oids_at names d = each (λ k. oid_at k d >>= λ v. ok tt) names

unfoldable pub validate_repository : Json → String → Result (Unit {0})
unfolding require_exact_fields string_at digest_re oid_re starts_with oid_at item
validate_repository v run_id = do
  repository ←
      require_exact_fields v
        ("identity" ∷ "base_ref" ∷ "base_sha" ∷ "integration_ref" ∷ "integration_head" ∷ [])
  identity ← string_at "identity" repository
  reject_if (not (digest_re identity)) "repository.identity must be canonical"
  base_ref ← string_at "base_ref" repository
  reject_if (not (base_ref == "HEAD" || starts_with base_ref "refs/" || oid_re base_ref))
      "repository.base_ref is invalid"
  base_sha ← oid_at "base_sha" repository
  integration_head ← oid_at "integration_head" repository
  integration_ref ← item "integration_ref" repository
  reject_if (not (is_word (String.◌++◌ "refs/heads/vibe/run-" run_id) integration_ref))
      "repository.integration_ref must equal the run ref"

unfoldable pub validate_controller : Json → Result (Unit {0})
unfolding require_exact_fields int_at string_at
validate_controller null = ok tt
validate_controller v = do
  controller ←
      require_exact_fields v
        ("pid" ∷ "process_start_identity" ∷ "process_group" ∷ "controller_token" ∷ [])
  pid ← int_at "pid" 1 controller
  process_group ← int_at "process_group" 1 controller
  identity ← string_at "process_start_identity" controller
  token ← string_at "controller_token" controller
  ok tt

abbrev pub provider_handle_fields : List String
provider_handle_fields =
    "adapter" ∷ "attempt_token" ∷ "pid" ∷ "process_start_identity" ∷ "process_group" ∷ "child_pid"
    ∷ "child_process_start_identity" ∷ "child_process_group" ∷ []

unfoldable pub validate_provider_handle : Json → Result (Option Fields)
unfolding require_exact_fields strings_at ints_at
validate_provider_handle null = ok none
validate_provider_handle v = do
  handle ← require_exact_fields v provider_handle_fields
  strings_at ("adapter" ∷ "attempt_token" ∷ []) handle
  ints_at ("pid" ∷ "process_group" ∷ "child_pid" ∷ "child_process_group" ∷ []) 1 handle
  strings_at ("process_start_identity" ∷ "child_process_start_identity" ∷ []) handle
  ok (some handle)

check_operation_id : Json → Result (Unit {0})
unfolding require_string operation_id_re
check_operation_id null = ok tt
check_operation_id v = do
  operation ← require_string v
  reject_if (not (operation_id_re operation)) "operation_id is invalid"

check_active_token : Json → Json → ℕ → Result (Unit {0})
unfolding require_string
check_active_token null operation_id attempt_no = ok tt
check_active_token token operation_id attempt_no = do
  text ← require_string token
  reject_if (is_null operation_id || ltb attempt_no 1) "active token lacks operation identity"

-- One round of the loop of `_validate_role_runtime`.
unfoldable pub validate_runtime : Json → Result (Unit {0})
unfolding require_exact_fields item check_operation_id int_at check_active_token optional_error
validate_runtime v = do
  runtime ← require_exact_fields v (
      "operation_id" ∷ "attempt_no" ∷ "failure_count" ∷ "max_attempts" ∷ "active_attempt_token"
      ∷ "last_error" ∷ [])
  operation_id ← item "operation_id" runtime
  check_operation_id operation_id
  attempt_no ← int_at "attempt_no" 0 runtime
  failures ← int_at "failure_count" 0 runtime
  maximum ← int_at "max_attempts" 1 runtime
  reject_if (ltb maximum failures) "failure_count exceeds limit"
  token ← item "active_attempt_token" runtime
  check_active_token token operation_id attempt_no
  last_error ← (item "last_error" runtime >>= optional_error)
  ok tt

unfoldable pub validate_role_runtime : Json → Result (Unit {0})
unfolding require_exact_fields item validate_runtime
validate_role_runtime v = do
  roles ← require_exact_fields v ("planner" ∷ "evaluator" ∷ [])
  each (λ role. item role roles >>= validate_runtime) ("planner" ∷ "evaluator" ∷ [])
