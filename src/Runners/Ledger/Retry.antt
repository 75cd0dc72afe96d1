-- ===== src/Runners/Ledger/Retry.antt =====
-- `retry_transient` of src/vibe/runners/__init__.py, up to its start of the new provider.
pub mod Retried
use Prim.Native.String
use vibe_coding_harness.Prelude.{
  ℕ, suc, ◌==◌, String, false, not, ◌≡◌, refl, sym, ap, subst, ◌∙◌, some, [], ◌∷◌, Result, ok, err,
  ◌>>=◌, ◌>>◌, expect, expect-some, key_error, next, ok-injective,
}
use vibe_coding_harness.Prelude.Dict.{lookup}
use vibe_coding_harness.Json.{Json, Fields, str, dict, get, put, is_null, eq}
use vibe_coding_harness.Json.Laws.{get-put}
use vibe_coding_harness.Models.Contracts.{ArtifactRef, fields, nat}
use vibe_coding_harness.Models.Validation.Basic.{item}
use vibe_coding_harness.Store.{Platform, Disk}
use vibe_coding_harness.Store.Transactions.{
  Artifacts, References, Mutate, conflict_if, revision_of, load,
}
use vibe_coding_harness.Store.Transactions.Committed.{Prepared, Committed}
use vibe_coding_harness.Runners.{
  RoleInvocation, ProviderHandle, as_state_dict, provider_prefix, pending_of,
}
use vibe_coding_harness.Runners.Ledger.{validate_retry, rotate, transact_at}

abbrev not_terminal : String
not_terminal = "Provider retry source is not current and terminal"

-- The dispatch that is retried: it is pending, it has the handle, and its provider has ended.
unfoldable pub check_source : RoleInvocation → ProviderHandle → Fields → Result Fields
unfolding pending_of item eq as_state_dict conflict_if
check_source i handle current = do
  old ← pending_of not_terminal i.attempt_token current
  own_handle ← item "provider_handle" old
  conflict_if (not (eq own_handle (as_state_dict handle))) not_terminal
  exit ← item "exit" old
  conflict_if (is_null exit) not_terminal
  ok old

summary_body : RoleInvocation → Fields → Result Json
unfolding item
summary_body i old = do
  launch ← item "launch" old
  stdout ← item "stdout" old
  stderr ← item "stderr" old
  exit ← item "exit" old
  result ← item "result" old
  ok (
      dict (
        fields (
          ("attempt_token", str i.attempt_token)
          ∷ ("provider_retry_no", nat i.provider_retry_no)
          ∷ ("launch", launch)
          ∷ ("stdout", stdout)
          ∷ ("stderr", stderr)
          ∷ ("exit", exit)
          ∷ ("result", result)
          ∷ [])))

prompt_path : RoleInvocation → String
unfolding provider_prefix
prompt_path f = String.◌++◌ (provider_prefix f) "/prompt.md"

schema_path : RoleInvocation → String
unfolding provider_prefix
schema_path f = String.◌++◌ (provider_prefix f) "/output.schema.json"

preflight_path : RoleInvocation → String
preflight_path f = String.◌++◌ f.artifact_prefix "/preflight.json"

request_path : RoleInvocation → String
unfolding provider_prefix
request_path f = String.◌++◌ (provider_prefix f) "/request.json"

unfoldable pub summary_path : RoleInvocation → String
unfolding provider_prefix
summary_path i = String.◌++◌ (provider_prefix i) "/provider-attempt.json"

-- The artifacts of the transaction. `request_body` is the JSON of `provider_request_for`, which joins
-- paths of the file system.
retry_artifacts :
    Platform → RoleInvocation → ProviderHandle → RoleInvocation → String → Fields → Result Artifacts
unfolding check_source summary_body prompt_path schema_path preflight_path request_path summary_path
retry_artifacts env i handle following request_body current = do
  old ← check_source i handle current
  summary ← summary_body i old
  ok (
      (prompt_path following, following.prompt_body)
      ∷ (schema_path following, following.schema_body)
      ∷ (preflight_path following, following.preflight_body)
      ∷ (request_path following, request_body)
      ∷ (summary_path i, env.dumps summary)
      ∷ [])

-- `rotate` of the source, which has its references from the transaction.
unfoldable pub rotate_refs : RoleInvocation → ProviderHandle → RoleInvocation → Mutate
unfolding lookup prompt_path schema_path preflight_path request_path summary_path rotate
rotate_refs i handle following current refs = do
  prompt ← expect (lookup (prompt_path following) refs) key_error
  schema ← expect (lookup (schema_path following) refs) key_error
  preflight ← expect (lookup (preflight_path following) refs) key_error
  request ← expect (lookup (request_path following) refs) key_error
  summary ← expect (lookup (summary_path i) refs) key_error
  rotate i handle following prompt schema preflight request summary current

module _ (env : Platform) where
  retry_found :
      RoleInvocation
      → ProviderHandle
      → RoleInvocation
      → Fields
      → Disk
      → Result Artifacts
      → Result Fields × Disk
  unfolding transact_at rotate_refs revision_of
  retry_found i handle following current disk (err e) = (err e, disk)
  retry_found i handle following current disk (ok artifacts) =
      transact_at env artifacts (rotate_refs i handle following) disk (revision_of current)

  retry_loaded :
      RoleInvocation
      → ProviderHandle
      → RoleInvocation
      → String
      → Disk
      → Result Fields
      → Result Fields × Disk
  unfolding retry_artifacts retry_found
  retry_loaded i handle following request_body disk (err e) = (err e, disk)
  retry_loaded i handle following request_body disk (ok current) =
      retry_found i handle following current disk
        (retry_artifacts env i handle following request_body current)

  retry_valid :
      RoleInvocation
      → ProviderHandle
      → RoleInvocation
      → String
      → Disk
      → Result (Unit {0})
      → Result Fields × Disk
  unfolding load retry_loaded
  retry_valid i handle following request_body disk (err e) = (err e, disk)
  retry_valid i handle following request_body disk (ok _) =
      retry_loaded i handle following request_body disk (load env disk)

  -- The state that the transaction has written, for the start of the new provider.
  unfoldable pub retry_dispatch :
      RoleInvocation → ProviderHandle → RoleInvocation → String → Disk → Result Fields × Disk
  unfolding validate_retry retry_valid
  retry_dispatch i handle following request_body disk =
      retry_valid i handle following request_body disk (validate_retry i following)
