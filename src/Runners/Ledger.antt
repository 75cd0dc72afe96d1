-- ===== src/Runners/Ledger.antt =====
-- `DispatchLedger` of src/vibe/runners/__init__.py: how a dispatch is bound to its provider, completed, retried, accepted
-- and abandoned.
pub mod Owners
pub mod Handover
pub mod Dispatches
pub mod Rotation
pub mod Retry
use vibe_coding_harness.Prelude.{
  ℕ, suc, String, Bool, true, false, not, ◌&&◌, ◌||◌, ◌+◌, Option, none, some, List, [], ◌∷◌, ◌++◌,
  Result, ok, err, ◌>>=◌, ◌>>◌, expect, reject_if, contract, conflict, key_error, eqb, contains,
  any, ◌==◌, if◌then◌else◌,
}
use vibe_coding_harness.Prelude.Dict.{lookup}
use vibe_coding_harness.Json.{
  ℤ, pos, Json, Fields, null, str, list, dict, of_items, keys, get_value, put, remove, as_dict,
  as_str, is_null, is_word, eq,
}
use vibe_coding_harness.Models.Contracts.{ArtifactRef, artifact_as_dict, fields}
use vibe_coding_harness.Models.Validation.Basic.{item}
use vibe_coding_harness.Models.Access.{dict_item, list_item, str_item, modify_item}
use vibe_coding_harness.Store.{Platform, Disk, Logged, append_log}
use vibe_coding_harness.Store.Transactions.{
  Artifacts, References, Mutate, conflict_if, revision_of, load, transact,
}
use vibe_coding_harness.Runners.{
  RoleInvocation, ProviderHandle, as_state_dict, add_pending_dispatch, other_than, pending_of,
  put_pending, is_live, change_active,
}

abbrev superseded : String
superseded = "dispatch was superseded before handle binding"

bind_active : String → ProviderHandle → Json → Fields → Result Fields
unfolding item eq as_state_dict other_than is_live
bind_active attempt_token handle preflight active = do
  token ← item "attempt_token" active
  status ← item "status" active
  own_preflight ← item "preflight" active
  own_handle ← item "provider_handle" active
  conflict_if
      (not (is_word attempt_token token)
        || not (is_live status)
        || not (eq own_preflight preflight)
        || other_than (as_state_dict handle) own_handle)
      superseded
  ok (put "provider_handle" (as_state_dict handle) (put "status" (str "RUNNING") active))

check_runtime : String → String → Json → Fields → Result (Unit {0})
unfolding dict_item item eq
check_runtime attempt_token role operation current = do
  runtimes ← dict_item "role_runtime" current
  runtime ← dict_item role runtimes
  token ← item "active_attempt_token" runtime
  own_operation ← item "operation_id" runtime
  conflict_if (not (is_word attempt_token token) || not (eq own_operation operation)) superseded

unfoldable pub bind_matching_handle : Fields → String → ProviderHandle → ArtifactRef → Result Fields
unfolding pending_of conflict_if item str_item other_than as_state_dict artifact_as_dict
    change_active bind_active check_runtime put_pending
bind_matching_handle current attempt_token handle launch_ref = do
  pending ← pending_of superseded attempt_token current
  conflict_if (not (handle.attempt_token == attempt_token)) superseded
  launch ← item "launch" pending
  own_handle ← item "provider_handle" pending
  conflict_if
      (other_than (artifact_as_dict launch_ref) launch
        || other_than (as_state_dict handle) own_handle)
      superseded
  role ← str_item "role" pending
  task_id ← item "task_id" pending
  preflight ← item "preflight" pending
  operation ← item "operation_id" pending
  bound ←
      (if role == "worker"
        then change_active (conflict superseded) superseded task_id
            (bind_active attempt_token handle preflight) current
        else (check_runtime attempt_token role operation current >> ok current))
  put_pending attempt_token
      (put "provider_handle" (as_state_dict handle)
        (put "launch" (artifact_as_dict launch_ref) pending))
      bound

-- One receipt of `bind` in `bind_completion`.
bind_receipt : String → String → References → String → Fields → Result Fields
unfolding str_item lookup item other_than artifact_as_dict conflict_if
bind_receipt message path_field refs name pending = do
  path ← str_item path_field pending
  reference ← expect (lookup path refs) key_error
  old ← item name pending
  conflict_if (other_than (artifact_as_dict reference) old) message
  ok (put name (artifact_as_dict reference) pending)

bind_result : Bool → References → Fields → Result Fields
unfolding bind_receipt
bind_result false refs pending = ok pending
bind_result true refs pending =
    bind_receipt "Provider result changed during replay" "result_path" refs "result" pending

-- `published`: whether the provider has left a result.
unfoldable pub bind_completion : String → ProviderHandle → Bool → Mutate
unfolding pending_of item eq as_state_dict conflict_if bind_receipt bind_result put_pending
bind_completion attempt_token handle published current refs = do
  pending ← pending_of "dispatch was superseded before completion" attempt_token current
  own_handle ← item "provider_handle" pending
  conflict_if (not (eq own_handle (as_state_dict handle)))
      "dispatch was superseded before completion"
  with_stdout ←
      bind_receipt "completion receipt changed during replay" "stdout_path" refs "stdout" pending
  with_stderr ←
      bind_receipt "completion receipt changed during replay" "stderr_path" refs "stderr"
        with_stdout
  with_exit ←
      bind_receipt "completion receipt changed during replay" "exit_path" refs "exit" with_stderr
  completed ← bind_result published refs with_exit
  put_pending attempt_token completed current

same_optional : Option String → Option String → Bool
same_optional none none = true
same_optional (some a) (some b) = a == b
same_optional _ _ = false

-- `getattr(current, field) == getattr(following, field)` for each stable field.
stable_fields : RoleInvocation → RoleInvocation → List Bool
unfolding same_optional
stable_fields current following =
    (current.role == following.role)
    ∷ same_optional current.task_id following.task_id
    ∷ (current.operation_id == following.operation_id)
    ∷ eqb current.attempt_no following.attempt_no
    ∷ (current.attempt_created_at == following.attempt_created_at)
    ∷ (current.expected_base == following.expected_base)
    ∷ same_optional current.branch following.branch
    ∷ (current.worktree == following.worktree)
    ∷ (current.target_root == following.target_root)
    ∷ (current.run_root == following.run_root)
    ∷ (current.artifact_prefix == following.artifact_prefix)
    ∷ (current.preflight_body == following.preflight_body)
    ∷ []

-- `_validate_retry`
unfoldable pub validate_retry : RoleInvocation → RoleInvocation → Result (Unit {0})
unfolding stable_fields
validate_retry current following = do
  reject_if (any not (stable_fields current following))
      "Provider retry changed semantic Attempt identity"
  reject_if
      (not (eqb following.provider_retry_no (current.provider_retry_no + 1))
        || (following.attempt_token == current.attempt_token))
      "Provider retry counter or token is invalid"

rotate_active : RoleInvocation → ProviderHandle → RoleInvocation → Fields → Result Fields
unfolding item eq as_state_dict conflict_if
rotate_active i handle following active = do
  token ← item "attempt_token" active
  own_handle ← item "provider_handle" active
  conflict_if (not (is_word i.attempt_token token) || not (eq own_handle (as_state_dict handle)))
      "Worker retry owner was superseded"
  ok (
      put "provider_handle" null
        (put "status" (str "RUNNING") (put "attempt_token" (str following.attempt_token) active)))

rotate_runtime : RoleInvocation → RoleInvocation → Fields → Result Fields
unfolding item conflict_if
rotate_runtime i following runtime = do
  token ← item "active_attempt_token" runtime
  conflict_if (not (is_word i.attempt_token token)) "role retry owner was superseded"
  ok (put "active_attempt_token" (str following.attempt_token) runtime)

optional_text : Option String → Json
optional_text none = null
optional_text (some s) = str s

-- The owner of the Attempt gets the new token.
unfoldable pub rotate_owner :
    RoleInvocation → ProviderHandle → RoleInvocation → Fields → Result Fields
unfolding optional_text change_active rotate_active modify_item rotate_runtime
rotate_owner i handle following state =
    if i.role == "worker"
    then change_active key_error "Worker retry owner was superseded" (optional_text i.task_id)
        (rotate_active i handle following) state
    else modify_item "role_runtime" (modify_item i.role (rotate_runtime i following)) state

pub remove_dispatch : String → Fields → Result Fields
unfolding dict_item remove
remove_dispatch attempt_token state = do
  pending ← dict_item "pending_dispatches" state
  expect (as_dict (get_value attempt_token pending)) key_error
  ok (put "pending_dispatches" (dict (remove attempt_token pending)) state)

-- `rotate` in `retry_transient`, for the references of the new dispatch and of the summary.
unfoldable pub rotate :
    RoleInvocation
    → ProviderHandle
    → RoleInvocation
    → ArtifactRef
    → ArtifactRef
    → ArtifactRef
    → ArtifactRef
    → ArtifactRef
    → Fields
    → Result Fields
unfolding pending_of item eq as_state_dict conflict_if rotate_owner list_item remove_dispatch
    add_pending_dispatch put_pending artifact_as_dict
rotate i handle following prompt schema preflight request summary state = do
  old ← pending_of "Provider retry was superseded" i.attempt_token state
  own_handle ← item "provider_handle" old
  conflict_if (not (eq own_handle (as_state_dict handle))) "Provider retry was superseded"
  owned ← rotate_owner i handle following state
  previous_attempts ← list_item "provider_attempts" old
  removed ← remove_dispatch i.attempt_token owned
  added ← add_pending_dispatch removed following prompt schema preflight request
  fresh ← pending_of "Provider retry was superseded" following.attempt_token added
  put_pending following.attempt_token
      (put "provider_attempts"
        (list (of_items (previous_attempts ++ artifact_as_dict summary ∷ []))) fresh)
      added

-- A callback gets the state, the dispatch and the references.
abbrev pub Callback : Type 0
Callback = Fields → Fields → References → Result Fields

-- `close` in `accept_current_result`, and `abandon_current` in `abandon`.
unfoldable pub close_dispatch : String → String → Callback → Mutate
unfolding pending_of remove_dispatch
close_dispatch message attempt_token accept current refs = do
  pending ← pending_of message attempt_token current
  accepted ← accept current pending refs
  remove_dispatch attempt_token accepted

has_dispatch : String → Fields → Result Bool
unfolding dict_item
has_dispatch attempt_token state =
    dict_item "pending_dispatches" state >>= λ pending. ok (contains attempt_token (keys pending))

accepted : List String → Result Fields × Disk → Result Bool × Logged
accepted log (ok state, disk) = (ok true, record { disk = disk; log = log })
accepted log (err e, disk) = (err e, record { disk = disk; log = log })

unfoldable pub stale_event : String → Fields
stale_event attempt_token =
    fields (("event", str "stale-result-rejected") ∷ ("attempt_token", str attempt_token) ∷ [])

module _ (env : Platform) where
  pub transact_at : Artifacts → Mutate → Disk → Result ℕ → Result Fields × Disk
  unfolding transact
  transact_at artifacts mutate disk (err e) = (err e, disk)
  transact_at artifacts mutate disk (ok revision) = transact env revision artifacts mutate disk

  -- A result whose token is not pending is rejected as stale, with a record in the log.
  accept_found :
      String → Artifacts → Callback → Fields → Logged → Result Bool → Result Bool × Logged
  unfolding transact_at revision_of close_dispatch accepted append_log stale_event
  accept_found attempt_token artifacts accept state there (err e) = (err e, there)
  accept_found attempt_token artifacts accept state there (ok false) =
      (ok false, append_log env (stale_event attempt_token) there)
  accept_found attempt_token artifacts accept state there (ok true) = accepted there.log (
      transact_at artifacts (close_dispatch "result owner was superseded" attempt_token accept)
        there.disk (revision_of state))

  accept_loaded : String → Artifacts → Callback → Logged → Result Fields → Result Bool × Logged
  unfolding has_dispatch accept_found
  accept_loaded attempt_token artifacts accept there (err e) = (err e, there)
  accept_loaded attempt_token artifacts accept there (ok state) =
      accept_found attempt_token artifacts accept state there (has_dispatch attempt_token state)

  unfoldable pub accept_current_result :
      String → Artifacts → Callback → Logged → Result Bool × Logged
  unfolding load accept_loaded
  accept_current_result attempt_token artifacts accept there =
      accept_loaded attempt_token artifacts accept there (load env there.disk)

  abandon_found : String → Artifacts → Callback → Fields → Disk → Result Bool → Result Fields × Disk
  unfolding transact_at revision_of close_dispatch
  abandon_found attempt_token artifacts close state disk (err e) = (err e, disk)
  abandon_found attempt_token artifacts close state disk (ok false) =
      (err (conflict "abandon owner was superseded"), disk)
  abandon_found attempt_token artifacts close state disk (ok true) =
      transact_at artifacts (close_dispatch "abandon owner was superseded" attempt_token close) disk
        (revision_of state)

  abandon_loaded : String → Artifacts → Callback → Disk → Result Fields → Result Fields × Disk
  unfolding has_dispatch abandon_found
  abandon_loaded attempt_token artifacts close disk (err e) = (err e, disk)
  abandon_loaded attempt_token artifacts close disk (ok state) =
      abandon_found attempt_token artifacts close state disk (has_dispatch attempt_token state)

  unfoldable pub abandon : String → Artifacts → Callback → Disk → Result Fields × Disk
  unfolding load abandon_loaded
  abandon attempt_token artifacts close disk =
      abandon_loaded attempt_token artifacts close disk (load env disk)
