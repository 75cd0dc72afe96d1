-- ===== src/Models/Manifest/Ended.antt =====
-- What a manifest that `validate_attempt_manifest` of src/vibe/models.py accepts has.
use vibe_coding_harness.Prelude.{
  next, true_of_not, ℕ, String, Bool, true, false, not, ◌&&◌, ◌||◌, ◌≡◌, refl, sym, ap, subst, ◌∙◌,
  Option, none, some, ok, ◌>>=◌, >>=-eq-ok, past_reject_if, reject_if-ok, ok-injective, expect,
  contract, map_result, arith, ◌==◌, ◌⊎◌, inl, inr, and-true_parts, eq_iff,
}
use vibe_coding_harness.Json.{ℤ, Json, Fields, str, as_list, get_value, is_word}
use vibe_coding_harness.Models.Status.{AttemptStatus}
use vibe_coding_harness.Models.Contracts.{ArtifactRef, AttemptManifest}
use vibe_coding_harness.Models.Validation.Basic.{
  item, require_exact_fields, require_relative_path, artifact_list, optional_error,
}
use vibe_coding_harness.Models.Validation.Runtime.{string_at, int_at, oid_at}
use vibe_coding_harness.Models.Validation.Tasks.{attempt_status_of, is_none}
use vibe_coding_harness.Models.Manifest.{
  attempt_manifest_fields, parse_prompt_ref, read_role, read_owner, has_ended, read_status,
  read_times, optional_at, is_succeeded, is_cancelled, error_has_code, has_no_artifact,
  null_preflight_allowed, check_artifacts, read_manifest, validate_attempt_manifest,
}

-- The ways in which an Attempt ends.
abbrev pub HasEnded : AttemptStatus → Type 0
HasEnded status =
    (status ≡ AttemptStatus.succeeded)
    ⊎ ((status ≡ AttemptStatus.failed)
        ⊎ ((status ≡ AttemptStatus.cancelled) ⊎ (status ≡ AttemptStatus.abandoned)))

-- A worker that was cancelled before it had a worktree, and has left nothing.
pub record Unmaterialized (m : AttemptManifest) : Type 0 where
  pub is_worker : m.role ≡ "worker"
  pub is_cancelled : m.status ≡ AttemptStatus.cancelled
  pub error : Fields
  pub error_read : m.last_error ≡ some error
  pub code : get_value "code" error ≡ str "CANCELLED_BEFORE_MATERIALIZATION"
  pub no_request : m.request ≡ none
  pub no_launch : m.launch ≡ none
  pub no_stdout : m.stdout ≡ none
  pub no_stderr : m.stderr ≡ none
  pub no_exit : m.exit ≡ none
  pub no_result : m.result ≡ none
  pub no_source_audit : m.source_audit ≡ none
  pub no_verification : m.verification ≡ none

-- What there is of an Attempt, by the way in which it ended.
pub record Ended (m : AttemptManifest) : Type 0 where
  pub has_status : HasEnded m.status
  pub has_preflight : m.preflight ≡ none → Unmaterialized m
  pub delivered :
      m.status ≡ AttemptStatus.succeeded
      → m.role ≡ "worker"
      → ((r : ArtifactRef) × (m.result ≡ some r))
        × ((r : ArtifactRef) × (m.source_audit ≡ some r))
        × ((r : ArtifactRef) × (m.verification ≡ some r))

has_ended-HasEnded : (status : AttemptStatus) → has_ended status ≡ true → HasEnded status
has_ended-HasEnded AttemptStatus.succeeded h = inl refl
has_ended-HasEnded AttemptStatus.failed h = inr (inl refl)
has_ended-HasEnded AttemptStatus.cancelled h = inr (inr (inl refl))
has_ended-HasEnded AttemptStatus.abandoned h = inr (inr (inr refl))
has_ended-HasEnded _ h = cc

missing : (o : Option ArtifactRef) → is_none o ≡ true → o ≡ none
missing none h = refl
missing (some r) h = cc

was_cancelled :
    (status : AttemptStatus) → is_cancelled status ≡ true → status ≡ AttemptStatus.cancelled
was_cancelled AttemptStatus.cancelled h = refl
was_cancelled _ h = cc

is_word-str : (w : String) (v : Json) → is_word w v ≡ true → v ≡ str w
is_word-str w (str s) h = ap (λ x. str x) ((eq_iff s w).0 h)
is_word-str w _ h = cc

error_has_code-read :
    (code : String) (o : Option Fields)
    → error_has_code code o ≡ true
    → (error : Fields) × (o ≡ some error) × (get_value "code" error ≡ str code)
unfolding error_has_code
error_has_code-read code none h = cc
error_has_code-read code (some error) h = (error, refl, is_word-str code (get_value "code" error) h)

null_preflight_allowed-Unmaterialized :
    (m : AttemptManifest) → null_preflight_allowed m ≡ true → Unmaterialized m
unfolding null_preflight_allowed
null_preflight_allowed-Unmaterialized m h =
    let (h1, nothing) = and-true_parts _ (has_no_artifact m) h in
    let (h2, coded) =
      and-true_parts _ (error_has_code "CANCELLED_BEFORE_MATERIALIZATION" m.last_error) h1 in
    let (worker, cancelled) = and-true_parts (m.role == "worker") (is_cancelled m.status) h2 in
    let (error, error_read, code) =
      error_has_code-read "CANCELLED_BEFORE_MATERIALIZATION" m.last_error coded in
    let (h3, verification) = and-true_parts _ (is_none m.verification) nothing in
    let (h4, audit) = and-true_parts _ (is_none m.source_audit) h3 in
    let (h5, result) = and-true_parts _ (is_none m.result) h4 in
    let (h6, exit) = and-true_parts _ (is_none m.exit) h5 in
    let (h7, stderr) = and-true_parts _ (is_none m.stderr) h6 in
    let (h8, stdout) = and-true_parts _ (is_none m.stdout) h7 in
    let (request, launch) = and-true_parts (is_none m.request) (is_none m.launch) h8 in
    record {
      is_worker = (eq_iff m.role "worker").0 worker;
      is_cancelled = was_cancelled m.status cancelled;
      error = error;
      error_read = error_read;
      code = code;
      no_request = missing m.request request;
      no_launch = missing m.launch launch;
      no_stdout = missing m.stdout stdout;
      no_stderr = missing m.stderr stderr;
      no_exit = missing m.exit exit;
      no_result = missing m.result result;
      no_source_audit = missing m.source_audit audit;
      no_verification = missing m.verification verification;
    }

there : (o : Option ArtifactRef) → is_none o ≡ false → (r : ArtifactRef) × (o ≡ some r)
there none h = cc
there (some r) h = (r, refl)

read_status-ended :
    (raw : Fields) (status : AttemptStatus) → read_status raw ≡ ok status → has_ended status ≡ true
unfolding read_status
read_status-ended raw status h =
    let (s, _, h1) = >>=-eq-ok (item "status" raw >>= attempt_status_of) _ h in
    let (ended, h2) =
      past_reject_if (not (has_ended s)) "attempt manifest status must be terminal" _ h1 in
    rw (← ok-injective h2) (true_of_not (has_ended s) ended)

read_manifest-status :
    (f : String → Option (Bool × ℤ)) (raw : Fields) (identity : String × String)
    (owner : Option String × Option String) (attempt_no : ℕ) (attempt_token : String)
    (status : AttemptStatus) (m : AttemptManifest)
    → read_manifest f raw identity owner attempt_no attempt_token status ≡ ok m
    → m.status ≡ status
unfolding read_manifest
read_manifest-status f raw identity owner attempt_no attempt_token status m h =
    next (read_times f raw) _ h (λ _ _ h1. next (oid_at "expected_base" raw) _ h1 (λ _ _ h2.
      next (item "worktree" raw >>= require_relative_path) _ h2 (λ _ _ h3.
        next (optional_at "preflight" raw) _ h3 (λ _ _ h4.
          next
            (item "prompt_versions" raw >>= λ v.
              expect (as_list v) (contract "attempt manifest prompt_versions must be an array"))
            _ h4
            (λ values _ h5. next (map_result parse_prompt_ref values) _ h5 (λ _ _ h6.
              next (item "provider_attempts" raw >>= artifact_list) _ h6 (λ _ _ h7.
                next (optional_at "request" raw) _ h7 (λ _ _ h8.
                  next (optional_at "launch" raw) _ h8 (λ _ _ h9.
                    next (optional_at "stdout" raw) _ h9 (λ _ _ h10.
                      next (optional_at "stderr" raw) _ h10 (λ _ _ h11.
                        next (optional_at "exit" raw) _ h11 (λ _ _ h12.
                          next (optional_at "result" raw) _ h12 (λ _ _ h13.
                            next (optional_at "source_audit" raw) _ h13 (λ _ _ h14.
                              next (optional_at "verification" raw) _ h14 (λ _ _ h15.
                                next (item "last_error" raw >>= optional_error) _ h15 (λ _ _ h16.
                                  sym (ap (λ a. a.status) (ok-injective h16))))))))))))))))))

delivered_parts :
    (result audit verification : Option ArtifactRef)
    → (is_none result || is_none audit || is_none verification) ≡ false
    → ((r : ArtifactRef) × (result ≡ some r))
      × ((r : ArtifactRef) × (audit ≡ some r))
      × ((r : ArtifactRef) × (verification ≡ some r))
delivered_parts result audit verification h =
    (there result (ground arith), there audit (ground arith), there verification (ground arith))

check_artifacts-Ended :
    (m : AttemptManifest) → has_ended m.status ≡ true → check_artifacts m ≡ ok tt → Ended m
unfolding check_artifacts
check_artifacts-Ended m ended h =
    let (preflight, h1) =
      past_reject_if (is_none m.preflight && not (null_preflight_allowed m))
        "attempt manifest preflight is required" _ h in
    let artifacts =
      reject_if-ok
        ((is_succeeded m.status && (m.role == "worker"))
          && (is_none m.result || is_none m.source_audit || is_none m.verification))
        "successful Worker attempt requires an artifact" h1 in
    record {
      has_status = has_ended-HasEnded m.status ended;
      has_preflight = λ nothing.
          let known = rw nothing at preflight in
          null_preflight_allowed-Unmaterialized m (true_of_not (null_preflight_allowed m) known);
      delivered = λ succeeds is_worker.
          delivered_parts m.result m.source_audit m.verification
            (rw (succeeds, is_worker) at artifacts);
    }

-- A manifest that `validate_attempt_manifest` accepts has one of the statuses SUCCEEDED, FAILED,
-- CANCELLED and ABANDONED. It has a preflight, unless it is of a worker that is CANCELLED with
-- the error code CANCELLED_BEFORE_MATERIALIZATION and names no request, receipt, result, source audit or verification;
-- and a worker that succeeded has left a result, a source audit and a verification.
pub validate_attempt_manifest-Ended :
    (from_isoformat : String → Option (Bool × ℤ)) (value : Json) (m : AttemptManifest)
    → validate_attempt_manifest from_isoformat value ≡ ok m
    → Ended m
unfolding validate_attempt_manifest
validate_attempt_manifest-Ended f value m h =
    let (raw, _, h1) = >>=-eq-ok (require_exact_fields value attempt_manifest_fields) _ h in
    let (identity, _, h2) = >>=-eq-ok (read_role raw) _ h1 in
    let (owner, _, h3) = >>=-eq-ok (read_owner (identity.0) raw) _ h2 in
    let (attempt_no, _, h4) = >>=-eq-ok (int_at "attempt_no" 1 raw) _ h3 in
    let (token, _, h5) = >>=-eq-ok (string_at "attempt_token" raw) _ h4 in
    let (status, ended, h6) = >>=-eq-ok (read_status raw) _ h5 in
    let (m', made, h7) =
      >>=-eq-ok (read_manifest f raw identity owner attempt_no token status) _ h6 in
    let (_, checked, h8) = >>=-eq-ok (check_artifacts m') _ h7 in
    let same = read_manifest-status f raw identity owner attempt_no token status m' made in
    subst (λ a. Ended a) (ok-injective h8)
      (check_artifacts-Ended m' (ap has_ended same ∙ read_status-ended raw status ended) checked)
