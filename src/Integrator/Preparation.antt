-- ===== src/Integrator/Preparation.antt =====
-- What `_persist_pending` writes before the branch moves, in src/vibe/integrator.py.
use Prim.Native.String
use vibe_coding_harness.Prelude.{
  ℕ, String, ◌≡◌, refl, sym, ap, ◌∙◌, Option, none, some, [], ◌∷◌, ◌++◌, Result, ok, ◌>>=◌, expect,
  key_error, contract, reject_if, not, next, ok-injective, eq_refl,
}
use vibe_coding_harness.Prelude.Dict.{lookup}
use vibe_coding_harness.Prelude.Decimal.{decimal}
use vibe_coding_harness.Json.{
  Json, Fields, null, str, list, dict, of_items, get, get_value, get_or, put, is_null, as_dict,
}
use vibe_coding_harness.Json.Laws.{get-put}
use vibe_coding_harness.Models.Contracts.{ArtifactRef, artifact_as_dict, fields, nat}
use vibe_coding_harness.Models.Validation.Basic.{item}
use vibe_coding_harness.Models.Access.{dict_item, list_item, str_item, append_item}
use vibe_coding_harness.Store.Transactions.{References}
use vibe_coding_harness.Integrator.{
  PendingIntegration, pending_as_dict, pending_from_state, pending_of, as_nat, nat_item,
  check_ready, bind_task, bind,
}

-- The body of the manifest of the Worker's Attempt.
unfoldable pub manifest_body :
    String → ℕ → ArtifactRef → ArtifactRef → String → Fields → Fields → Result Json
unfolding item artifact_as_dict decimal
manifest_body contract_id attempt_no source_audit verification completed_at task active = do
  attempt_token ← item "attempt_token" active
  created_at ← item "created_at" active
  expected_base ← item "task_base_sha" active
  branch ← item "branch" active
  worktree ← item "worktree" active
  preflight ← item "preflight" active
  result ← item "result" task
  ok (
      dict (
        fields (
          ("schema_version", nat 1)
          ∷ ("role", str "worker")
          ∷ (
            "operation_id",
            str (
                String.◌++◌ "WORK-"
                  (String.◌++◌ contract_id (String.◌++◌ "-A" (decimal attempt_no)))),
          )
          ∷ ("task_id", str contract_id)
          ∷ ("attempt_no", nat attempt_no)
          ∷ ("attempt_token", attempt_token)
          ∷ ("status", str "SUCCEEDED")
          ∷ ("created_at", created_at)
          ∷ ("completed_at", str completed_at)
          ∷ ("expected_base", expected_base)
          ∷ ("branch", branch)
          ∷ ("worktree", worktree)
          ∷ ("preflight", preflight)
          ∷ ("prompt_versions", list (of_items []))
          ∷ ("provider_attempts", list (of_items []))
          ∷ ("request", null)
          ∷ ("launch", null)
          ∷ ("stdout", null)
          ∷ ("stderr", null)
          ∷ ("exit", null)
          ∷ ("result", result)
          ∷ ("source_audit", artifact_as_dict source_audit)
          ∷ ("verification", artifact_as_dict verification)
          ∷ ("last_error", null)
          ∷ [])))

read_back :
    (p : PendingIntegration)
    → (expect (as_dict (pending_as_dict p)) (contract "there is no pending integration to recover")
        >>= pending_from_state)
      ≡ ok p
unfolding pending_as_dict pending_from_state get artifact_as_dict dict_item str_item item nat_item
    as_nat
read_back p = refl

get_value-some : (k : String) (d : Fields) (v : Json) → get k d ≡ some v → get_value k d ≡ v
unfolding get_value get_or
get_value-some k d v h =
    ap (λ (o : Option Json). elim o as (λ o'. Json) [ none ↦ null | some w ↦ w ]) h

pending_of-read :
    (p : PendingIntegration) (d : Fields)
    → get "pending_integration" d ≡ some (pending_as_dict p)
    → pending_of d ≡ ok p
unfolding pending_of
pending_of-read p d h =
    ap
      (λ v.
        expect (as_dict v) (contract "there is no pending integration to recover")
        >>= pending_from_state)
      (get_value-some "pending_integration" d (pending_as_dict p) h)
    ∙ read_back p

-- The state with the marker of a prepared integration.
pub record Marked (contract_id : String) (candidate : ArtifactRef) (p : PendingIntegration)
    (new : Fields) : Type 0 where
  pub readable : pending_of new ≡ ok p
  pub tasks : Fields
  pub tasks_read : get "tasks" new ≡ some (dict tasks)
  pub task : Fields
  pub task_read : get contract_id tasks ≡ some (dict task)
  pub task_status : get "status" task ≡ some (str "INTEGRATING")
  pub no_active : get "active_attempt" task ≡ some null
  pub verification : get "verification" task ≡ some (artifact_as_dict candidate)

append_item-put :
    (k : String) (v : Json) (d new : Fields)
    → append_item k v d ≡ ok new
    → (w : Json) × (new ≡ put k w d)
unfolding append_item
append_item-put k v d new h =
    next (list_item k d) _ h (λ xs _ h1. (list (of_items (xs ++ v ∷ [])), sym (ok-injective h1)))

record BoundTask (verification : ArtifactRef) (task : Fields) : Type 0 where
  status : get "status" task ≡ some (str "INTEGRATING")
  active : get "active_attempt" task ≡ some null
  verified : get "verification" task ≡ some (artifact_as_dict verification)

bind_task-BoundTask :
    (manifest : Json) (verification : ArtifactRef) (task bound : Fields)
    → bind_task manifest verification task ≡ ok bound
    → BoundTask verification bound
unfolding bind_task
bind_task-BoundTask manifest verification task bound h =
    next (append_item "attempts" manifest task) _ h (λ listed _ h1.
      let e = sym (ok-injective h1) in
      record {
        status = rw e (simp get-put);
        active = rw e (simp get-put);
        verified = rw e (simp get-put);
      })

pub bind-Marked :
    (path contract_id : String) (candidate : ArtifactRef) (p : PendingIntegration) (active : Json)
    (now : String) (given : Fields) (refs : References) (updated new : Fields) (n : ℕ)
    → bind path contract_id candidate p active now given refs ≡ ok updated
    → new ≡ put "revision" (nat n) updated
    → Marked contract_id candidate p new
unfolding bind
bind-Marked path contract_id candidate p active now given refs updated new n h e =
    next (item "pending_integration" given) _ h (λ marker _ h1.
      next (reject_if (not (is_null marker)) "pending integration was concurrently created") _ h1
        (λ _ _ h2. next (dict_item "tasks" given) _ h2 (λ tasks _ h3.
          next (dict_item contract_id tasks) _ h3 (λ task _ h4.
            next (dict_item "repository" given) _ h4 (λ repository _ h5.
              next (check_ready p active task repository) _ h5 (λ _ _ h6.
                next (expect (lookup path refs) key_error) _ h6 (λ manifest _ h7.
                  next (bind_task (artifact_as_dict manifest) candidate task) _ h7
                    (λ bound binding h8.
                      next
                        (append_item "verifications" (artifact_as_dict candidate)
                          (put "tasks" (dict (put contract_id (dict bound) tasks)) given))
                        _ h8
                        (λ listed listing h9.
                          let (w, listed_is) =
                            append_item-put "verifications" (artifact_as_dict candidate)
                              (put "tasks" (dict (put contract_id (dict bound) tasks)) given) listed
                              listing in
                          let all_is = e ∙ ap (put "revision" (nat n)) (sym (ok-injective h9)) in
                          let b =
                            bind_task-BoundTask (artifact_as_dict manifest) candidate task bound
                              binding in
                          record {
                            readable = pending_of-read p new (rw all_is (simp get-put));
                            tasks = put contract_id (dict bound) tasks;
                            tasks_read = rw all_is (rw listed_is (simp get-put));
                            task = bound;
                            task_read = rw (get-put, eq_refl);
                            task_status = b.status;
                            no_active = b.active;
                            verification = b.verified;
                          })))))))))
