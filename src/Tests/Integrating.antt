-- ===== src/Tests/Integrating.antt =====
-- A run whose Task is integrated, on a disk and in a repository: src/vibe/state_store.py and
-- src/vibe/integrator.py.
use vibe_coding_harness.Prelude.{
  ℕ, String, true, ◌≡◌, ◌≢◌, refl, ap, Option, some, none, Result, ok, err, contract, value_error,
  List, [], ◌∷◌, ◌==◌, eq_iff, subst, if◌then◌else◌, Bool-cases, inl, inr, Error,
}
use vibe_coding_harness.Json.{Json, Fields, null, bool, str, list, dict, nil, put, get, of_items}
use vibe_coding_harness.Models.Contracts.{ArtifactRef, fields, nat}
use vibe_coding_harness.Store.{Platform, Disk}
use vibe_coding_harness.Store.Transactions.{Artifacts, Mutate, load, transact, write_all}
use vibe_coding_harness.Store.Transactions.Atomic.{transact-atomic}
use vibe_coding_harness.Store.Transactions.Committed.{Committed, transact-Committed, transact-once}
use vibe_coding_harness.Models.Status.{RunStatus}
use vibe_coding_harness.Integrator.{
  retry_cas, complete_state, pause, PendingIntegration, pending_of, pending_as_dict,
  integration_ref,
}
use vibe_coding_harness.Integrator.World.{Git, World}
use vibe_coding_harness.Integrator.Protocol.{recover}
use vibe_coding_harness.Integrator.Protocol.Recovery.{GitLaws, Recovered}
use vibe_coding_harness.Integrator.Protocol.Settled.{recover-Recovered}
use vibe_coding_harness.Integrator.Protocol.Branch.{MovesOnly, recover-MovesOnly}
use vibe_coding_harness.Integrator.Protocol.Halted.{recover_halted}
use vibe_coding_harness.Tests.Validating.{all_utc, digest, oid, reference, run, manifest}

abbrev pub candidate : String
candidate = "89abcdef0123456789abcdef0123456789abcdef"

abbrev pub elsewhere : String
elsewhere = "fedcba9876543210fedcba9876543210fedcba98"

abbrev pub verification : ArtifactRef
verification = record { path = "verification.json"; sha256 = digest }

abbrev pub marker : PendingIntegration
marker = record {
  operation_id = "INTEGRATE-TASK-001-001";
  task_id = "TASK-001";
  attempt_no = 1;
  expected_head = oid;
  candidate_head = candidate;
  source_base = oid;
  source_head = elsewhere;
  verification = verification;
}

abbrev pub task : Json
task = dict (
    fields (
      ("task", reference "task.json")
      ∷ ("status", str "INTEGRATING")
      ∷ ("attempt_no", nat 1)
      ∷ ("failure_count", nat 0)
      ∷ ("max_attempts", nat 2)
      ∷ ("active_attempt", null)
      ∷ ("attempts", list (of_items (reference "attempt.json" ∷ [])))
      ∷ ("result", reference "result.json")
      ∷ ("verification", reference "verification.json")
      ∷ ("source_commits", list (of_items (str elsewhere ∷ [])))
      ∷ ("integrated_commits", list nil)
      ∷ ("last_error", null)
      ∷ []))

abbrev pub indexed : List String → List Json
indexed [] = []
indexed (path ∷ paths) = reference path ∷ indexed paths

abbrev pub bound : List String
bound =
    "creation/intent.json" ∷ "config.json" ∷ "task.json" ∷ "attempt.json" ∷ "result.json"
    ∷ "verification.json" ∷ []

abbrev pub state : String → Json → Fields
state status resume = put "artifact_index" (list (of_items (indexed bound))) (
    put "tasks" (dict (fields (("TASK-001", task) ∷ [])))
      (put "pending_integration" (pending_as_dict marker) (run status resume)))

abbrev pub attempt : Fields
attempt = put "role" (str "worker") (
    put "task_id" (str "TASK-001") (
      put "branch" (str "refs/heads/vibe/task") (
        put "result" (reference "result.json") (
          put "verification" (reference "verification.json") (
            put "source_audit" (reference "audit.json") (manifest (reference "preflight.json")))))))

abbrev pub files : List String → List (String × String)
files [] = []
files (path ∷ paths) = (path, path) ∷ files paths

abbrev pub disk : String → Json → Disk
disk status resume = record { state = some (dict (state status resume)); artifacts = files bound }

-- Every file is its own name, and has the one digest.
pub loads : String → Option Json
loads text =
    if text == "attempt.json"
    then some (dict attempt)
    else if text == "verification.json"
    then some (dict (fields (("commit_sha", str candidate) ∷ ("passed", bool true) ∷ [])))
    else none

abbrev pub env : Platform
env = record {
  from_isoformat = all_utc;
  sha256_hex = λ text. "0123456789abcdef0123456789abcdef0123456789abcdef0123456789abcdef";
  loads = loads;
  dumps = λ v. "{}";
}

-- A repository with one branch.
pub record Branch : Type 0 where
  name : String
  commit : String

pub resolve : String → Branch → Result String
resolve ref b = if b.name == ref then ok b.commit else err value_error

pub update : String → String → String → Branch → Result (Unit {0}) × Branch
update ref new old b =
    if b.name == ref
    then (if b.commit == old
        then (ok tt, record { name = b.name; commit = new })
        else (err value_error, b))
    else (err value_error, b)

abbrev pub git : Git Branch
git = record {
  resolve_ref = resolve;
  update_ref = update;
  commit_parents = λ commit b. ok (commit ∷ oid ∷ []);
}

abbrev pub branch : String → Branch
branch commit = record { name = "refs/heads/vibe/run-RUN-20260723-001"; commit = commit }

abbrev pub world : String → Json → String → World Branch
world status resume commit = record { disk = disk status resume; repository = branch commit }

running : Unit {0}
unfolding put load transact recover pending_of integration_ref pending_as_dict loads resolve update
running = tt

loads_state : load env (disk "EXECUTING" null) ≡ ok (state "EXECUTING" null)
unfolding running
loads_state = refl

abbrev pub now : String
now = "2026-07-24T00:00:00+00:00"

after_recovery : String → String → World Branch
unfolding running
after_recovery status commit = (recover env git now (world status null commit)).1

recovers_by_swap :
    recover env git now (world "EXECUTING" null oid)
    ≡ (ok retry_cas, after_recovery "EXECUTING" oid)
unfolding running after_recovery
recovers_by_swap = refl

moves_branch : (after_recovery "EXECUTING" oid).repository ≡ branch candidate
unfolding running after_recovery
moves_branch = refl

recovers_by_completion :
    recover env git now (world "EXECUTING" null candidate)
    ≡ (ok complete_state, after_recovery "EXECUTING" candidate)
unfolding running after_recovery
recovers_by_completion = refl

recovers_by_pause :
    recover env git now (world "EXECUTING" null elsewhere)
    ≡ (ok pause, after_recovery "EXECUTING" elsewhere)
unfolding running after_recovery
recovers_by_pause = refl

refuses_halted : recover env git now (world "PAUSED" (str "EXECUTING") elsewhere) ≡ (
  err (contract "resume_status must name an active state"),
  world "PAUSED" (str "EXECUTING") elsewhere,
)
unfolding running
refuses_halted = refl

update-moves :
    (ref new old : String) (b b' : Branch)
    → update ref new old b ≡ (ok tt, b')
    → (resolve ref b ≡ ok old) × (resolve ref b' ≡ ok new)
unfolding update resolve
update-moves ref new old b b' h = elim (Bool-cases (b.name == ref)) [
  | inl named ↦ elim (Bool-cases (b.commit == old)) [
    | inl at ↦
        let moved = ap (λ (x : Result (Unit {0}) × Branch). x.1) (rw (named, at) at h) in
        (
          rw named (ap (λ x. ok x) ((eq_iff b.commit old).0 at)),
          subst (λ x. resolve ref x ≡ ok new) moved (rw named refl),
        )
    | inr elsewhere ↦ let broken = rw (named, elsewhere) at h in cc
  ]
  | inr other ↦ let broken = rw other at h in cc
]

update-refuses :
    (ref new old : String) (b b' : Branch) (e : Error) → update ref new old b ≡ (err e, b') → b' ≡ b
unfolding update
update-refuses ref new old b b' e h = elim (Bool-cases (b.name == ref)) [
  | inl named ↦ elim (Bool-cases (b.commit == old)) [
    | inl at ↦ let broken = rw (named, at) at h in cc
    | inr elsewhere ↦ let kept = rw (named, elsewhere) at h in cc
  ]
  | inr other ↦ let kept = rw other at h in cc
]

git-GitLaws : GitLaws git
git-GitLaws = record { moves = update-moves; refuses = update-refuses }

mark_goal : Fields → List (String × ArtifactRef) → Result Fields
unfolding running
mark_goal current references = ok (put "goal" (str "Add two parsers") current)

after_transaction : Disk
unfolding running mark_goal
after_transaction = (transact env 7 [] mark_goal (disk "EXECUTING" null)).1

transacted : Fields
unfolding mark_goal running
transacted = put "revision" (nat 8) (put "goal" (str "Add two parsers") (state "EXECUTING" null))

commits : transact env 7 [] mark_goal (disk "EXECUTING" null) ≡ (ok transacted, after_transaction)
unfolding running mark_goal after_transaction transacted
commits = refl

transact-Committed_example :
    Committed env (disk "EXECUTING" null) 7 mark_goal transacted after_transaction
transact-Committed_example =
    transact-Committed env (disk "EXECUTING" null) 7 [] mark_goal transacted after_transaction
      commits

transact-once_example :
    transact env 7 [] mark_goal after_transaction ≢ (ok transacted, after_transaction)
transact-once_example =
    transact-once env (disk "EXECUTING" null) 7 [] mark_goal transacted after_transaction commits []
      mark_goal transacted after_transaction

transact-atomic_example :
    ((written : Artifacts)
      → load env (record {
        state = (disk "EXECUTING" null).state;
        artifacts = (write_all written (disk "EXECUTING" null).artifacts).1;
      })
        ≡ ok (state "EXECUTING" null))
    × ((expected_revision : ℕ) (artifacts : Artifacts) (mutate : Mutate) (e : Error)
        → (transact env expected_revision artifacts mutate (disk "EXECUTING" null)).0 ≡ err e
        → load env (transact env expected_revision artifacts mutate (disk "EXECUTING" null)).1
          ≡ ok (state "EXECUTING" null))
transact-atomic_example =
    transact-atomic env (disk "EXECUTING" null) (state "EXECUTING" null) loads_state

recover-Recovered_example :
    Recovered env git (world "EXECUTING" null oid) retry_cas (after_recovery "EXECUTING" oid)
recover-Recovered_example =
    recover-Recovered env git git-GitLaws now retry_cas (world "EXECUTING" null oid)
      (after_recovery "EXECUTING" oid) recovers_by_swap

recover-MovesOnly_example :
    MovesOnly env git
      (world "EXECUTING" null oid)
      (recover env git now (world "EXECUTING" null oid))
recover-MovesOnly_example = recover-MovesOnly env git git-GitLaws now (world "EXECUTING" null oid)

loads_halted : load env (disk "PAUSED" (str "EXECUTING")) ≡ ok (state "PAUSED" (str "EXECUTING"))
unfolding running
loads_halted = refl

reads_marker : pending_of (state "PAUSED" (str "EXECUTING")) ≡ ok marker
unfolding running
reads_marker = refl

reads_ref :
    integration_ref (state "PAUSED" (str "EXECUTING")) ≡ ok "refs/heads/vibe/run-RUN-20260723-001"
unfolding running
reads_ref = refl

reads_head : resolve "refs/heads/vibe/run-RUN-20260723-001" (branch elsewhere) ≡ ok elsewhere
unfolding running
reads_head = refl

reads_status : get "status" (state "PAUSED" (str "EXECUTING")) ≡ some (str "PAUSED")
unfolding running
reads_status = refl

off_expected : elsewhere ≢ oid
off_expected h = let same = (eq_iff elsewhere oid).1 h in cc same

off_candidate : elsewhere ≢ candidate
off_candidate h = let same = (eq_iff elsewhere candidate).1 h in cc same

recover_halted_example :
    recover env git now (world "PAUSED" (str "EXECUTING") elsewhere)
    ≢ (ok pause, world "PAUSED" (str "EXECUTING") elsewhere)
recover_halted_example =
    recover_halted env git git-GitLaws now (world "PAUSED" (str "EXECUTING") elsewhere)
      (state "PAUSED" (str "EXECUTING")) marker "refs/heads/vibe/run-RUN-20260723-001" elsewhere
      RunStatus.paused loads_halted reads_marker reads_ref reads_head off_expected off_candidate
      reads_status refl pause (world "PAUSED" (str "EXECUTING") elsewhere)
