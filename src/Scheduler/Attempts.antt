-- ===== src/Scheduler/Attempts.antt =====
-- The life of one task in src/vibe/scheduler.py: new_task_state, start_attempt,
-- bind_attempt_preflight and close_attempt. The task state is the dict of the run state, given and
-- returned. A status is a string there; the unhashable values that `in` would refuse are not met.
pub mod Counters
pub mod Histories
use Prim.Native.String
use vibe_coding_harness.Prelude.{
  ℕ, zero, suc, String, Bool, true, false, not, ◌&&◌, ◌||◌, Option, none, some, List, [], ◌∷◌,
  Result, ok, err, ◌>>=◌, ◌>>◌, expect, reject_if, contract, Error, eqb, leb, ltb, ◌==◌,
  if◌then◌else◌,
}
use vibe_coding_harness.Prelude.Text.{has_char, ends_with, drop_right, starts_with}
use vibe_coding_harness.Prelude.Patterns.{task_id_re}
use vibe_coding_harness.Prelude.PosixPath.{split_slash, parts, join_slash}
use vibe_coding_harness.Prelude.Decimal.{decimal, decimal_3}
use vibe_coding_harness.Json.{
  ℤ, pos, negsuc, Json, Fields, null, int, str, list, dict, nil, get_value, put, eq, is_null,
  is_dict, is_word, as_dict, as_str,
}
use vibe_coding_harness.Models.Contracts.{fields, nat, ArtifactRef, artifact_as_dict, TaskContract}

-- src/vibe/worktrees.py. The path is that of a worktree, which is absolute.
pub record TaskWorktree : Type 0 where
  pub path : String
  pub branch : String
  pub base_sha : String

abbrev pub status_in : List String → Json → Bool
status_in [] v = false
status_in (w ∷ ws) v = is_word w v || status_in ws v

abbrev pub as_int : Json → Option ℤ
as_int (int n) = some n
as_int _ = none

abbrev pub next_int : ℤ → ℤ
next_int (pos n) = pos (suc n)
next_int (negsuc zero) = pos 0
next_int (negsuc (suc n)) = negsuc n

abbrev pub int_lt : ℤ → ℤ → Bool
int_lt (pos m) (pos n) = ltb m n
int_lt (pos m) (negsuc n) = false
int_lt (negsuc m) (pos n) = true
int_lt (negsuc m) (negsuc n) = ltb n m

print : ℤ → String
unfolding decimal
print (pos n) = decimal n
print (negsuc n) = String.◌++◌ "-" (decimal (suc n))

-- `f"{n:03d}"`: the sign counts as one of the three places.
print_3 : ℤ → String
unfolding decimal_3 decimal
print_3 (pos n) = decimal_3 n
print_3 (negsuc n) =
    if ltb (suc n) 10 then String.◌++◌ "-0" (decimal (suc n)) else String.◌++◌ "-" (decimal (suc n))

abbrev pub no_items : Json
no_items = list nil

pending_task : ℕ → Fields
pending_task max_attempts = fields (
    ("status", str "PENDING")
    ∷ ("attempt_no", nat 0)
    ∷ ("failure_count", nat 0)
    ∷ ("max_attempts", nat max_attempts)
    ∷ ("active_attempt", null)
    ∷ ("attempts", no_items)
    ∷ ("result", null)
    ∷ ("verification", null)
    ∷ ("source_commits", no_items)
    ∷ ("integrated_commits", no_items)
    ∷ ("last_error", null)
    ∷ [])

unfoldable pub new_task_state : TaskContract → Result Fields
unfolding task_id_re pending_task
new_task_state c = do
  reject_if (not (task_id_re c.id)) "task contract has an invalid ID"
  reject_if (ltb c.max_attempts 1) "task contract max_attempts is invalid"
  ok (pending_task c.max_attempts)

-- The parts from the first `.vibe-coding` on.
from_control : List String → Option (List String)
from_control [] = none
from_control (part ∷ rest) =
    let later = from_control rest in if part == ".vibe-coding" then some (part ∷ rest) else later

unfoldable pub control_relative_path : String → Result String
unfolding from_control parts join_slash starts_with
control_relative_path path = do
  below ← expect (from_control (parts path)) (contract "task worktree must be below .vibe-coding")
  let relative = join_slash below
  reject_if (not (starts_with relative ".vibe-coding/worktrees/"))
      "task worktree path is outside the worktree root"
  ok relative

last_piece : List String → String
last_piece [] = ""
last_piece (x ∷ []) = x
last_piece (x ∷ y ∷ xs) = last_piece (y ∷ xs)

branch_suffix : ℤ → String
unfolding print
branch_suffix n = String.◌++◌ "-a" (print n)

-- `branch.rsplit("/", 1)[-1][: -len(branch_suffix)]`
branch_task_id : String → ℤ → String
unfolding branch_suffix last_piece split_slash drop_right
branch_task_id branch n =
    drop_right (String.count (branch_suffix n)) (last_piece (split_slash branch))

result_path : String → ℤ → String
unfolding print_3
result_path task_id n =
    String.◌++◌ "tasks/"
      (String.◌++◌ task_id (String.◌++◌ "/attempts/" (String.◌++◌ (print_3 n) "/result.json")))

new_attempt : String → TaskWorktree → String → String → ℤ → String → Json
unfolding result_path branch_task_id
new_attempt base worktree token now n relative = dict (
    fields (
      ("attempt_token", str token)
      ∷ ("status", str "STARTING")
      ∷ ("created_at", str now)
      ∷ ("task_base_sha", str base)
      ∷ ("branch", str worktree.branch)
      ∷ ("worktree", str relative)
      ∷ ("preflight", null)
      ∷ ("provider_handle", null)
      ∷ ("result_path", str (result_path (branch_task_id worktree.branch n) n))
      ∷ []))

-- The guards of `start_attempt`, in the order of the source.
not_ready : Fields → Bool
not_ready s =
    not (status_in ("PENDING" ∷ "READY" ∷ []) (get_value "status" s))
    || not (is_null (get_value "active_attempt" s))

bad_counters : Error
bad_counters = contract "task Attempt counters are invalid or exhausted"

-- The number of the last Attempt, if another one is left.
check_counters : Fields → Result ℤ
unfolding bad_counters
check_counters s = do
  attempt_no ← expect (as_int (get_value "attempt_no" s)) bad_counters
  failures ← expect (as_int (get_value "failure_count" s)) bad_counters
  maximum ← expect (as_int (get_value "max_attempts" s)) bad_counters
  reject_if (not (int_lt failures maximum)) "task Attempt counters are invalid or exhausted"
  ok attempt_no

check_identity : String → TaskWorktree → String → ℤ → Result (Unit {0})
unfolding has_char ends_with branch_suffix
check_identity base worktree token n = do
  reject_if (token == "" || has_char 47 token) "attempt_token is invalid"
  reject_if (not (base == worktree.base_sha)) "task worktree base does not match Attempt base"
  reject_if (not (ends_with worktree.branch (branch_suffix n)))
      "task worktree branch does not match Attempt number"

begin_attempt : Fields → Json → ℤ → Fields
begin_attempt s attempt n =
    put "active_attempt" attempt (put "status" (str "RUNNING") (put "attempt_no" (int n) s))

-- `now` is `datetime.now(timezone.utc).isoformat(timespec="microseconds")`.
unfoldable pub start_attempt : Fields → String → TaskWorktree → String → String → Result Fields
unfolding not_ready check_counters check_identity control_relative_path new_attempt begin_attempt
start_attempt s base worktree token now = do
  reject_if (not_ready s) "task is not ready for a new Attempt"
  attempt_no ← check_counters s
  check_identity base worktree token (next_int attempt_no)
  relative ← control_relative_path worktree.path
  ok (
      begin_attempt s (new_attempt base worktree token now (next_int attempt_no) relative)
        (next_int attempt_no))

-- `result_path.rsplit("/", 1)[0]`: the text before the last slash, or the whole text.
before_last : List String → List String
before_last [] = []
before_last (x ∷ []) = []
before_last (x ∷ y ∷ xs) = x ∷ before_last (y ∷ xs)

directory_of : String → String
unfolding before_last split_slash join_slash has_char
directory_of path = if has_char 47 path then join_slash (before_last (split_slash path)) else path

-- What is wrong with the owner of a preflight.
not_owner : Fields → Fields → String → Bool
not_owner s active token =
    not (is_word "RUNNING" (get_value "status" s))
    || not (is_word "STARTING" (get_value "status" active))
    || not (is_word token (get_value "attempt_token" active))

check_preflight : Fields → Fields → String → ArtifactRef → Result (Unit {0})
unfolding not_owner directory_of artifact_as_dict eq
check_preflight s active token preflight = do
  reject_if (not_owner s active token) "Attempt preflight owner or status does not match"
  path ←
      expect (as_str (get_value "result_path" active)) (contract "Attempt result path is invalid")
  reject_if (not (preflight.path == String.◌++◌ (directory_of path) "/preflight.json"))
      "Attempt preflight path is not canonical"
  reject_if
      (not (is_null (get_value "preflight" active))
        && not (eq (get_value "preflight" active) (artifact_as_dict preflight)))
      "Attempt preflight is immutable"

unfoldable pub bind_attempt_preflight : Fields → String → ArtifactRef → Result Fields
unfolding check_preflight
bind_attempt_preflight s token preflight = do
  active ←
      expect (as_dict (get_value "active_attempt" s))
        (contract "Attempt preflight owner or status does not match")
  check_preflight s active token preflight
  ok (put "active_attempt" (dict (put "preflight" (artifact_as_dict preflight) active)) s)

-- The error of the last Attempt: `None` or a dict.
abbrev error_value : Option Fields → Json
error_value none = null
error_value (some e) = dict e

-- A retryable failure counts, and the task is ready again until the last one that it may have.
count_failure : Fields → Result Fields
count_failure s = do
  failures ←
      expect (as_int (get_value "failure_count" s)) (contract "task failure counters are invalid")
  maximum ←
      expect (as_int (get_value "max_attempts" s)) (contract "task failure counters are invalid")
  ok (
      put "status" (str (if int_lt (next_int failures) maximum then "READY" else "FAILED"))
        (put "failure_count" (int (next_int failures)) s))

finish_attempt : Fields → String → Bool → Result Fields
unfolding count_failure
finish_attempt s status retryable =
    if status == "SUCCEEDED"
    then ok (put "status" (str "INTEGRATING") s)
    else if status == "CANCELLED"
    then ok (put "status" (str "CANCELLED") s)
    else if status == "ABANDONED"
    then ok (put "status" (str "FAILED") s)
    else if retryable
    then count_failure s
    else ok (put "status" (str "FAILED") s)

check_close : Fields → String → Result (Unit {0})
check_close s status = do
  reject_if (not (status_in ("RUNNING" ∷ "READY_TO_INTEGRATE" ∷ []) (get_value "status" s)))
      "task has no active Attempt to close"
  active ←
      expect (as_dict (get_value "active_attempt" s))
        (contract "task has no active Attempt to close")
  reject_if (is_null (get_value "preflight" active) && not (status == "CANCELLED"))
      "terminal Attempt requires an immutable preflight"
  reject_if
      (not (
        status == "SUCCEEDED"
        || status == "FAILED"
        || status == "CANCELLED"
        || status == "ABANDONED"))
      "terminal Attempt status is invalid"

unfoldable pub close_attempt : Fields → String → Option Fields → Bool → Result Fields
unfolding check_close finish_attempt
close_attempt s status error retryable = do
  check_close s status
  finish_attempt (put "last_error" (error_value error) (put "active_attempt" null s)) status
      retryable
