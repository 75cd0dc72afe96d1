-- ===== src/Runners/Ledger/Retry/Retried.antt =====
-- What a retry has done that ends well, `retry_transient` of src/vibe/runners/__init__.py.
use vibe_coding_harness.Prelude.{ℕ, ◌≡◌, ◌≢◌, some, ok}
use vibe_coding_harness.Prelude.Dict.{lookup}
use vibe_coding_harness.Json.{Json, Fields, null, dict, get}
use vibe_coding_harness.Models.Contracts.{ArtifactRef}
use vibe_coding_harness.Store.{Platform, Disk}
use vibe_coding_harness.Store.Transactions.{load}
use vibe_coding_harness.Store.Transactions.Committed.{Committed}
use vibe_coding_harness.Runners.{RoleInvocation, ProviderHandle}
use vibe_coding_harness.Runners.Ledger.Rotation.{Rotated}
use vibe_coding_harness.Runners.Ledger.Retry.{summary_path, rotate_refs}

module _ (env : Platform) where
  -- What a retry that ends well has done. The dispatch that it replaces had ended.
  pub record Retried (i f : RoleInvocation) (handle : ProviderHandle) (disk disk' : Disk)
      (new : Fields) : Type 0 where
    pub current : Fields
    pub current_read : load env disk ≡ ok current
    pub expected : ℕ
    pub committed : Committed env disk expected (rotate_refs i handle f) new disk'
    pub summary : ArtifactRef
    pub summary_read : lookup (summary_path i) committed.prepared.references ≡ some summary
    pub rotated : Rotated i f summary current new
    pub exit : Json
    pub exit_read : get "exit" rotated.old ≡ some exit
    pub terminal : exit ≢ null

-- What `check_source` has found.
record Ended (i : RoleInvocation) (current : Fields) : Type 0 where
  before : Fields
  before_read : get "pending_dispatches" current ≡ some (dict before)
  old : Fields
  old_read : get i.attempt_token before ≡ some (dict old)
  exit : Json
  exit_read : get "exit" old ≡ some exit
  terminal : exit ≢ null
