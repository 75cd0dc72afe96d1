-- ===== src/Integrator/World.antt =====
-- What the calls of src/vibe/integrator.py work on: the run directory and the repository. A call gives
-- its result and what is there afterwards, also where it raises.
use vibe_coding_harness.Prelude.{String, Result, ok, err, List}
use vibe_coding_harness.Json.{Fields}
use vibe_coding_harness.Store.{Platform, Disk}
use vibe_coding_harness.Store.Transactions.{Artifacts, Mutate, load, transact, revision_of}

-- What the program asks of git: the commit that a ref names, the move of a ref from one commit to
-- another, and a commit with its parents.
pub record Git (Repository : Type 0) : Type 0 where
  pub resolve_ref : String → Repository → Result String
  pub update_ref : String → String → String → Repository → Result (Unit {0}) × Repository
  pub commit_parents : String → Repository → Result (List String)

pub record World (Repository : Type 0) : Type 0 where
  pub disk : Disk
  pub repository : Repository

abbrev pub Action : Type 0 → Type 0 → Type 0
Action R A = World R → Result A × World R

-- The rest of a method, after a call: an exception leaves it out.
abbrev pub go_on : {R A B : Type 0} → Result A × World R → (A → Action R B) → Result B × World R
go_on (ok a, w) f = f a w
go_on (err e, w) f = (err e, w)

infixl 5 ◌>>=◌ ◌>>◌
abbrev pub ◌>>=◌ : {R A B : Type 0} → Action R A → (A → Action R B) → Action R B
◌>>=◌ m f w = go_on (m w) f

abbrev pub ◌>>◌ : {R A B : Type 0} → Action R A → Action R B → Action R B
m >> k = m >>= λ _. k

abbrev pub lift : {R A : Type 0} → Result A → Action R A
lift r w = (r, w)

module _ {R : Type 0} where
  unfoldable pub on_disk : Result Fields × Disk → World R → Result Fields × World R
  on_disk (r, disk) w = (r, record { disk = disk; repository = w.repository })

  unfoldable pub on_repository : Result (Unit {0}) × R → World R → Result (Unit {0}) × World R
  on_repository (r, repository) w = (r, record { disk = w.disk; repository = repository })

  -- `self.store.load()`
  unfoldable pub load_state : Platform → Action R Fields
  unfolding load
  load_state env w = (load env w.disk, w)

  -- `self.store.transact(state["revision"], …)`
  unfoldable pub transact_from : Platform → Fields → Artifacts → Mutate → Action R Fields
  unfolding revision_of transact on_disk
  transact_from env state artifacts mutate = lift (revision_of state) >>= λ revision w.
      on_disk (transact env revision artifacts mutate w.disk) w

  unfoldable pub resolve_ref : Git R → String → Action R String
  resolve_ref git ref w = (git.resolve_ref ref w.repository, w)

  unfoldable pub update_ref : Git R → String → String → String → Action R (Unit {0})
  unfolding on_repository
  update_ref git ref new expected w = on_repository (git.update_ref ref new expected w.repository) w

  unfoldable pub commit_parents : Git R → String → Action R (List String)
  commit_parents git commit w = (git.commit_parents commit w.repository, w)
