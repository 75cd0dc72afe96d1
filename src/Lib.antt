-- ===== src/Lib.antt =====
-- The task harness of src/vibe: a run goes through planning, execution, verification and
-- evaluation, and its tasks are given to workers. The model covers the parts that decide, in files
-- named for them.
--
-- Models is src/vibe/models.py. Models/Status and Models/Contracts hold its enumerations and value
-- types. Models/Transition is `transition_run` with the table ALLOWED_RUN_TRANSITIONS; its
-- children hold the abstract life of a run (Phases), the table read against it (Table, Moves), the
-- refinement and the histories of transitions (Traces). Models/Validation is `validate_run_state`:
-- Basic has the `_require_...` functions, Runtime the repository, controller and role records,
-- Tasks the tasks, Pending the dispatches and prepared markers, RunState the whole, Passed what
-- its single checks say, and Coherence what an accepted state means to `transition_run`.
-- Models/Manifest is `validate_attempt_manifest` with the prompt references. Models/Semantics is
-- `validate_bound_state_semantics`, the state against the manifests that it binds (Bound: what it
-- accepts), Models/Access reads values inside it, and Models/Gate is `goal_gate_satisfied`, which
-- raises TypeError here for histories that validation has excluded.
--
-- Scheduler is src/vibe/scheduler.py. Scheduler/Scopes has path scopes and resources,
-- Scheduler/Attempts the life of one task (`new_task_state`, `start_attempt`,
-- `bind_attempt_preflight`, `close_attempt`), Scheduler/Order `_topological_order`,
-- Scheduler/Dispatch `promote_ready` and `dispatchable`, Scheduler/Plan `validate_plan`.
-- Config/Commands is the command catalog of src/vibe/config.py. `dispatchable` reads the order,
-- the scopes and the statuses that the attempts write; `validate_plan` reads the scopes, the order
-- and the catalog.
--
-- Store is src/vibe/state_store.py: a run directory is its state and the texts of its artifacts,
-- and Store/Transactions is `StateStore.load`, `create` and `transact`, with what a reader sees
-- while a transaction writes (Atomic) and what a committed one has done (Committed). A callback of
-- `transact` is a function from the state and the references to the changed state. `state.json`
-- holds the state as a value, its text and the order of its keys are left out, the run lock is
-- held, and a file is written at once: temporary files, links, sizes and fsync are not in the
-- model. `append_log` adds a record to the list of the records of the log. Platform has the
-- functions of the standard library that the store calls.
--
-- Integrator is src/vibe/integrator.py. Its root module has the changes of the state that the
-- integration of a task makes (`bind`, `complete`, `pause`), Integrator/Preparation the manifest
-- and the marker that are written before the branch moves, Integrator/World the run directory
-- together with the repository and the calls that work on them, where an exception keeps what was
-- done before it, and Integrator/Protocol the compare-and-swap of the branch and `recover`. Git is
-- a parameter; GitLaws states what `git update-ref` with an old value documents. Protocol/Recovery
-- has the single steps, Prepared what `_persist_pending` leaves, Settled how a recovery ends,
-- Branch when it moves the branch, and Halted what it does to a run that is already paused.
--
-- Runners is src/vibe/runners/__init__.py, with the handle of src/vibe/providers/base.py: the
-- entries of the pending dispatches, and in Runners/Ledger what `DispatchLedger` does to them.
-- Owners is about a token that was closed. Retry is `retry_transient` up to the start of the new
-- provider, and Retry/Retried what it has done; Handover is about the owner of the Attempt and
-- Dispatches and Rotation about the dispatches that a retry changes. The body of the provider
-- request is an argument of the retry. A callback that accepts or closes an Attempt is a function
-- from the state, the dispatch and the references.
--
-- Json is the model of Python's JSON values: a dict is an association list, and integers are those
-- of Python. Prelude has what is shared: results, tests, text, the regular expressions,
-- PurePosixPath. An operation that changes a dict in place gives the new dict back, and an
-- exception gives none: what a failing call has already written is not in the model. `contract`
-- stands for ContractError with the literal words of its message, without the values that the
-- message prints.
--
-- The loop of the topological order has as many rounds as there are tasks, since every round takes
-- one task from the heap; `out_of_rounds` stands for a loop that does not end by then, and
-- Order/Fuel is about it, Order/Contents about what an order holds. Decimal numerals are written
-- with one round per unit of the number.
--
-- `datetime.fromisoformat` is a parameter `from_isoformat`: whether the time has an offset, and
-- its instant. The current time is an argument of `start_attempt`. Strings are native ones, which
-- have no surrogates, so the tests for surrogates are always false. A value that no dict key or
-- set can be, where Python would raise TypeError, is rejected by the test that comes before it.
--
-- Not modelled: the controller loop, the preparation of candidates by the integrator, worktrees
-- and git, verification runs, the prompt registry, the command line, the processes of providers,
-- the runners of the single roles and the migration of old states, which are processes and files
-- for the most part; the parsing of configuration files.
pub mod Prelude
pub mod Json
pub mod Models
pub mod Config
pub mod Scheduler
pub mod Store
pub mod Integrator
pub mod Runners
mod Tests
