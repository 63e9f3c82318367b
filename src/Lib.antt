-- ===== src/Lib.antt =====
-- A model of VELOX Server's governed action path, translated from the Python under
-- apps/server/src of the repository.
--
-- An action is planned from an event or delegated by a caller. The permission runtime decides on it:
-- an allowed action is approved and queued, one that requires approval is held in the registry, and
-- any other is rejected. An operator approves or rejects held actions. The worker runtime claims
-- queued actions, checks the gate once more, routes each to a registered executor, and retries
-- transient failures a bounded number of times. Queue, registry and lifecycle repository are shared
-- by all of them. A calendar listing is one of the executors' capabilities; an orchestrator walks over
-- its pages.
--
-- The files, and the code each is about:
--   Actions           core/actions.py: actions and the values of their payload
--   Lifecycle         core/action_lifecycle.py and core/action_lifecycle_manager.py
--   ControlPlane      core/action_queue.py, core/action_lifecycle_repository.py, core/approvals.py
--   Permission        core/permission.py: the engine and `PermissionEngineRuntime`
--   Approval          core/approval_decisions.py: `approve_pending_action`, `reject_pending_action`
--   Workers/Executor  the types of workers/executor.py; Workers/Registry registers manifests and
--                     Workers/Resolve is `resolve_with_registration`
--   Workers/Runtime   workers/runtime.py: `process_next` and `process_action`; Workers/Invocation is
--                     `invoke`; Workers/Observation and Workers/Report hold what they write
--   Delegation        core/delegation.py: `ActionTaskDelegator.delegate`
--   Events            core/events: the store, the inbox and the event lifecycle; Events/Pipeline is the
--                     classifier, the context resolver and core/planner.py, and Events/Workflow is
--                     `EventWorkflowService`
--   Runs              integrations/software_engineering_state.py: the run record; Runs/Memory is the
--                     in-memory repository, Runs/Table the SQLite one: its schema, rows, statements
--                     and operations
--   Engineering       the services over a run repository, integrations/software_engineering_*.py:
--                     Control is the run control, Recovery the recovery and the ingress, Workspace
--                     the trusted git workspace, WorkProduct the review and the disposition of a
--                     worktree, Continuation the execution of a claimed action, Observer the durable
--                     execution observer, Disposition and Promotion the services of these names;
--                     Publication and WorkCommit are the git side of a promotion
--   Google            integrations/google_provider.py: the provider boundary; Google/Fake its
--                     deterministic credentials and transport
--   Calendar          integrations/calendar.py: the bounded requests; Calendar/Worker is
--                     `CalendarWorkerExecutor`, Calendar/Walk the walk over the pages
--                     (`CalendarEventListOrchestrator`), Calendar/Fake the deterministic provider
--   Governance        the parts assembled: a call is one step, and a history is a list of calls
--   Examples          a concrete server and the theorems applied to it
--   Prelude           tests, lists, results, dictionaries and the text functions
-- The proofs stand in the child modules, named for what they prove.
--
-- How the code corresponds to the definitions:
--   - A UUID is its 128-bit integer and a UTC datetime its microseconds, both natural numbers. Each
--     operation reads the clock once; the code reads it several times within one call.
--   - Code that changes shared objects takes the state and returns it. A raised exception is a
--     value, next to the state that it leaves.
--   - `ControlPlane` holds what the queue, the lifecycle repository and the registry hold. A dict is
--     an association list in insertion order.
--   - `str.casefold`, whose Unicode table is CPython's, is a parameter. `str.strip` is written out
--     for all the code points that it strips.
--   - The permission engine, the executors and the approval hooks are parameters: functions of
--     their inputs and of the time of the call, since they ask the outside world. The event
--     pipeline and the planner are parameters of the workflow; the default ones are written out, with
--     `str.lower` and the text of a UUID as parameters.
--   - A run repository is a record of operations on a store. The SQLite table is a dictionary of rows
--     under the primary key; NOT NULL is not part of a row, since every statement gives those columns
--     a value. An UPDATE has its WHERE, its SET and its row count. `str(uuid)`, `isoformat` and their
--     parsers are a parameter, with the law that a parser reads what was printed.
--   - In the sequences of calls each operation of the repository runs to its end. In the schedules of
--     Runs/Table/Claims each statement is a step of its own, so that the check of an operation and
--     its UPDATE may be apart.
--   - Processes and the file system are a parameter, functions of a world that they change; so are
--     the pull-request publisher, the reviewer and SHA-256.
--   - In Governance the log of granted ids is there for the statement only; no operation reads it. The
--     continuation of an approved action is one of its calls; the run repository is there a parameter
--     whose answers depend on the call and on its time.
--   - The observer of the worker runtime is the in-memory one. The observation that `start` appends and `finish` updates is
--     appended once, finished.
--   - A lifecycle state's metadata has the four keys that the program writes. Values of type
--     `timestamp` and `identifier` stand for the texts of datetimes and UUIDs.
--   - `isinstance` checks on values that the types fix, log calls and locks are left out; the runtime
--     is single-threaded.
--   - Of a timestamp's text, `\d` of `re` and `datetime.fromisoformat` are parameters; the pattern
--     itself is written out. `str` and `int` of a number and the quoting of a URL are parameters too.
--     A negative int is no value of a payload. Transport and credentials act on a world that they
--     change.
-- Loops run over lists, or over the number of rounds that the caller asks for. The `while True` of
-- the calendar walk has the request's page limit as its fuel, which is always enough.
--
-- Not modelled: the errors of an SQLite database that is unavailable, but for a missing table; the
-- worker runtime with the durable observer, so that a continued action takes it as a parameter,
-- which Governance sets to the one with the in-memory observer; the subprocess runner; the HTTP
-- routes, the HTTP transports and the command line of the Google, calendar and GitHub integrations,
-- OAuth, Gmail and the semantic queries, which adapt outside services; and the assembly and
-- configuration code, which only builds the objects.
pub mod Prelude
pub mod Actions
pub mod Lifecycle
pub mod ControlPlane
pub mod Permission
pub mod Workers
pub mod Approval
pub mod Governance
pub mod Delegation
pub mod Events
pub mod Engineering
pub mod Google
pub mod Calendar
pub mod Runs
pub mod Examples
