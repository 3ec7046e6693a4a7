-- ===== src/Lib.antt =====
-- FastTask: a planner for goals, tasks and daily work. internal/domain/rules.go holds the pure rules;
-- internal/application applies them to rows of a SQLite database.
--
-- Base, Base/*: shared names, Boolean tests, lists measured by native numbers, Go's int as ℤ, texts.
-- Domain/Rules: all of internal/domain/rules.go, one function for each of its functions (would_create_cycle for
--   WouldCreateCycle, and so on). A map is a table or a function; an error is an Option. The children hold the
--   theorems: Order (the stable sort), Admission and Selection (the daily selection), Transitions (goals and
--   tasks), CompletionTypes, Cycles.
-- Domain/Lens: the coordinates and quadrants of internal/domain/lens.go.
-- Protocol/Chunk: internal/agent/protocol/chunk.go and the frames of stream.go; Protocol/Valid: what is sent.
-- Protocol/Replay: internal/agent/protocol/replay.go on JSON values, with Paths (an operation as the update of a
--   value at a path), Kept and Streams. Protocol/State: state.go, with Paths and RoundTrip. A map is a list of
--   fields; encoding/json and strconv are parameters.
-- Coords: SetTaskCoord and the agent's writes of internal/application/lens.go, with Writes, Agent and User. The
--   row that SetTaskCoord reads back is the one that User finds in the table.
-- Jobs/Model: the job row, the tables and the SQL statements (a table is a list of rows in the order of insertion).
-- Jobs/Support: internal/application/supportjobs.go. Jobs/Queue: jobservice.go. Jobs/Worker: claim, holdLease, execute
--   and finish of worker.go. Jobs/Recovery: the job statements of maintain in internal/scheduler/scheduler.go.
--   Jobs/Runs: the writes of the job table by agent runs (SubmitCommands of agent.go, requeueRun of agentapproval.go,
--   CancelRunJob of harnessrun.go).
--   An operation is a function from the database to the database or an error; a transaction that fails changes
--   nothing. CancelJob reads and writes in two statements and so takes two databases. The digest, the date in a
--   zone, the JSON encoder, the materializers and the handlers are the record Env. The children hold the theorems:
--   Rows (one row and its edges), Table, Steps and Results (what each operation does to the table), Machine (any
--   sequence of operations), Order.
-- Plans/Model: the rows of users, goals, settings and daily plans. Plans/Settings: the planning settings of
--   internal/application/planning.go, with Chosen and, in Saved, what an update leaves to read. Plans/Budget: the budget of a day
--   from planning.go and planning_guard.go, with Bounds. Plans/Scope: the walks up the task tree.
-- Errors: chains of steps that may fail. Progress/Model: sessions, progress events and the tables that they
--   need; what a call takes from outside is the record Env. A reading of the clock in one call is one time.
-- Progress/Live: RequireLiveTaskTx of internal/application/lifecycle.go, taskexecution.go and the guards of
--   planprogress.go, with Chain and Ends. Progress/Items: the rest of planprogress.go, with History, Statuses, Writes,
--   Cited and Corrections.
-- Progress/Completion: CompletePlanItemWithTask of app.go, with Evidence. Progress/Sessions: StartSession and
--   TransitionSession of app.go, with Moves (one row), Table (one call), Machine (any sequence), Refusals and Results. The
--   index of one active session (internal/persistence/migrations/000001_init.up.sql) is a check of the insert.
-- Progress/Closing: CloseDailyPlan, CompleteTask and completeTaskTx of app.go, with Settled. The snapshot of the
--   tree, the release of the items of today and the schedule are the record Effects.
-- Progress/Editing: UpdatePlanItem of app.go with changeText and changeInt of lifecycle.go, and Edited.
-- Progress/Removal: plandelete.go, with Moves, Selected and Remains; the sources of the items and the encoders are the record Tools.
-- Progress/Rows: counting and updating rows. Progress/Fixtures: data of the tests.
-- Sweeps: reportSweep of internal/scheduler/scheduler.go, with Outage.
-- Throttle: internal/platform/auth/throttle.go; its mutex makes each call one step. Blocked and Bounds hold the
--   theorems.
-- Tasks/Model: the task row of internal/persistence/models.go and maps from IDs.
-- Tasks/Dependencies: taskDependencyGraphValid of internal/application/taskdependencies.go. The closure `visit`
--   takes and returns its map of marks. Its children: Graph (what a valid graph is), Marks, Visit, Ends, Complete,
--   Lineage and Valid (the decision).
-- Tasks/Saving: validateTaskDependenciesTx of the same file, with Rows (what its queries find), Graphs and Ends.
-- Tasks/Eligibility: executableTaskEligibility of the same file, with Prerequisites and Decides.
--
-- Bounds and fuel. `visit`, `ancestors`, `ancestors_open` and `prerequisites_satisfied` take the number of rows
--   plus two, since a path without a repetition is no longer; the theorems of Valid and Decides exclude that it
--   runs out. The walk of Progress/Live takes the number of rows plus one, which Ends shows to be enough;
--   that of Tasks/Saving takes the number of rows plus two, which its Ends shows to be enough. Plans/Scope takes
--   the same fuel; that it is enough there is not shown. The loop of WouldCreateCycle takes any fuel, more than the height of the tree for an answer.
-- A time is a number of nanoseconds. Go's int of counts and minutes is an integer without a bound, as no
--   operation here comes near 2^63.
--
-- Not modelled: SQL and transactions, the HTTP layer, the calls of language models and of other services, the
--   web client, the panel. The manifest names every part.
pub mod Base
pub mod Coords
pub mod Domain
pub mod Errors
pub mod Jobs
pub mod Plans
pub mod Progress
pub mod Protocol
pub mod Sweeps
pub mod Tasks
pub mod Throttle
