-- ===== src/Lib.antt =====
-- specd keeps the development of a program on its specification: a spec has a lifecycle, a graph of
-- tasks, evidence for each completed task, and a controller that leases tasks to workers.
--
-- This library models the decisions of that program, translated from the Go of internal/core and
-- internal/orchestration. A Go function has the same name in snake_case, a struct is a record with its
-- fields in order, a string type with constants is a data type (`unset` for the empty string, `other`
-- for any other text), and an error is a constructor of a data type per component, without its text.
--
-- The parts, and the code that each file is about:
--   Prelude     shared names and lemmas: tests, lists, texts, white space, integers.
--   Markdown    internal/core/md.go (parsePipeRow): the cells of a table row, and the functions of
--               `strings` and `bytes` that this and Task use.
--   Task        internal/core/tasksparser.go and report.go: task rows, run statuses, activities. Children:
--               Rewrite (RewriteTaskStatusLine), Names, Marked, Found.
--   Dag         internal/core/dag.go: NewTaskDAG (index_tasks, check_tasks, detect_cycle) and
--               TopologicalWaves (waves_from). Children: Search, Acyclic, Fuel, Index, Build, Refusal,
--               Waves, Schedule.
--   Frontier    internal/core/frontier.go, and RunnableFrontier and AllBlocked of dag.go: it reads the
--               graph that Dag builds. Children: Workers (FrontierExcluding, workers, waves), Ready,
--               Exact, Progress.
--   Phases      internal/core/phases.go: lifecycle of a spec. Child: Lifecycle.
--   Approval    internal/core/approval_request.go: the chain of an approval request. Children: Chain,
--               Current.
--   Evidence    internal/core/evidence.go, escalation.go, task_complete.go, evidence_freshness.go:
--               what escalates a task, and what completes it: the row of tasks.md is marked by Task.
--               Children: Timeline, Escalation, Contract (CompleteTaskWithQuality), Met, Quality.
--   Authority   internal/core/authority.go: the record that a lease carries.
--   Lease       internal/orchestration/lease.go, heartbeat.go, cancel.go. Children: Expiry, Renewal,
--               Release.
--   Mission     internal/orchestration/mission.go (ValidateMission), conflict.go, and the conflict
--               tests of decide.go and worker.go: they read leases. Children: Overlap, Conflict.
--   Decision    internal/orchestration/decide.go, brakes.go, driver.go: one tick of the controller, from
--               a snapshot with the frontier and the leases. Child: Dispatch.
--   Recovery    internal/orchestration/acp.go, recover.go, session.go: the ledger, the checkpoint and
--               the session. Children: Ledger, Resume.
--   State       internal/core/state.go: the state of a spec and its projection. Children: Records (the
--               records in amendment.go, spike.go, approval_request.go), Governed (Validate), Store (the
--               file), Projection, Saved, Valid, Append.
--   Workflow    internal/core/workflow_event.go: the event of a transition and the ledger; it writes the
--               file of State/Store. Children: Commit (recovery), Transition (the commit), Chain,
--               Settled, Linked, Recovered, Complete, Artifact, Crash.
--   Slug        internal/core/slug.go.
--   Program     internal/core/program.go: links between specs, whose identifiers Slug checks. Children:
--               File, Status, Search, Cycle, Links, Stored, Feedback.
-- Samples are test data, and each Tests module applies the theorems of its parent to concrete input.
--
-- Conventions. An instant is the number of nanoseconds since Go's zero time, which is 0; no instant lies
-- before it. A Go `int` and a duration are unbounded integers, which the code only compares and counts;
-- the revisions of a session and of a state are 64-bit patterns whose increment wraps around. A map is a
-- list of its keys and values, or a function. The bytes of tasks.md are a text in valid UTF-8. A shared ledger or session file is passed as a value, as
-- it is under the lock that the code holds. Sorting is stable insertion sort, with the order of the code.
--
-- Fuel. The cycle search of Dag has fuel for the number of tasks and one more, and the waves for the
-- number of tasks; the cycle search of Program has fuel for the number of links and two more, and the
-- loop of AppendAmendment for the number of records and one more. All are shown to be enough; the loop
-- of AppendSpike has a fuel of its own, since it may not end. Every other loop is by recursion on a list.
--
-- Parameters stand for what is not in the repository: parsing a time (`parse_time`), cleaning a path
-- (`clean`), the absolute path of a file (`abs`), lower case (`to_lower`), and the encodings of states,
-- events and links as JSON with the digest of bytes (Codec, EventCodec, `encode`, `decode`).
--
-- Not modelled: failing reads and writes of files, clocks, locks and processes; the text of error
-- messages; the parsers of whole markdown files, undo, the costs of a portfolio, configuration, gates, commands, context
-- assembly and the MCP server.
pub mod Prelude
pub mod Markdown
pub mod Task
pub mod Dag
pub mod Frontier
pub mod Phases
pub mod Approval
pub mod Evidence
pub mod Authority
pub mod Lease
pub mod Mission
pub mod Decision
pub mod Recovery
pub mod State
pub mod Workflow
pub mod Slug
pub mod Program
