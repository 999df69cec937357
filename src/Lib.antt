-- ===== src/Lib.antt =====
-- The Coding Agent is a local process: a store of repositories, tasks and their events in SQLite, a
-- writer through which every change goes, a dispatcher that publishes what was recorded, and a
-- server for a browser. This library models the parts that decide what is recorded and published.
--
-- Files and what they model:
--   Domain/Value, Path, Task, Event, Repository: crates/coding-agent-domain/src. An identifier is a
--     number, a prompt the list of its characters, a path the list of its bytes, a timestamp the
--     nanoseconds since year 0. Domain/Lifecycle and Domain/Prompt prove what they are for.
--   Store/Schema, Tx: the tables of crates/coding-agent-store/migrations/0001_initial.sql with the
--     statements that run on them, and a transaction: its body is a function from the database to
--     a result and the next database, and its effects are dropped when the body, `BEGIN` or the
--     commit fails. What the database, the clock and the identifiers are is the record `Env`.
--   Store/Codec: crates/coding-agent-store/src/tasks.rs and projection.rs, rows to values.
--   Store/Tasks, with Events and Recovery: the operations of crates/coding-agent-store/src/tasks.rs
--     under their names (create_task, retry_task, transition_with_event, append_running_event,
--     recover_incomplete).
--   Store/Repositories, Projection: crates/coding-agent-store/src/repositories.rs (as built outside
--     Windows) and projection.rs.
--   Store/Table, History, Ensures, Append: lemmas on tables, on the log of a task, on the bodies of
--     transactions, and on recording an event.
--   Store/Invariant and its children: what is well-formed, and that the operations keep it.
--   Store/Answers, Replay, Pages, Detail: what the operations and the projections answer.
--   App/Writer: crates/coding-agent-app/src/store_writer.rs. Commands run one after the other, as in
--     the actor; an attempt of the retry loop is given what the clock says. App/Writer/Safety.
--   App/Service: crates/coding-agent-app/src/service_state.rs.
--   App/Dispatcher: crates/coding-agent-app/src/event_dispatcher.rs, whose rounds are functions on
--     the state of the actor. App/Dispatcher/Publish.
--   App/Writer/Handle: the calls of the writer's handle; App/Writer/Answers.
--   App/Manager: crates/coding-agent-app/src/task_manager.rs. Claim is claim_queued, Cancel and
--     Requests are the handlers of the messages, Actor the loop. A step is a round of the actor,
--     or what another
--     task of the process does between two rounds; what it does during a round (commands that the
--     writer takes first, a freeze before a test) is an argument of the handler. Sound, Frozen,
--     Degraded, Resume, Shutdown and Progress prove what they are named for; Alive is about panics.
--   App/Clock: civil_from_days of crates/coding-agent-app/src/task_manager.rs; Calendar.
--   App/Security: crates/coding-agent-app/src/security.rs, with Requests; Tokens and Access.
--   Api/Sse: crates/coding-agent-api/src/sse.rs; Connect is a whole connection; Order,
--     Replay, Drain, Buffer, Delivery, Work, Unpolled and Ends.
--   Base: helpers. Examples: the theorems at concrete inputs.
--
-- Bounds and fuel: an event id is at most 2 ^ 63 - 1, after which an INSERT fails as in SQLite; an
-- attempt is below 2 ^ 32; a generation is below 2 ^ 64. The loop over pages runs on fuel, and one
-- page more than there are ids left is enough; so it is for the replay of a
-- client. The refills of a connection take at most two rounds for each answer of the live stream,
-- and one for the buffer. The loop of retries is recursion on its list of delays.
--
-- Not modelled: the text of JSON and of timestamps, channels and timers, the injection of faults,
-- the migration and checkpoint of the database, the runners, the HTTP server and its routes, the
-- browser interface, and the platform code (they are input and output of the process). While the dispatcher reads its pages the store stands still.
-- A snapshot and the details of a task are what the database answers; the task manager's reads of
-- them may be refused as a whole. A path whose bytes are not UTF-8 is its own identity key. A time before year 0 has no value. A panic ends the actor of the task manager, and what
-- stands after it in the source does not happen; no other panic than that of a used-up generation
-- is modelled.
mod Base
pub mod Domain
pub mod Store
pub mod App
pub mod Api
mod Examples
