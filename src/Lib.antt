-- ===== src/Lib.antt =====
-- The daemon's local store and the rules that its agent sessions live by.
--
-- The program connects coding agents that run in terminals to a chat relay. A daemon keeps one durable
-- record for each agent session in an SQLite database (src/state.rs and src/state/), and every part
-- of the daemon reads and writes it: hooks report turns, a supervisor reports whether a terminal is
-- shown, a relay subscription enqueues mentions, a timer evicts idle sessions, and operators kill or
-- revoke them. These reports race with each other, so the store fences them: a runtime generation
-- names the incarnation of a session, a lifecycle epoch names its latest transition, an attachment
-- epoch orders the edges of its presentation, and a standing epoch does the same for its membership
-- of a channel.
--
-- Which file models which part:
--   Base            shared names: Boolean tests on numbers and texts, u64 saturation, lists
--   Table           the forms of SQL statement that the store uses, on lists of rows
--   SessionState    src/session_state.rs: the state that a user sees
--   Harness         src/session.rs: names of harnesses, and the room of a new session
--   Session         src/state/session_ty.rs: the session record and its persisted enums
--   Store           src/state.rs and src/state/schema/ddl.rs: the rows and the store
--   Store/Result    the errors of src/state/
--   Store/Sessions  src/state/sessions.rs: reserving an incarnation of a session
--   Store/Stopping  src/state/sessions.rs: the other operations, and stopping it
--   Store/Lifecycle and Store/Eviction   src/state/session_lifecycle.rs
--   Store/Standing  src/state/session_standing.rs
--   Store/Routes    src/state/session_routes.rs
--   Store/Recovery  src/state/session_recovery.rs
--   Store/Inbox and Store/Delivery       src/state/inbox.rs and src/state/inbox/delivery.rs
--   Store/WorkStart src/state/work_start.rs
--   Store/Claims    src/state/event_claims.rs
--   Store/Context   src/state/session_context.rs, session_title.rs and session_cursor.rs
--   Store/Retention src/state/retention.rs: the pruner
--   Store/Locators  src/state/locators.rs and session_native.rs: the paths to a session
--   Store/McpActors src/state/mcp_actors.rs: sessions that a remote caller acts as
--   Store/Handles   src/state/handle_leases.rs, handle_leases/allocation.rs and session_signers.rs
--   Relay/Channels  src/state/channels.rs: metadata, ancestry and reserved names of channels
--   Relay/Events    src/state/events.rs: the cache of relay events
--   Relay/Members   src/state/members.rs: the rosters of channels
--   Relay/Attempts  src/state/native_turn_attempts.rs: the ledger of turns given to a provider
--   Relay/Messages, Relay/Statuses and Relay/Reactions   src/state/messages.rs, status.rs, reactions.rs
--   Idref           src/idref.rs: how agents are addressed in text
--   Reconcile/Subscriptions  src/reconcile/subscriptions/mod.rs: the live queries of the daemon
--   Reconcile/Delivery  src/reconcile/delivery/mod.rs: when mentions go into a terminal
--   Reconcile/Presence  src/reconcile/status/: the presence leases that the daemon publishes
--   Store/Coherence and Store/Step       what sessions satisfy between operations, and all the
--                                        operations as one step relation
--   Tests           the theorems at concrete inputs
--
-- An operation has the name of its Rust function. It takes the store last and returns the store it
-- leaves, with its answer beside it. A row is a record with the columns of its table, an UPDATE is
-- `update test row`, and the number of rows that SQLite reports is `count test`. Each operation is one
-- step, since the daemon holds one connection under a lock; an error rolls back what was written but
-- in bind_mcp_actor, which has no transaction. Rows stand in the order of insertion, on which no
-- operation depends but where ORDER BY leaves ties. The steps of the results below are those of
-- Store/Step, with any arguments and in any order, but where a result names its own. The allocation of
-- handles is not among them; it writes no session, locator or message. The pruner of
-- src/state/retention.rs is: it deletes inbox rows, claims and turn attempts a week after they were
-- done, and relay events after two weeks. The results on relay events and turn attempts name their
-- operations, and the pruner is none of them. The tables of Relay stand for themselves: no operation
-- but the pruner writes one of them together with another component's table.
--
-- Numbers are natural numbers. The columns are 64-bit integers whose bound no operation reaches but
-- where the model says so: the generation is tested against the greatest u64, and deadlines are
-- saturating sums. Epochs and counters grow by one for each operation. Subtraction stops at 0, as
-- saturating_sub and MAX(0, …) do in the source. The clock, `now_secs()`, is an argument. Process
-- identifiers are natural numbers. Two loops run on fuel: the walk to a channel's root, whose fuel is
-- the source's own bound of sixteen, and the search for a handle, whose fuel is the number of
-- candidates.
--
-- Not modelled: failures of SQLite and of I/O; texts in a column of an enum that no operation writes
-- (the schema's CHECK constraints and the writers exclude them); profiles, receipts and migrations;
-- the wait cursor, which reads SQLite's rowid; the joins that resolve a locator to a session; the
-- daemon's tasks, sockets and processes; the command line and the terminal.
mod Base
pub mod Table
pub mod SessionState
pub mod Harness
pub mod Session
pub mod Store
pub mod Relay
pub mod Reconcile
pub mod Idref
mod Tests
