-- ===== src/Lib.antt =====
-- Code Forge: an agent runtime that accepts user messages as runs, hands them to workers under
-- leases, and records what happens as numbered events.
--
-- The program's core is src/code_forge: `contracts.py` (the vocabulary), `state_machine.py` (the
-- pure transitions of a run), and `persistence` (the SQLite store, which keeps sessions, runs,
-- attempts, tool executions and events, and the files with their contents). The store asks the
-- state machine before it changes a run's status, writes an event for every change, and keeps long
-- texts in content files that the rows refer to.
--
-- Contracts, and below it Result, Binding and Requests: enumerations, error codes, `UserBinding`
-- and its validation, requests and snapshots with their JSON (contracts.py).
-- StateMachine: `transition` and `request_cancel`; Diagram is the diagram as a relation, Guards the
-- permitted requests, Runs sequences of requests (state_machine.py).
-- Json: the JSON values that the store writes.
-- Store.Schema and Store.Keys: the tables as lists of rows in insertion order, their keys and the
-- constraints that an INSERT is held to (`_schema_v4` of sqlite_store.py).
-- Store.Monad: a method takes a world, which is the database, the content files and a count of the
-- calls of the clock and of uuid4, to a result and a world. `transaction` restores the database,
-- but not the files, when its body raises. The clock, uuid4, SHA-256, JSON encoding and pathlib are
-- fields of `Env`; where a theorem needs something of them, it is a hypothesis that it names.
-- Store.Content: append_record, write_object and read_object; Store.Content.Reading: read_record and
-- read_verified (content_store.py).
-- Store.Pages: the queries that list rows. Pages.Events: `list_events`, `list_session_events`, the
-- event cursors; Pages.Messages: `list_runs`, `list_messages_public`, `get_pending_reply`,
-- `conversation_history`, `get_snapshot`; Pages.Sessions: `list_sessions`, `list_sessions_public`,
-- `list_bound_sessions`. ORDER BY is an insertion sort of the table (Prelude.Order).
-- Store.Events: `_insert_event_locked` and `append_event`. Store.Sessions: `create_session`,
-- `get_session`, `update_session_title`. Store.Accept: `accept_once`. Store.Runs: `get_run`,
-- `run_state`, `find_request`. Store.Claim: `claim_next_run`. Store.Revisions:
-- `record_workspace_revision`. Store.Transitions: `transition_run`, `cancel_run`. Store.Responses:
-- `respond_to_run`. Store.Tools: `prepare_tool`, `start_tool`, `append_tool_output`, `finish_tool`.
--
-- Service: `RunService.submit` over the store, with the authorization port and the snapshot
-- resolver as parameters (service.py).
--
-- Runtime: `AgentRuntime` over the store, with the ports of the workspace and the harness as
-- parameters, and one turn of its worker loop (runtime/app.py).
-- Transport: Vocabulary (public codes, statuses and events), Parsing (fields of requests), Views
-- (what is shown), Handlers, Messages and Routes (every handler, `do_GET`, `do_POST`), and Streams
-- (`_stream` turn by turn, with the calls of other threads between turns) of transport/server.py.
-- What a handler sends is a value, a stream the place that it starts from, so `do_GET` ends there
-- and the stream's turns are a definition of their own; pathlib, `urlsplit` and `parse_qs` are
-- parameters.
--
-- Harness.Context: what a model is shown of a conversation (harness/context.py). Harness.Tooling
-- and Harness.Commits: the skill of a tool call and the commit of its files (harness/tooling.py).
-- `str` of a requested skill and the squeezing of white space are parameters.
--
-- Store.Preserves has a rule for each way to build a method, and Store.Respects the laws that a
-- relation between databases needs for every method to preserve it; Store.Methods and Store.Traces
-- carry it over methods and over any sequence of calls. The store's lock lets one call run at a
-- time, so a sequence of calls is every interleaving. Store.History with Steps, Numbering, Memory
-- and Owned are four such relations; Store.Growing is the same for the content files. Pages.Feed,
-- Pages.Whole and Pages.Thread are about clients that read page after page. Lifecycle,
-- Idempotency, Claiming, Fencing, Refusals, Answers and Objects have the theorems.
-- Examples runs them on a small database.
--
-- The code that is modelled has no loop but those over rows, which are structural. A client that
-- reads pages runs on fuel, and the theorems about it say how many pages are enough. Numbers are
-- unbounded, as Python's are, but for cursors, which SQLite takes up to 64 bits. Rows of one table
-- are compared by text as SQLite does with BINARY collation.
--
-- Not modelled: the migrations, messages of exceptions, directories and temporary files of the
-- content store, sockets and headers, the rest of the harness, which drives models and tools,
-- subprocesses, and the workspace module, whose listing and reading of files are operations of the
-- transport's adapter about which nothing is assumed.
pub mod Prelude
pub mod Contracts
pub mod StateMachine
pub mod Json
pub mod Store
pub mod Transport
pub mod Harness
pub mod Service
pub mod Runtime
pub mod Examples
