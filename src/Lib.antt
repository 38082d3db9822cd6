-- ===== src/Lib.antt =====
-- A model of the pure cores of the repository, and theorems about them.
--
-- The program has two halves. The gateway (`crates/prosthetic-conscience`) hands chat requests to
-- the workers that connect to it and keeps shared sessions, which are append-only logs with
-- subscribers. Its asynchronous runtime turns every request, message and clock tick into an event
-- of one pure function, `gateway::kernel::reduce`, and executes the effects that come back. The
-- consensus client (`crates/consensus`) follows a session's log: the coordinator puts entries in
-- order and plans which to fetch, the reducer folds the entries into a materialized state and a
-- graph of arguments, the solver labels the graph, and the status of each claim combines its label
-- with the stances on it.
--
-- Which file models what:
-- - Protocol: `Capability` of `crates/prosthetic-conscience/src/protocol.rs`.
-- - Session: `crates/prosthetic-conscience/src/gateway/session/kernel.rs`. `Session.reduce` is
--   `reduce`, clause by clause; `append`, `get_entry`, `len` and `slice` are the methods of
--   `AppendLog`; `run` is a history of events. Proofs: Session/Entries (the log), and
--   Session/Subscribers (deadlines and removals).
-- - Gateway: `crates/prosthetic-conscience/src/gateway/kernel.rs`. Gateway/State has the state, the
--   events and the effects; Gateway/Sweep the search for a worker and the loops of the `Tick` arm;
--   Gateway/Kernel `reduce`, with one definition for each larger arm. A session's events go
--   through `Session.reduce`, as in the source. Proofs: Gateway/Dispatch (chat requests),
--   Gateway/Streams (how streams end), Gateway/Sessions (what becomes of each session), Gateway/Pool
--   (what becomes of each worker), Gateway/Workers, Gateway/Active and Gateway/Invariant (the lists
--   that stand for maps), Gateway/Deadlines and Gateway/Departures.
-- - Gateway/ChannelRegistry: `gateway/channel_registry.rs` of the same crate, the channels by their
--   identifiers; the texts that `Uuid::new_v4` makes are arguments. Proof:
--   Gateway/ChannelRegistry/Handles.
-- - Coordinator: `crates/consensus/src/coordinator.rs`. Proofs: Coordinator/Fetches (what is
--   fetched), Coordinator/Slots (what an event does to each slot), Coordinator/Prefix (the
--   committed entries against the log).
-- - Types, Reducer and Status: `types.rs`, `reducer.rs` and `status.rs` of `crates/consensus/src`.
--   Proofs: Reducer/Claims (the replay against readings of the log itself), Reducer/Nodes and
--   Reducer/Extraction (`to_graph`), Status/Computed (the statuses of a log, through the solver).
-- - Drafts: `crates/consensus/src/drafts.rs`, and the draft types of
--   `crates/consensus/src/engine.rs`. Proofs: Drafts/References (lists of drafts), Drafts/Closed and
--   Drafts/Reduced (references between drafts).
-- - Engine: the log, the drafts and the submission bundles of `crates/consensus/src/engine.rs`:
--   Engine/Drafting has the operations on drafts, against those of drafts.rs, and Engine/Queries
--   the views. The closure `next_claim_id` is the sequence of the identifiers that its calls
--   return. Proof: Engine/Submission.
-- - Render and Preview: `render.rs` and `preview.rs`, with the pipeline `materialize_entries` of
--   engine.rs in Preview. Proof: Preview/Submitted (previews against submissions).
-- - EntryBuffer: `entry_buffer.rs` over the engine. Proofs: EntryBuffer/Delivery and
--   EntryBuffer/Complete (payloads in any order), EntryBuffer/Submission (begin and finish).
-- - Json: the interface to `serde_json`. ClaimRefs: references to claims in JSON, of engine.rs.
--   Proofs: ClaimRefs/Decimals (the numbers of drafts as texts) and ClaimRefs/RoundTrip.
-- - Format: `format.rs`, the texts of the views, with the small words in Format/Words and the texts of
--   the engine's errors in Format/Errors. SystemPrompt: the template of `system_prompt.rs`.
-- - Response, Conversation and AppTools: `response.rs`, `conversation.rs` and `app_tools.rs`.
--   Proofs: Response/Outcomes (assembly of chunks), Conversation/Truncation (the bound on the
--   history).
-- - App: `app.rs`, the application that a browser runs: App has the state and the execution of
--   tools, App/Prompt the system prompt, App/Reducer the reducer, which hands each event to the conversation, the drafts or the
--   coordinator. Proofs: App/Frames and App/Tools (batches of tool calls), App/Events (what is
--   answered), App/Composition (the application against the session log).
-- - ToolDispatch and Turn: `tools.rs` and `llm_turn.rs`, the turns of the model over the engine, which
--   the command line runs. ToolDispatch/Arguments reads the arguments of a tool; Turn/Trace has the
--   traces and the request, Turn/Confirmation the confirmation of a change of the drafts. Proofs:
--   Turn/Tools (what each tool does to the engine), Turn/Calls (the execution of the calls) and
--   Turn/Rounds.
-- - Backoff: `crates/consensus/src/backoff.rs`.
-- - Solver: `crates/consensus/src/solver.rs`. Solver/Semantics has the inductive rules of the
--   grounded semantics; Solver/Termination, Solver/Labels and Solver/Grounded relate
--   `grounded_labelling` to them.
-- - Map: the hash and ordered maps, as association lists (Map/Ordered, Map/Deadlines).
-- - Prelude: shared notation, lists over the native numbers, machine words, the operations on texts
--   (Prelude/Text), and the interfaces `Eq`, `Ord` and `Display` for the trait bounds of the source.
-- - Examples: tests, and the theorems at concrete inputs.
--
-- How the model stands to the code:
-- - Identifiers of workers, streams and subscribers are type parameters with the operations that
--   the trait bounds of the source give.
-- - JSON values are a type parameter. Where the source looks into them, the operations of
--   `serde_json` are a record `Json`, and what their documentation says is the hypothesis `IsLawful`;
--   Examples/JsonTree has values for which it holds. The conversions that `serde` derives are
--   function parameters.
-- - The tool definitions, which are prose and schemas, are a parameter of App/Reducer and of Turn.
-- - The standard library's hash of two words, and its hexadecimal text, are the parameter `Hashing`
--   of the gateway.
-- - A map is a list of its entries. A hash map promises no order of iteration, so the theorems speak
--   of lookups and membership; an ordered map keeps its entries ascending.
-- - `u64` and `usize` have 64 bits and `u32` has 32; sums that may exceed them wrap around as in
--   a release build (`add64`, `add32`, `as_u32`). Sums that stay below the length of a list are
--   plain.
-- - Loops that are not structural run on fuel: the outer loop of `grounded_labelling` on one round
--   for each node and one more, as each round but the last labels a node (see Solver/Termination),
--   the loops of `plan_missing_fetches` on the number of slots still ahead, as each step passes one
--   (see Coordinator/Fetches), and the loop that drains the entry buffer on the number of buffered
--   entries, as each round removes one (see EntryBuffer/Delivery).
--
-- Not modelled: the asynchronous runtime, channels and sockets (`gateway/runtime.rs`,
-- `gateway/relay.rs`, `router/`, `worker/`, `client/`, `chat_gateway/`), which are input and output
-- around the kernels; the tool definitions of `app_tools.rs` and `tools.rs`, which are texts and
-- schemas; the wire types of `protocol.rs`, which `serde` reads and writes; the command line tools,
-- the browser bindings and the evaluation support.
mod Prelude
pub mod Map
pub mod Protocol
pub mod Session
pub mod Gateway
pub mod Solver
pub mod Coordinator
pub mod Types
pub mod Reducer
pub mod Status
pub mod Drafts
pub mod Engine
pub mod Render
pub mod Preview
pub mod Json
pub mod EntryBuffer
pub mod Response
pub mod Conversation
pub mod Format
pub mod SystemPrompt
pub mod ClaimRefs
pub mod AppTools
pub mod App
pub mod ToolDispatch
pub mod Turn
pub mod Backoff
mod Examples
