-- ===== src/Lib.antt =====
-- The core of the DeerSeek backend: the run lifecycle of the gateway and the guards around the
-- agent's model calls, as total functions on explicit states, with the theorems that make them correct.
--
-- The parts, with the files of the repository that they model, and how they interact:
--   * Runs (packages/harness/deerflow/runtime/runs): the run registry of one worker. Runs.Registry
--     is its memory (the records and the index of each thread's runs), Runs.Store the interface of
--     the row store behind it with its in-memory implementation (Runs.Store.Memory) and the bounded
--     retry of a store call (Runs.Store.Retry). Runs.Manager, Runs.Manager.Methods and
--     Runs.Manager.Orphans are the methods of `RunManager`, each a function on a `Manager`: the
--     registry and an optional store. Runs.Manager.Shutdown is `shutdown` in its two locked parts. The
--     manager takes the store as a record of calls, which may raise, and so its theorems hold for
--     every store; those that say what ends up in the rows are about the in-memory store.
--   * Stream (packages/harness/deerflow/runtime/stream_bridge): the bounded event log through which a
--     run's worker feeds its subscribers. Stream.Delivery runs a producer and a subscriber as a step
--     relation.
--   * EventStore (packages/harness/deerflow/runtime/events/store/memory.py): the events of a thread,
--     their sequence numbers, and the pages of its messages by binary search (EventStore.Bisect).
--   * Journal (packages/harness/deerflow/runtime/journal.py): the journal of a run, which feeds the event
--     store: its write buffer (Journal.Buffer; the order of events in Journal.Order, the last flush in
--     Journal.Flush) and the count of tokens (Journal.Tokens). A batch that the store refuses leaves
--     the store as it was. The run is over when its journal is flushed for the last time: what fills
--     the buffer again while that flush waits for the store is not modelled.
--   * LlmErrors (packages/harness/deerflow/agents/middlewares/llm_error_handling_middleware.py): the
--     circuit breaker (LlmErrors.Breaker), the classification of provider errors (LlmErrors.Classify)
--     and the retry loop that uses both (LlmErrors.Call), in which a parameter stands for what other
--     calls do to the breaker meanwhile.
--   * Loops (packages/harness/deerflow/agents/middlewares/loop_detection_middleware.py): the state of
--     the loop detection and its bookkeeping (Loops), its two layers (Loops.Track) and the hooks that
--     the agent's loop calls (Loops.Hooks).
--   * ToolCalls (packages/harness/deerflow/agents/middlewares/dangling_tool_call_middleware.py): the
--     calls of a message (ToolCalls) and the messages that the model gets in place of those with
--     calls that have no result (ToolCalls.Patch), by an equality of messages (ToolCalls.Equality).
--     ToolCalls.Limit is subagent_limit_middleware.py with tool_call_metadata.py of that directory.
--   * ThreadState (packages/harness/deerflow/agents/thread_state.py): the reducers of a thread's state.
--   * Mcp (packages/harness/deerflow/mcp/session_pool.py): the pool of tool sessions. Mcp has what each
--     method does under the pool's lock, Mcp.Steps their interleavings, Mcp.Teardown the owner task of
--     a session and the ways to shut it down. `MAX_SESSIONS` is an argument.
--   * Memory (packages/harness/deerflow/agents/memory): Memory.Queue is the debounced queue of memory
--     updates (queue.py), Memory.Queue.Pending the map that it implements, in which the two locked
--     sections of `flush` are two steps. Memory.Normalize,
--     Memory.Facts and Memory.Edits (updater.py) bring an answer of the model into shape, apply it to
--     the memory, and edit single facts; `strip` and `casefold` of `str` are parameters. Of the storage
--     (storage.py) there is that it writes the time of the save into the memory, or fails.
--   * Login (app/gateway/routers/auth.py): the limit on failed logins from an address. The check and the
--     count of a login are two steps.
--   * Output: how long outputs of tools are cut, in packages/harness/deerflow/sandbox/tools.py
--     (Output.Truncate) and agents/middlewares/tool_output_budget_middleware.py (Output.Budget).
--   * Subagents (packages/harness/deerflow/subagents/executor.py): the result of a subagent
--     (Subagents), its worker (Subagents.Worker, with the text of its answer in Subagents.Content) and
--     the registry of background tasks (Subagents.Tasks). Subagents.Races interleaves those that write
--     a result, Subagents.Kept the calls on the registry.
-- Prelude holds the shared helpers, Dict Python's dictionaries in insertion order, Tests the concrete
-- runs.
--
-- Code that holds a lock to its end is one step. Times are natural numbers; a clock is an argument. A
-- call that raises is a value of a result type. Values that the code only passes on (metadata, tool
-- arguments, payloads) are a type parameter.
--
-- Bounds: the retry loop of a model call gets one more unit of fuel than the configured attempts, the
-- eviction loop as much as there are threads, a binary search one more than the length of its list, a
-- drained subscription more than the events that are left, and a number in decimal digits itself. The
-- flush of a journal goes by the store's answers, one to a batch.
--
-- Not modelled: the SQL and JSONL stores, the worker that runs an agent, the gateway's other routers,
-- the channels, the sandboxes, and the other middlewares; the digest of a set of tool calls
-- (`_hash_tool_calls`), which is a parameter; the cancellation of a caller of `get_session`; the
-- prompts of the memory, its files and their cache; a subagent's setup (its loop, agent, skills and tools);
-- logging and the user-facing texts of model errors.
pub mod Prelude
pub mod Dict
pub mod Stream
pub mod Mcp
pub mod Memory
pub mod Journal
pub mod LlmErrors
pub mod EventStore
pub mod Output
pub mod Runs
pub mod Loops
pub mod ToolCalls
pub mod ThreadState
pub mod Login
pub mod Subagents
pub mod Tests
