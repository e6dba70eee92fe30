-- ===== src/Lib.antt =====
-- The otto gateway: an HTTP gateway that serves chat requests from a pool of worker processes.
--
-- Base: the library names, Boolean tests, lists, texts and lemmas that the parts share. Numbers are
-- the native ℕ; a counter that Go keeps in 64 bits wraps by `u64`.
-- Pool: the worker pool, internal/pool/pool.go, config.go, idle_recycle.go and exit_watcher.go. The
-- Go functions are cut at the critical sections of `p.mu`: each section is one function, and a
-- goroutine between two of them is a `Task` (Pool.State). Pool.Slots, Respawn, Release, Acquire,
-- Sequence, Idle, Close and Warmup hold the sections of the functions they name; Pool.Machine
-- interleaves them as `Event`s in any order. What the world answers (workers that start or fail,
-- clocks, memory sizes) is an argument of the section that asks, so the theorems hold for every
-- answer, but for the losslessness: newSessionInternal overwrites the slot of a session id that is
-- bound, so Lossless assumes that no worker answers NewSession with such an id (IsFreshRun). Weights,
-- Conservation, Exclusive, Open, Lossless, Flight, SingleFlight, Barrier, Holds and
-- Ready are proofs. Not modelled: logs, metrics, panics, the scheduler of the catalog refresh.
-- Catalog: the model catalog, internal/pool/catalog.go, and recordRefreshOutcome and setNextAttempt
-- of catalog_refresh.go. Times are numbers. Strings are compared by their characters.
-- Capture: the ring buffer of captured frames, internal/capture/ring.go and controller.go. A text is
-- the list of its bytes. Reads, Pushes and Refine are proofs about a ring and any calls from its
-- making on.
-- Session: the registry of dedicated sessions, internal/session/registry.go and reaper.go. Registry
-- holds the critical sections of `r.mu`; Machine interleaves the callers of Get, the watchers, the
-- reaper, Delete and Close. Bounds, Handout, Evolves, Teardown, Workers, Tracking, Publish, Creations,
-- Emptied and Accounted are proofs. createEntry is two steps, with any others between: the answer of
-- Spawn, and then Initialize and NewSession with the publication or its failure; in between the caller
-- has the worker (`starting`). A recycle, Delete, Close and the end of a createEntry are one step each
-- with the calls to workers that follow the lock; a context percentage is a number.
-- Engine: the resolution and the collapse of tool calls, internal/engine/toolcall_resolve.go, with
-- `json.Marshal` as a parameter.
-- Anthropic: the streamed answer, internal/adapter/anthropic/sse.go, with mapStopReason of render.go.
-- Frames holds the events and, as the reader of a stream, the protocol; Emitter and Stream hold the
-- functions, as steps that may fail; the loop takes what its `select` receives as a list. The
-- connection takes a number of writes, and none after one that fails; `json.Marshal` and
-- `engine.ExtractToolCallWrappers` are parameters. Grammar, Blocks, Protocol, Ending, Legible, Mirror
-- and Aggregate are proofs; Hooks is aggregatedResponse, the response that the hooks are given. Not
-- modelled: names of models, token counts (zero in the source), message ids.
-- Privacy: the store of pseudonyms, internal/privacy/store.go. Ledger holds the maps of a scope,
-- Store its life from Acquire to the tombstone, Entries the mappings, and Service interleaves the
-- callers, one critical section a step. An operation that holds a scope's mutex across two
-- sections is the scope's `holder`; where TryLock fails, nothing is done. Retained, Paired,
-- Sound, Lifecycle, Mapping, Storing, Settings, Bounds, Roundtrip, Created and Candidates are
-- proofs. The loop over candidates has the 2 ^ 32 attempts of the source. Not modelled: the
-- coordinate rotations and the copies given to the admin surface.
-- Plugin: the filter of the hook chain, internal/plugin/chain.go (Chain), and the merge of
-- recognized spans, internal/plugin/pii/spans.go (Spans). Allowed and Disjoint are proofs.
-- Acp: the client of the worker's protocol, internal/acp/stream.go (Stream) and dispatcher.go
-- (Dispatcher), as the steps that their goroutines take, in any order. A channel is the list of what
-- it holds; a channel of the dispatcher is known by a number, and json.Unmarshal of an id is a
-- parameter. A push may begin while a close waits for the lock, which Go's lock would delay. A
-- close is three steps: `done`, the merge of the result, and the channel. Settled,
-- Delivery and Closes are proofs about the stream, Pending, Answered and Replies about the
-- dispatcher. Not modelled: the transport, the calls of the client, the session updates.
-- Compress: the compression of a transcript, internal/plugin/compress, with the messages of
-- internal/canonical (Message), stages.go (Stages), prune.go (Prune) and hook.go (Hook). A text is
-- valid UTF-8. The regular expressions, json.Marshal, fmt's %d and the rank of bm25.go, with the order
-- of its scores, are arguments (Stages.Library), so the theorems hold for every rank. Kept, Intact,
-- Protected, Whole and Minimal are proofs. Not modelled: bm25.go, the directives, a context that ends
-- in stage four other than as no rank, the recovery from a panic.
-- OpenAi: the streamed chat completion, internal/adapter/openai/sse.go, with mapFinishReason of
-- render.go. Frames holds the frames and, as the reader of a stream, the protocol; Emitter the
-- functions, as steps that may fail (Base.Steps), on a connection that takes a number of writes. What
-- aggregatedResponse is given is kept in the emitter. `json.Marshal`, the clock's ids,
-- `engine.ExtractToolCallWrappers` and `engine.CoerceToolCall` are parameters. Legal, Calls, Endings,
-- Complete and Outcome are proofs. Not modelled: the streams that replay a response, the models' names.
-- Not modelled: the rest of the engine, the rest of the privacy service, the rest
-- of the adapters, the rest of the plugins, the admin surface, authentication and configuration.
-- No definition runs on fuel: every loop is structural on a list or on a number of rounds that
-- the source gives.
pub mod Base
pub mod Pool
pub mod Catalog
pub mod Capture
pub mod Session
pub mod Engine
pub mod Anthropic
pub mod Privacy
pub mod Plugin
pub mod Acp
pub mod Compress
pub mod OpenAi
