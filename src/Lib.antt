-- ===== src/Lib.antt =====
-- This library is about the session core of DeepSeek Harness X, in backend/: the log of a session is a
-- list of envelopes with consecutive seqs; the surface is the list of the seqs that the next model call is
-- built from. An envelope enters the surface at its end or replaces a range of it. A compaction replaces the
-- older part of the surface by one summary message, as a bracket of durable events on the same log. The agent
-- emits the events: it numbers them, keeps turns and steps nested, and appends each to the durable store, which
-- accepts only the next seq. A model's stream is assembled into the content blocks of a message, and a failed
-- request is retried within a budget. A Team of agents keeps its board of tasks as events on the log of its lead.
--
-- The files:
-- - Prelude: names of the libraries passed on, Boolean tests, lists over the native numbers, maps with
--   string keys, results, and Go's int as an unbounded integer (Prelude/Int).
-- - Session/Json: the JSON values that toolResultRewriteEqual compares (backend/pkg/session/surface.go).
-- - Session/Events, Session/Messages: envelopes, surface operations, content blocks and
--   ProjectEventMessage (backend/pkg/session/events.go).
-- - Session/Surface: planSurfaceEvent, applySurfacePlan and FoldSurface (backend/pkg/session/surface.go). Its
--   children: Plan (what a plan is), Extend (a longer log), Window, Panic, Partition.
-- - Session/Manager: SurfaceManager, with its pending plan (the same Go file). Its children: Refines (the
--   relation to the fold), Contract, Grow.
-- - Compaction/Pairing: backend/pkg/compaction/toolpairing.go. Child: Balance.
-- - Compaction/Region: Measure, SelectCompactableRange and ValidateSurfaceRegion of
--   backend/pkg/compaction/compactor.go. Children: Validate, Select, Agree.
-- - Compaction/Entry: the durable lock (inspectCompactionEntryState, ActiveCompaction). Children: Replay, Lock.
-- - Compaction/Transaction: CompactTransaction and what it calls, with Transaction/Run for its commit and the
--   whole run. Children: Bracket, Closed.
-- - Policy: PolicyStore (backend/pkg/tools/policy.go). Child: Modes.
-- - Llm/Stream: BlockAssembler (backend/pkg/llm/stream.go), with Stream/Ingest for IngestChunk and its finish
--   loop. Children: Invariant, Ingests, Slots, Finish, Interleave.
-- - Storage/RingBuffer, Storage/Sqlite: the ring of recent events and the append check of the SQLite store
--   (backend/pkg/storage/ringbuffer.go, store_sqlite.go).
-- - Agent/Lifecycle: validateTransition (backend/pkg/agent/loop.go), with Lifecycle/Emit for EmitEvent, emitRaw,
--   emitBoundary and finishTurnReason. Children: Bracket, Append (one call as a step), Stored, Stuck, Converge.
-- - Agent/Retry: llmRetry (the same Go file). Children: Budget, Recover.
-- - Team: the records of a Team, with Team/Graph for validateTaskGraph and Team/Fold for foldTeamEvents
--   (backend/pkg/tools/team.go), Team/Tasks and Team/Roster for the board and the roster
--   (backend/pkg/tools/team_service.go). Children: Graph/Order, Graph/Ends, Board, Edits, Effect,
--   Agree.
-- - Schedule, Schedule/Occurrence: the replay of schedule changes and nextOccurrence
--   (backend/pkg/tools/schedule.go), with Schedule/Due for decideDue (schedule_runtime.go beside it). Children:
--   Seen, Dispatch, Occurrence/Future, Due/Least, Due/Choice.
-- - Core/Permissions, Core/Tasks: the permission service and the event bus (backend/core/permissions.go,
--   backend/core/tasks.go). Children: Resolve, Delivery.
-- - Tui/History, Tui/CtrlC: the input history and the Ctrl+C guard (backend/pkg/tui).
-- - Examples: the properties at concrete inputs.
--
-- Conventions. A Go function that returns an error is a function to Result; a method that changes its receiver
-- takes the state and returns the new one beside its result, also where it fails. Pointers that the code compares
-- (the pending event of SurfaceManager) are addresses into a heap. A Go int is an unbounded integer: seqs,
-- token counts and nanoseconds stay far below 2^63. The counter of the hint bar wraps around at 2^64. Loops are
-- structural recursion on the list, or on the number of rounds left, which is computed from the state before
-- the loop, as its bound is in the code. Two loops have fuel: the retry loop one unit for each attempt of its
-- budget, and the depth-first search of the task graph two more than the tasks; the results below say that it is
-- enough. The finish loop of the assembler ranges over a slice that is shifted in place, so its model keeps the
-- slots of the backing array. The doubling of the ring's capacity has the wanted capacity as its fuel.
--
-- Parameters. encoding/json is a Codec, a Decoder and the encoders of Services; path/filepath is a Filepath; the
-- summarizer, the token estimate, the token meter, the random ids, the cancellation of the context and the
-- reload of the log are fields of Services and of the options. The store of a compaction is any function of the
-- attempts made so far to a seq or an error. The trimming of a line is an argument.
-- Times are arguments. What an emit meets (the clock, json.Marshal, a failing database or file) is its World; what
-- a request meets (the end of each attempt, an aborted wait, the factor of the jitter) is its Provider. The
-- functions of strings, fmt, strconv and regexp that the task board calls are the fields of its Lib, and those of
-- strings and time that the schedules call are the fields of theirs.
--
-- Not modelled: locks (each operation is one step), the rows of the SQLite store and file persistence, the
-- gateway, the HTTP clients of the models, the actor loop around the emits, the views and live children of a Team,
-- the other tools, the rendering of the terminal, timers and other goroutines, and the Godot client. Left out of what
-- is modelled: the provider, the model and the usage of a summary payload, the panics of the type assertions on a
-- malformed field of a task update, and the wrap-around of task numbers at 2 ^ 63.
pub mod Prelude
pub mod Session
pub mod Compaction
pub mod Policy
pub mod Llm
pub mod Storage
pub mod Agent
pub mod Team
pub mod Schedule
pub mod Core
pub mod Tui
pub mod Examples
