-- ===== src/Lib.antt =====
-- kkode, a coding agent with an HTTP service: models of its core in Go and theorems on them.
--
-- The parts and how they interact. A user talks to an agent (agent/), which tests the prompt, runs a
-- loop between a provider and tools (llm/), and tests the answer. The tools work on the files of a
-- workspace (workspace/). A session (session/) keeps the turns of a talk and can be forked. The
-- service (gateway/) lets a request past a chain of tests to an endpoint, cleans up and checks what
-- it asks for, runs agents in the background, a goroutine for each run, and tells subscribers of
-- every change of a run.
--
-- The files, and the code that each models:
--   Prelude          names of the libraries, Boolean tests, lists, results and Go's `int`
--   Strings          the functions of Go's package strings that the code calls, on code points;
--                    Bytes for their sizes in UTF-8, Trimming for `Trim` and `TrimSpace`
--   Filepath         `Clean` and `Join` of Go's package path/filepath
--   Disk             the calls of Go's package os on files and directories without links
--   Workspace        workspace/workspace.go: `Resolve`; Inside and Inside.Names on
--                    what it accepts
--   Workspace.Patch  `parsePatch`, `PatchPaths`; Applying for `planPatchOp` and `ApplyPatch`
--   Workspace.Editing, Reading, Output
--                    `WriteFile` and `EditFile`; `ReadFileRange`; `boundedCommandBuffer`
--   Workspace.Deleting, Moving
--                    `DeletePath`; `MovePath`, with Kept and Moved on what it leaves and does
--   Llm.Tools        llm/tools.go: `Execute`, `executeToolCall`, `executeToolCalls`
--   Llm.Toolset      llm/tools.go: `ToolSet`
--   Llm.Loop         llm/tools.go: `RunToolLoop`; Rounds and Transcript on its rounds
--   Llm.Router       llm/router.go
--   Llm.Pipeline     llm/pipeline.go and the types of llm/conversion.go
--   Agent            agent/guardrails.go and `RunPrepared` and `traceTools` of agent/agent.go
--   Session          the data of session/session.go; Fork for session/fork.go
--   Gateway.Runs     the run of gateway/dto.go and what `execute` makes of it at its end
--   Gateway.Manager  gateway/run_manager.go: Steps is the step relation of the manager. `submit` and
--                    `answer` are the two ends of `Start`, before and after the store is asked;
--                    `cancel` and `shut_down` what `Cancel` and `Shutdown` do under the lock, and
--                    `stop` their later call of a run's cancel function; `acquire`, `refuse`,
--                    `begin` and `finish` are the steps of a run's goroutine. They come in any
--                    order. Starting, Stats and Queries are `Start`, `RuntimeStats`, and `List` and
--                    `Count`; Recovery is `RecoverStaleRuns`; Lifecycle is the abstract life of a
--                    run, and Draining is about the steps that carry all runs out
--   Gateway.Events   gateway/event_bus.go: a channel is the list of what its buffer holds
--   Gateway.Requests gateway/context_blocks.go: the clean-up of a request to start a run; Validation
--                    for its tests and those of `validateRunStartRequest` of gateway/server.go;
--                    Accepted, Folders, Selections and Blocks on what comes through
--   Gateway.Service  the HTTP service. Access is the chain of `buildHandler` of gateway/server.go
--                    with gateway/auth.go and gateway/cors.go, and Routes the routes of
--                    gateway/api.go; Starting is `startRun` and `retryRun`, Listing is `listRuns`,
--                    Paging is `pageSlice` of gateway/mcp_probe.go and its kin, Stream is
--                    `writeRunSSE`
--   Examples         the theorems at concrete inputs
--
-- State is passed explicitly: a disk is an association list of absolute paths, a manager a record of
-- runs, slots and the copies of runs to save and publish, and the world of a provider, a tool or a caller is a type that
-- the definitions take. What is not this repository's is a parameter: providers, handlers,
-- converters, the policies of guardrails, lower case, the folding of case, redaction, SHA-256, the
-- picking of a handler by `http.ServeMux`, the parsing of numbers and addresses, the durable store
-- and its claims, new ids and the clock.
--
-- Bounds and fuel. The parser of patches runs on fuel that is the number of lines, which is enough
-- since each step takes at least one. The tool loop runs for `MaxIterations` rounds, or 8, as in
-- the source. The loop that halves slashes has the length of the text as fuel, since each round
-- shortens it; a recovery has one round more than there are runs. An `int` that may be negative is
-- a ℤ, and the sum of `ReadFileRange` wraps at 64 bits. A patch may have 1 MiB at most, as in the
-- source; channels hold 16 runs or 32 events.
--
-- Not modelled: the token usage of a run, which is only copied; the observer of an agent and all
-- times but those of runs; symbolic links; the parallel execution of tool calls, for which the
-- loop takes any function; checkpoints, listing and searching files; the SQL stores; the
-- HTTP endpoints but for starting, retrying, listing and following runs, panics of handlers, the
-- access log and the encoding of JSON; the provider clients, the prompt templates, and the wiring
-- of commands. A step of the manager is what happens under its lock or between two waits; the
-- release of a slot is part of the step of the last update, which it follows at once. The relation
-- takes what a starter may return as an argument. The order in which a map is walked, and in which
-- `sort.Slice` leaves runs that started at one time, is an argument of `List`.
pub mod Prelude
pub mod Strings
pub mod Filepath
pub mod Disk
pub mod Workspace
pub mod Llm
pub mod Session
pub mod Agent
pub mod Gateway
pub mod Examples
