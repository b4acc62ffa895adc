-- ===== src/Lib.antt =====
-- MCP Server Fuzzer: the checks on what a server answers, and the state that the fuzzer keeps.
--
-- The fuzzer calls the tools and the protocol methods of an MCP server with malformed input, and
-- judges what comes back. Its transports build and validate JSON-RPC payloads, follow the life of a
-- connection and call again after transient failures; the clients classify the outcome of each run;
-- the executor checks the JSON-RPC envelope of a response; the spec guard checks the result inside
-- it against the MCP specification; a pool keeps the inputs worth mutating again; a watchdog kills
-- the server processes that hang; the reports count the runs.
--
-- The files, with the code that each is about (paths from the root of the repository):
--   Prelude     shared types, list, option and result lemmas, texts; no code of the program
--   Json        decoded JSON as Python values, and Python's tests on them (isinstance, truthiness,
--               `in`, dict.get); `bool` is an `int` for isinstance, as in Python
--   Errors      mcp_fuzzer/exceptions.py: classes, bases, codes, get_error_registry
--   SpecGuard   mcp_fuzzer/spec_guard/helpers.py; its children Resources, Prompts, Misc,
--               Notifications, Tools, Content and Tasks are the functions `check_*` of
--               spec_checks_*.py. A check returns the list of the reports that the code appends, in
--               order; one that can raise returns a result. A child `Conformance` says on which
--               inputs a check reports nothing, by the shapes of SpecGuard/Shape.
--   Executor    Executor/Invariants is mcp_fuzzer/fuzz_engine/executor/invariants.py: each `raise`
--               is a constructor of `Violation`; StateConsistency is its check_state_consistency.
--   Transport   JsonRpc and Lifecycle are DriverBaseBehavior and LifecycleBehavior of
--               mcp_fuzzer/transport/interfaces/behaviors.py; Retrying is
--               mcp_fuzzer/transport/retrying.py.
--               Batches is the sending and collating of batches, and ToolDiscovery is get_tools, of
--               mcp_fuzzer/transport/interfaces/rpc_adapter.py, the latter with
--               mcp_fuzzer/diagnostics/tool_discovery.py.
--               Stdio is the wait for a response of
--               mcp_fuzzer/transport/drivers/stdio_driver.py, on top of ServerRequests.
--               ServerRequests is mcp_fuzzer/transport/interfaces/server_requests.py, what the client
--               answers to the server: its children Forms and Builders make results, TaskManager
--               keeps tasks, and Handler is ServerRequestHandler. Every operation gives the new
--               state, also where it raises; Effects says what each method does to a task; Steps
--               and Lifetime follow one task through a run of messages.
--   Client      Outcomes is mcp_fuzzer/client/outcomes.py; its child Verdicts tells the outcomes from the
--               runs.
--   Reports     OutcomeBuckets is mcp_fuzzer/reports/outcome_buckets.py; Collector and SpecSummary are
--               mcp_fuzzer/reports/collector.py with the records of models.py.
--   Diagnostics mcp_fuzzer/diagnostics/classify.py and model.py: Runs goes through the results of a
--               session (with extract_tool_runs of mcp_fuzzer/types.py), Scans is what one run shows,
--               Series what many runs show together, and Classify merges, orders and returns it.
--   Runtime     Table is a dict by pid; Watchdog is ProcessRegistry and ProcessWatchdog.scan_once of
--               mcp_fuzzer/fuzz_engine/runtime/registry.py and watchdog.py; its child Strategies is
--               the two termination strategies, with the system's answers as a record `System`.
--   Engine      SeedPool is the pool of mcp_fuzzer/fuzz_engine/mutators/seed_pool.py: `add_seed` returns
--               the flag and the new pool; a write to disk is an entry of `saved`.
--
-- How they interact: Transport.JsonRpc builds and validates the payloads whose answers
-- Executor.Invariants verifies, and Transport/JsonRpc/Payloads relates the two; Errors gives the
-- classes that Transport.Retrying retries and Client.Outcomes classifies, whose outcomes
-- Reports.OutcomeBuckets counts; Runtime.Watchdog.Strategies ends the processes that the scan of
-- Runtime.Watchdog finds hanging.
--
-- Parameters, for code that is not in the repository: the environment and Python's date parser
-- (`Env` of SpecGuard), `jsonschema.validate` (`Validator`), floats with `<` and its irreflexivity
-- (`Floats`), or with `>` (`Scores`), the random draws, what the operating system answers to signals
-- and waits (`System`), and the time, the new uuid and the working directory's root (`Outside`),
-- and Python's texts, regular expressions, json.dumps and numbers (`Texts`, `Numbers`,
-- `Python`), the equality of dict keys (`Keys`), and `send_raw` as a step of the transport's state.
--
-- Bounds: times in Lifecycle and Watchdog are natural numbers, so a difference that Python would
-- give as negative is 0; the watchdog compares it with thresholds that are not negative, where both
-- give the same answer. A retry loop is recursion on the attempts left, of which
-- `with_retries` gives `max_attempts`; the last one always returns, so the loop never runs out. The wait
-- of Stdio is recursion on the rounds left of the code's own max_iterations, 1000, and raises after the
-- last as the code does.
--
-- Not modelled: logging, metrics and other output, the drivers' network and process I/O, the
-- generation of fuzz input, the other reports, the command line, configuration files and OAuth. Nor are
-- some values at the edge of Python's types: NaN as a timestamp of an activity callback, NaN and the
-- infinities apart from each other as dict keys, the ValueError of an int with more digits than
-- Python turns to text, and, in the retry loop, a delay whose power overflows (`next_delay` has it).
pub mod Prelude
pub mod Json
pub mod Errors
pub mod SpecGuard
pub mod Executor
pub mod Transport
pub mod Client
pub mod Runtime
pub mod Engine
pub mod Reports
pub mod Diagnostics
