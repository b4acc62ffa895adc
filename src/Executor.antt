-- ===== src/Executor.antt =====
-- mcp_fuzzer/fuzz_engine/executor: the checks that a response passes after a fuzz run.
pub mod Invariants
pub mod StateConsistency
pub mod Tests
