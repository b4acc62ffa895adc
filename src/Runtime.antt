-- ===== src/Runtime.antt =====
-- mcp_fuzzer/fuzz_engine/runtime: the registry of processes and the watchdog over it.
pub mod Table
pub mod Watchdog
