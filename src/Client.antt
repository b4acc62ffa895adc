-- ===== src/Client.antt =====
-- mcp_fuzzer/client: what the clients make of the outcome of a fuzz run.
pub mod Outcomes
pub mod Tests
