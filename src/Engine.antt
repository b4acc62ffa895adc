-- ===== src/Engine.antt =====
-- mcp_fuzzer/fuzz_engine/mutators: what the mutators keep between runs.
pub mod SeedPool
