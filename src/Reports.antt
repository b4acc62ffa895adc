-- ===== src/Reports.antt =====
-- mcp_fuzzer/reports: the counts that a report shows.
pub mod OutcomeBuckets
pub mod Collector
pub mod SpecSummary
pub mod Tests
