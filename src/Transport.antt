-- ===== src/Transport.antt =====
-- mcp_fuzzer/transport: JSON-RPC payloads, the life of a connection, and retries.
pub mod JsonRpc
pub mod Lifecycle
pub mod Retrying
pub mod Batches
pub mod ToolDiscovery
pub mod Stdio
pub mod ServerRequests
pub mod Tests
