-- ===== src/Errors/Tests.antt =====
-- Two exception classes that share a code.
use mcp_server_fuzzer.Prelude.{◌≡◌, ◌↔◌, ◌⊎◌, true}
use mcp_server_fuzzer.Errors.{server_crash_error, authentication_error, code}
use mcp_server_fuzzer.Errors.Codes.{clash, code-eq_iff}

code-eq_iff_example : (code server_crash_error ≡ code authentication_error) ↔ (
    (server_crash_error ≡ authentication_error)
    ⊎ (clash server_crash_error authentication_error ≡ true))
code-eq_iff_example = code-eq_iff server_crash_error authentication_error
