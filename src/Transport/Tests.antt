-- ===== src/Transport/Tests.antt =====
-- Concrete payloads, connections and calls, and what the theorems on the transports say of them.
use mcp_server_fuzzer.Prelude.{
  ℕ, zero, suc, ◌≡◌, refl, ◌↔◌, ◌⊎◌, true, false, none, some, arith, ok, err, Result,
}
use mcp_server_fuzzer.Json.{Fields, null, bool, str, obj, end, field, get, has}
use mcp_server_fuzzer.SpecGuard.Shape.{IsBoolean}
use mcp_server_fuzzer.Errors.{network_error}
use mcp_server_fuzzer.Executor.Invariants.{
  check_response_validity, verify_response_invariants, code_not_integer,
}
use mcp_server_fuzzer.Transport.JsonRpc.{validate_jsonrpc_payload}
use mcp_server_fuzzer.Transport.JsonRpc.Payloads.{validators_agree, validated_error_verifies}
use mcp_server_fuzzer.Transport.Lifecycle.{
  Connection, new_connection, connection_duration, lifecycle_connected, lifecycle_disconnect,
  lifecycle_closed,
}
use mcp_server_fuzzer.Transport.Lifecycle.Timing.{
  Reach, start, step, apply, IsTimed, connect, mark_connected, disconnect, Reach-IsTimed,
  graceful_close_keeps_counting,
}
use mcp_server_fuzzer.Transport.Retrying.{Raised, program}

abbrev answer : Fields
answer = field "jsonrpc" (str "2.0") (field "id" (bool true) (field "result" null end))

validators_agree_example :
    (validate_jsonrpc_payload false (obj answer) ≡ ok tt)
    ↔ ((check_response_validity (obj answer) ≡ ok true) × (has answer "result" ≡ true))
unfolding has
validators_agree_example = validators_agree false answer refl refl

abbrev boolean_error : Fields
boolean_error = field "code" (bool true) (field "message" (str "no") end)

abbrev failure : Fields
failure = field "jsonrpc" (str "2.0") (field "id" null (field "error" (obj boolean_error) end))

validated_error_verifies_example :
    (verify_response_invariants none (obj failure) none none ≡ ok true)
    ⊎ ((verify_response_invariants none (obj failure) none none ≡ err code_not_integer)
        × IsBoolean (get boolean_error "code"))
unfolding has get validate_jsonrpc_payload
validated_error_verifies_example =
    validated_error_verifies false failure boolean_error refl refl refl refl

abbrev first : Connection
first = new_connection 3

reached : Reach 9 (apply 9 disconnect (apply 5 mark_connected (apply 4 connect first)))
reached =
    step (step (step (start 3) 4 connect (omega arith)) 5 mark_connected (omega arith)) 9 disconnect
      (omega arith)

Reach-IsTimed_example :
    IsTimed 9 (apply 9 disconnect (apply 5 mark_connected (apply 4 connect first)))
Reach-IsTimed_example = Reach-IsTimed reached

graceful_close_keeps_counting_example :
    connection_duration 60
      (lifecycle_closed 9 (lifecycle_disconnect 8 (lifecycle_connected 5 first)))
    ≡ some 55
graceful_close_keeps_counting_example = graceful_close_keeps_counting first 5 8 9 60 (λ e. cc)

-- The first attempt meets a network error, the second one succeeds.
abbrev flaky : ℕ → Result Raised ℕ
flaky zero = ok 0
flaky (suc zero) = err (program network_error)
flaky (suc (suc n)) = ok n
