-- ===== src/Executor/Tests.antt =====
-- Concrete responses, and what the theorems on the invariants say of them.
use mcp_server_fuzzer.Executor.StateConsistency.{check_state_consistency}
use mcp_server_fuzzer.Executor.StateConsistency.Changes.{
  IsKept, IsAllowed, check_state_consistency-eq-ok_iff,
}
use mcp_server_fuzzer.Prelude.{
  All, nat_beq, List, String, ℕ, ◌≡◌, refl, ◌↔◌, true, [], ◌∷◌, some, ok,
}
use mcp_server_fuzzer.Json.{pos, Value, int, str, obj, end, field, get, has}
use mcp_server_fuzzer.SpecGuard.Shape.{ObjectWith}
use mcp_server_fuzzer.Executor.Invariants.{check_response_validity}
use mcp_server_fuzzer.Executor.Invariants.Acceptance.{
  AcceptedEnvelope, check_response_validity-eq-ok_iff,
}

abbrev response : Value
response =
    obj (field "jsonrpc" (str "2.0") (field "id" (int (pos 1)) (field "result" (obj end) end)))

-- It has none of the members of a response, and passes.
abbrev bare_envelope : Value
bare_envelope = obj (field "jsonrpc" (str "2.0") end)

bare_envelope_passes : check_response_validity bare_envelope ≡ ok true
unfolding check_response_validity has get
bare_envelope_passes = refl

check_response_validity-eq-ok_iff_example :
    (check_response_validity bare_envelope ≡ ok true) ↔ ObjectWith AcceptedEnvelope bare_envelope
check_response_validity-eq-ok_iff_example = check_response_validity-eq-ok_iff bare_envelope

abbrev before : List (String × ℕ)
before = ("runs", 1) ∷ ("errors", 0) ∷ []

abbrev after : List (String × ℕ)
after = ("runs", 2) ∷ ("errors", 0) ∷ ("crashes", 1) ∷ []

check_state_consistency-eq-ok_iff_example :
    (check_state_consistency nat_beq before after (some ("runs" ∷ [])) ≡ ok true) ↔ (
      All (IsKept nat_beq after (some ("runs" ∷ []))) before
      × All (IsAllowed nat_beq before (some ("runs" ∷ []))) after)
check_state_consistency-eq-ok_iff_example =
    check_state_consistency-eq-ok_iff nat_beq before after (some ("runs" ∷ []))
