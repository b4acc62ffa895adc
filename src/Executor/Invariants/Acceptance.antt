-- ===== src/Executor/Invariants/Acceptance.antt =====
-- Which responses pass the envelope check, and which error objects.
use mathlib.Core.Path.{subst}
use mcp_server_fuzzer.Prelude.{
  String, ◌≡◌, ◌↔◌, ◌⊎◌, inl, inr, Bool, true, false, not, ◌&&◌, ◌||◌, List, Option, arith, ok,
  ◌>>◌, raise_if, Bool-cases,
}
use mcp_server_fuzzer.Json.{
  ℤ, Value, Fields, null, bool, int, str, obj, get, has, is_int, is_str, is_null, is_bool,
}
use mcp_server_fuzzer.Json.Laws.{equals_text_iff, get-eq-null_of_not_has}
use mcp_server_fuzzer.SpecGuard.Shape.{ObjectWith, IsString, IsInteger, is_str_iff}
use mcp_server_fuzzer.Executor.Invariants.{
  check_id, check_envelope, check_response_validity, check_error_type_correctness, is_unexpected,
  Violation, missing_code, missing_message, code_not_integer,
}

-- An id that a response may carry: Python's booleans count as integers.
abbrev pub IsResponseId : Value → Type 0
IsResponseId null = Unit
IsResponseId (bool b) = Unit
IsResponseId (int n) = Unit
IsResponseId (str s) = Unit
IsResponseId _ = ⊥

pub IsResponseId-iff :
    (v : Value) → (not (is_int v || is_str v) && not (is_null v) ≡ false) ↔ IsResponseId v
IsResponseId-iff null = ground arith
IsResponseId-iff _ = ground arith

abbrev pub Has : Fields → String → Type 0
Has d key = has d key ≡ true

abbrev pub Lacks : Fields → String → Type 0
Lacks d key = has d key ≡ false

-- The envelopes that pass: a notification, a request that carries a result or an error, a response
-- with an id, and an envelope with none of the four members.
abbrev pub AcceptedMembers : Fields → Type 0
AcceptedMembers d =
    (Has d "method" × Lacks d "id")
    ⊎ ((Has d "method" × Has d "id" × (Has d "result" ⊎ Has d "error"))
        ⊎ ((Lacks d "method"
              × Has d "id"
              × (Has d "result" ⊎ Has d "error")
              × IsResponseId (get d "id"))
            ⊎ (Lacks d "method" × Lacks d "id" × Lacks d "result" × Lacks d "error")))

abbrev pub AcceptedEnvelope : Fields → Type 0
AcceptedEnvelope d =
    (get d "jsonrpc" ≡ str "2.0") × (has d "result" && has d "error" ≡ false) × AcceptedMembers d

check_id-eq-ok_iff :
    (d : Fields)
    → (check_id d ≡ ok true) ↔ (
        (has d "result" || has d "error") && not (has d "method") ≡ true
        → Has d "id" × IsResponseId (get d "id"))
unfolding check_id
check_id-eq-ok_iff d = ground (arith, IsResponseId-iff (get d "id"))

check_envelope-eq-ok_iff : (d : Fields) → (check_envelope d ≡ ok true) ↔ AcceptedEnvelope d
unfolding check_envelope
check_envelope-eq-ok_iff d =
    ground (arith, equals_text_iff (get d "jsonrpc") "2.0", IsResponseId-iff (get d "id"))

-- A response passes the envelope check exactly if it is an object of version "2.0" that does not
-- hold both a result and an error, and is a notification, or a request that carries a result or an
-- error, or a response with a text, an integer, a boolean or null as its id, or an envelope without
-- method, id, result and error.
pub check_response_validity-eq-ok_iff :
    (v : Value) → (check_response_validity v ≡ ok true) ↔ ObjectWith AcceptedEnvelope v
unfolding check_response_validity
check_response_validity-eq-ok_iff (obj d) =
    ground (arith, check_envelope-eq-ok_iff d, get-eq-null_of_not_has d "jsonrpc")
check_response_validity-eq-ok_iff _ = ground arith

is_plain_int_iff : (v : Value) → (is_bool v || not (is_int v) ≡ false) ↔ IsInteger v
is_plain_int_iff null = ground arith
is_plain_int_iff _ = ground arith

Has-IsInteger : (d : Fields) (k : String) → IsInteger (get d k) → Has d k
Has-IsInteger d k h = elim (Bool-cases (has d k)) [
  | inl e ↦ e
  | inr e ↦ absurd (subst IsInteger (get-eq-null_of_not_has d k e) h)
]

Has-IsString : (d : Fields) (k : String) → IsString (get d k) → Has d k
Has-IsString d k h = elim (Bool-cases (has d k)) [
  | inl e ↦ e
  | inr e ↦ absurd (subst IsString (get-eq-null_of_not_has d k e) h)
]

error_tests-eq-ok_iff :
    (e : Fields) (unexpected : Bool) (v w : Violation)
    → ((do
      raise_if (not (has e "code")) missing_code
      raise_if (not (has e "message")) missing_message
      raise_if (is_bool (get e "code") || not (is_int (get e "code"))) code_not_integer
      raise_if (not (is_str (get e "message"))) v
      raise_if unexpected w
      ok true)
        ≡ ok true)
      ↔ (IsInteger (get e "code") × IsString (get e "message") × (unexpected ≡ false))
error_tests-eq-ok_iff e unexpected v w = ground (
  arith,
  is_plain_int_iff (get e "code"),
  is_str_iff (get e "message"),
  Has-IsInteger e "code",
  Has-IsString e "message",
)

-- An error object passes exactly if it has an integer code, no boolean, a text as its message, and a
-- code among the expected ones where some are given.
pub check_error_type_correctness-eq-ok_iff :
    (v : Value) (expected : Option (List ℤ))
    → (check_error_type_correctness v expected ≡ ok true)
      ↔ ObjectWith
          (λ e.
            IsInteger (get e "code")
            × IsString (get e "message")
            × (is_unexpected (get e "code") expected ≡ false))
          v
unfolding check_error_type_correctness
check_error_type_correctness-eq-ok_iff (obj e) expected =
    error_tests-eq-ok_iff e (is_unexpected (get e "code") expected) _ _
check_error_type_correctness-eq-ok_iff null expected = ground arith
check_error_type_correctness-eq-ok_iff _ expected = ground arith
