-- ===== src/Executor/Invariants.antt =====
-- mcp_fuzzer/fuzz_engine/executor/invariants.py: what a JSON-RPC response must look like.
pub mod Acceptance
pub mod Batch
use mcp_server_fuzzer.Prelude.{
  ℕ, suc, String, ◌≡◌, Bool, true, false, not, ◌&&◌, ◌||◌, List, [], ◌∷◌, Option, none, some, any,
  if◌then◌else◌, Result, ok, err, ◌>>=◌, ◌>>◌, raise_if,
}
use mcp_server_fuzzer.Json.{
  ℤ, int_beq, Value, Fields, null, bool, int, arr, obj, elems, get, has, is_null, is_str, is_int,
  is_bool, equals_text,
}

-- `InvariantViolation`, a constructor for each `raise`, with the value that its message shows.
pub data Violation : Type 0 where
  response_is_none : Violation
  invalid_version : Value → Violation
  both_result_and_error : Violation
  neither_result_nor_error : Violation
  request_received : Violation
  missing_id : Violation
  invalid_id : Value → Violation
  no_envelope : Violation
  unexpected_type : Value → Violation
  error_is_null : Violation
  missing_code : Violation
  missing_message : Violation
  code_not_integer : Violation
  message_not_text : Value → Violation
  unexpected_code : Value → Violation
  error_not_object : Violation
  schema_mismatch : String → Violation

-- The last test of the envelope: the id of a response.
check_id : Fields → Result Violation Bool
check_id d =
    if (has d "result" || has d "error") && not (has d "method")
    then (do
      raise_if (not (has d "id")) missing_id
      raise_if (not (is_int (get d "id") || is_str (get d "id")) && not (is_null (get d "id")))
          (invalid_id (get d "id"))
      ok true)
    else ok true

check_envelope : Fields → Result Violation Bool
unfolding check_id
check_envelope d = do
  raise_if (not (equals_text (get d "jsonrpc") "2.0")) (invalid_version (get d "jsonrpc"))
  raise_if (has d "result" && has d "error") both_result_and_error
  if has d "method" && not (has d "id") then ok true else do
    raise_if (not (has d "result") && (not (has d "error") && (has d "id" && not (has d "method"))))
        neither_result_nor_error
    raise_if (has d "method" && (has d "id" && not (has d "result" || has d "error")))
        request_received
    check_id d

unfoldable pub check_response_validity : Value → Result Violation Bool
unfolding check_envelope
check_response_validity null = err response_is_none
check_response_validity (obj d) = if has d "jsonrpc" then check_envelope d else err no_envelope
check_response_validity v = err (unexpected_type v)

-- code in expected_codes: Python compares a number by its value
abbrev pub code_in : Value → List ℤ → Bool
code_in (int n) codes = any (int_beq n) codes
code_in _ codes = false

-- `if expected_codes and ...`: an empty list expects nothing
abbrev pub is_unexpected : Value → Option (List ℤ) → Bool
is_unexpected code none = false
is_unexpected code (some []) = false
is_unexpected code (some (c ∷ cs)) = not (code_in code (c ∷ cs))

unfoldable pub check_error_type_correctness : Value → Option (List ℤ) → Result Violation Bool
check_error_type_correctness null expected = err error_is_null
check_error_type_correctness (obj e) expected = do
  raise_if (not (has e "code")) missing_code
  raise_if (not (has e "message")) missing_message
  raise_if (is_bool (get e "code") || not (is_int (get e "code"))) code_not_integer
  raise_if (not (is_str (get e "message"))) (message_not_text (get e "message"))
  raise_if (is_unexpected (get e "code") expected) (unexpected_code (get e "code"))
  ok true
check_error_type_correctness v expected = err error_not_object

-- `jsonschema.validate(instance, schema)`: the message of the exception, if it raises one. `none` in
-- its place means that the package is not installed.
abbrev pub Validator : Type 0
Validator = Value → Value → Option String

conformity : Option String → Result Violation Bool
conformity none = ok true
conformity (some message) = err (schema_mismatch message)

abbrev error_of : Value → Option Value
error_of (obj d) = if has d "error" then some (get d "error") else none
error_of _ = none

-- The entry of one response: `True`, or the violation whose text the code stores.
pub data Entry : Type 0 where
  verified : Entry
  violated : Violation → Entry
  not_a_list : Value → Entry

abbrev pub entry_of : Result Violation Bool → Entry
entry_of (ok b) = verified
entry_of (err v) = violated v

module _ (validator : Option Validator) where
  check_response_schema_conformity : Value → Value → Result Violation Bool
  unfolding conformity
  check_response_schema_conformity response schema = elim validator [
    | none ↦ ok true
    | some validate ↦ conformity (validate response schema)
  ]

  unfoldable pub verify_response_invariants :
      Value → Option (List ℤ) → Option Value → Result Violation Bool
  unfolding check_response_schema_conformity
  verify_response_invariants response expected schema = do
    check_response_validity response
    elim (error_of response) [
      | none ↦ ok true
      | some error ↦ check_error_type_correctness error expected
    ]
    elim schema [ none ↦ ok true | some s ↦ check_response_schema_conformity response s ]
    ok true

  verify_from : Option (List ℤ) → Option Value → ℕ → List Value → List (ℕ × Entry)
  unfolding verify_response_invariants
  verify_from expected schema i [] = []
  verify_from expected schema i (v ∷ vs) =
      (i, entry_of (verify_response_invariants v expected schema))
      ∷ verify_from expected schema (suc i) vs

  -- The tasks share nothing, so the order in which they run does not matter; `gather` returns their
  -- results in the order of the responses.
  pub verify_batch_responses : Value → Option (List ℤ) → Option Value → List (ℕ × Entry)
  unfolding verify_from
  verify_batch_responses null expected schema = []
  verify_batch_responses (arr responses) expected schema =
      verify_from expected schema 0 (elems responses)
  verify_batch_responses v expected schema = (0, not_a_list v) ∷ []
