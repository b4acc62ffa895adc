-- ===== src/Transport/Stdio.antt =====
-- mcp_fuzzer/transport/drivers/stdio_driver.py: the loop of `send_request` that waits for the response to
-- a message that has been sent, and answers the server's own requests meanwhile.
pub mod Correlation
mod Tests
use mcp_server_fuzzer.Prelude.{
  ℕ, zero, suc, String, Bool, true, false, not, ◌&&◌, ◌||◌, List, [], ◌∷◌, ◌++◌, Option, none, some,
  any, ◌==◌, nat_beq, if◌then◌else◌, Result, ok, err,
}
use mcp_server_fuzzer.Json.{
  ℤ, pos, negsuc, Value, Fields, end, field, str, obj, get, has, equals_text, is_dict, PyError,
}
use mcp_server_fuzzer.Transport.ServerRequests.{is_server_request}
use mcp_server_fuzzer.Transport.ServerRequests.Handler.{
  Outside, Handler, Outcome, handle_request, handle_notification,
}

-- The ways in which the loop raises.
pub data StdioError : Type 0 where
  server_crashed : ℤ → StdioError
  no_response : StdioError
  server_error : Value → StdioError
  too_many_responses : StdioError
  send_failed : StdioError
  receive_failed : StdioError
  handler_raised : PyError → StdioError

-- What one `_receive_message` gives: a line that starts with a brace and decodes, None, or an exception.
pub data Received : Type 0 where
  message : Fields → Received
  nothing : Received
  failed : Received

-- SIGSEGV, SIGABRT, SIGBUS, SIGILL, SIGFPE and so on, as numbers
module _ (crash_signals : List ℕ) where
  -- `_detect_crash` on the exit code, if the process has one within the half second: the code of a crash.
  unfoldable pub detect_crash : Option ℤ → Option ℤ
  detect_crash none = none
  detect_crash (some (pos zero)) = none
  detect_crash (some (pos (suc n))) = some (pos (suc n))
  detect_crash (some (negsuc n)) =
      if any (nat_beq (suc n)) crash_signals then some (negsuc n) else none

-- `_raise_if_crashed`, and else the exception that follows it.
abbrev pub crash_or : Option ℤ → StdioError → StdioError
crash_or none e = e
crash_or (some code) e = server_crashed code

-- The driver's handler of server requests, and the messages that it has sent.
pub record Driver : Type 0 where
  pub handler : Handler
  pub sent : List Fields

-- return result if isinstance(result, dict) else {"result": result}
abbrev pub as_dict : Value → Fields
as_dict (obj result) = result
as_dict v = field "result" v end

-- The result of a response without an error.
unfoldable pub result_in : Fields → Fields
result_in response = as_dict (if has response "result" then get response "result" else obj response)

-- max_iterations
abbrev pub max_iterations : ℕ
max_iterations = 1000

-- What is done about a message: it is answered or noted, or left, or the driver raises.
pub data Handled : Type 0 where
  handled : Handled
  left : Handled
  raised : StdioError → Handled

module _ (can_send : List Fields → Fields → Bool) (crash : Option ℤ) where
  -- `_send_message` of a response; `crash` is what `_detect_crash` finds, where it is asked.
  abbrev pub send : Fields → Driver → Driver × Handled
  send response d =
      if can_send d.sent response
      then (record d { sent = d.sent ++ (response ∷ []) }, handled)
      else (d, raised (crash_or crash send_failed))

  abbrev pub after_request : Option Outcome → Driver → Driver × Handled
  after_request none d = (d, left)
  after_request (some (h, ok response)) d = send response (record d { handler = h })
  after_request (some (h, err e)) d = (record d { handler = h }, raised (handler_raised e))

  -- `_handle_server_request`
  unfoldable pub handle_server_request : Outside → Fields → Driver → Driver × Handled
  handle_server_request outside m d =
      if is_server_request (obj m)
      then after_request (handle_request outside (obj m) d.handler) d
      else (
        record d { handler = (handle_notification (obj m) d.handler).0 },
        if (handle_notification (obj m) d.handler).1 then handled else left,
      )

  abbrev pub answer_of : Fields → Result StdioError Fields
  answer_of m = if has m "error" then err (server_error (get m "error")) else ok (result_in m)

  -- The loop, with the rounds that are left of `max_iterations`; `outside` is what the code takes from
  -- outside in a round. Where the list of what is received ends, nothing is received.
  unfoldable pub await_response :
      (ℕ → Outside) → String → ℕ → List Received → Driver → Driver × Result StdioError Fields
  await_response outside request_id zero received d = (d, err too_many_responses)
  await_response outside request_id (suc rounds) [] d = (d, err (crash_or crash no_response))
  await_response outside request_id (suc rounds) (nothing ∷ received) d =
      (d, err (crash_or crash no_response))
  await_response outside request_id (suc rounds) (failed ∷ received) d =
      (d, err (crash_or crash receive_failed))
  await_response outside request_id (suc rounds) (message m ∷ received) d =
      let after = handle_server_request (outside rounds) m d in
      let next = await_response outside request_id rounds received after.0 in
      elim after.1 [
        | raised e ↦ (after.0, err e)
        | handled ↦ next
        | left ↦ if equals_text (get m "id") request_id then (after.0, answer_of m) else next
      ]
