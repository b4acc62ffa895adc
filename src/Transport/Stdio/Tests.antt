-- ===== src/Transport/Stdio/Tests.antt =====
-- A wait in which the server first asks for the client's roots.
use mcp_server_fuzzer.Prelude.{ℕ, ◌≡◌, refl, Bool, true, List, [], ◌∷◌, Any, none, ok}
use mcp_server_fuzzer.Json.{pos, Fields, field, end, str, int, obj, nil, get, has}
use mcp_server_fuzzer.Transport.ServerRequests.{is_server_request, is_server_notification}
use mcp_server_fuzzer.Transport.ServerRequests.Handler.{
  Outside, new_handler, handle_request, handle_notification, dispatch, request_of, respond,
}
use mcp_server_fuzzer.Transport.Stdio.{
  Received, message, Driver, left, handle_server_request, answer_of, await_response, result_in,
  max_iterations,
}
use mcp_server_fuzzer.Transport.Stdio.Correlation.{
  IsResponse, AllSkipped, driver_after, await_response-IsResponse, await_response-answer_of,
}

abbrev anything : Outside
anything = record { uuid = "u"; hex = "0"; now = "now"; default_roots = nil }

abbrev always : ℕ → Outside
always n = anything

abbrev can_send : List Fields → Fields → Bool
can_send sent m = true

abbrev idle : Driver
idle = record { handler = new_handler nil nil; sent = [] }

abbrev roots_request : Fields
roots_request =
    field "jsonrpc" (str "2.0") (field "id" (int (pos 1)) (field "method" (str "roots/list") end))

abbrev response : Fields
response = field "id" (str "r") (field "result" (obj (field "tools" (str "t") end)) end)

abbrev received : List Received
received = message roots_request ∷ message response ∷ []

response_found :
    (await_response can_send none always "r" 3 received idle).1 ≡ ok (field "tools" (str "t") end)
unfolding await_response handle_server_request is_server_request is_server_notification
    handle_request handle_notification dispatch request_of respond get has result_in
response_found = refl

await_response-IsResponse_example : Any (IsResponse "r" (field "tools" (str "t") end)) received
await_response-IsResponse_example =
    await_response-IsResponse can_send none always "r" 3 received idle (field "tools" (str "t") end)
      response_found

request_skipped : AllSkipped can_send none always "r" max_iterations (roots_request ∷ []) idle
unfolding handle_server_request is_server_request is_server_notification handle_request
    handle_notification dispatch request_of respond get has
request_skipped = (tt, tt)

response_left :
    (handle_server_request can_send none
      (always 998)
      response
      (driver_after can_send none always "r" max_iterations (roots_request ∷ []) idle)).1
    ≡ left
unfolding handle_server_request is_server_request is_server_notification handle_request
    handle_notification dispatch request_of respond get has
response_left = refl

await_response-answer_of_example :
    (await_response can_send none always "r" max_iterations
      (message roots_request ∷ message response ∷ [])
      idle).1
    ≡ answer_of can_send none response
unfolding get
await_response-answer_of_example =
    await_response-answer_of can_send none always "r" max_iterations 998 (roots_request ∷ [])
      response [] idle refl request_skipped refl response_left
