-- ===== src/Transport/Batches.antt =====
-- mcp_fuzzer/transport/interfaces/rpc_adapter.py: sending a batch of requests, and collating the
-- responses to it.
pub mod Collation
pub mod Sending
mod Tests
use mcp_server_fuzzer.Prelude.{
  String, ◌≡◌, ◌≢◌, refl, Bool, true, false, not, ◌&&◌, ◌||◌, List, [], ◌∷◌, ◌++◌, Option, none,
  some, any, ◌==◌, if◌then◌else◌, Result, ok, err, ◌>>=◌,
}
use mcp_server_fuzzer.Json.Keys.{Keys}
use mcp_server_fuzzer.Json.{
  negsuc, Value, Fields, end, field, null, int, str, obj, get, has, put, is_null, is_hashable,
  PyError, type_error,
}

-- {"error": str(e), "id": request.get("id")}
abbrev pub failed_response : String → Fields → Fields
failed_response message request = field "error" (str message) (field "id" (get request "id") end)

abbrev pub normalized : Value → Fields
normalized (obj response) = response
normalized v = field "result" v end

unfoldable pub with_request_id : Fields → Fields → Fields
with_request_id request response =
    if has response "id" then response else put response "id" (get request "id")

-- "id" not in request or request["id"] is None
abbrev pub is_notification : Fields → Bool
is_notification request = is_null (get request "id")

-- The response that stands for what `send_raw` gave.
unfoldable pub response_of : Fields → Result String Value → Fields
response_of request (err message) = failed_response message request
response_of request (ok response) = with_request_id request (normalized response)

-- What goes into the list of responses.
unfoldable pub response_to : Fields → Result String Value → List Fields
response_to request (err message) = response_of request (err message) ∷ []
response_to request (ok response) =
    if is_notification request then [] else response_of request (ok response) ∷ []

-- `send_raw` of the transport changes the transport's state, and may raise an exception with a text.
module _ {State : Type 0} (send_raw : State → Fields → State × Result String Value) where
  unfoldable pub send_batch_request : List Fields → State → State × List Fields
  send_batch_request [] state = (state, [])
  send_batch_request (request ∷ batch) state =
      let (after, answer) = send_raw state request in
      let (last, responses) = send_batch_request batch after in
      (last, response_to request answer ++ responses)

module _ (keys : Keys) where
  unfoldable pub find_key : Value → List Value → Option Value
  find_key id [] = none
  find_key id (k ∷ ids) = if keys.same k id then some k else find_key id ids

  -- expected_responses[id] = request: an old key stays.
  abbrev pub add_key : Value → Option Value → List Value → List Value
  add_key id none ids = ids ++ (id ∷ [])
  add_key id (some k) ids = ids

  -- The keys of `expected_responses`.
  unfoldable pub expect : List Fields → List Value → Result PyError (List Value)
  expect [] ids = ok ids
  expect (request ∷ requests) ids =
      let id = get request "id" in
      if is_null id
      then expect requests ids
      else if is_hashable id
      then expect requests (add_key id (find_key id ids) ids)
      else err type_error

  unfoldable pub response_for : Value → List (Value × Fields) → Option Fields
  response_for id [] = none
  response_for id ((k, response) ∷ collated) =
      if keys.same k id then some response else response_for id collated

  -- collated[id] = response
  unfoldable pub set_response : Value → Fields → List (Value × Fields) → List (Value × Fields)
  set_response id response [] = (id, response) ∷ []
  set_response id response ((k, old) ∷ collated) =
      if keys.same k id
      then (k, response) ∷ collated
      else (k, old) ∷ set_response id response collated

  abbrev pub set_if_expected : Option Value → Fields → List (Value × Fields) → List (Value × Fields)
  set_if_expected none response collated = collated
  set_if_expected (some k) response collated = set_response (get response "id") response collated

  -- The loop over the responses; `in` raises for an id that cannot be hashed.
  unfoldable pub match_responses :
      List Value → List Fields → List (Value × Fields) → Result PyError (List (Value × Fields))
  match_responses ids [] collated = ok collated
  match_responses ids (response ∷ responses) collated =
      if is_hashable (get response "id")
      then match_responses ids responses
          (set_if_expected (find_key (get response "id") ids) response collated)
      else err type_error

  abbrev pub missing_response : Value → Fields
  missing_response id =
      field "error"
        (obj (field "code" (int (negsuc 31999)) (field "message" (str "Response missing") end)))
        (field "id" id end)

  abbrev pub set_if_missing : Value → Option Fields → List (Value × Fields) → List (Value × Fields)
  set_if_missing id none collated = set_response id (missing_response id) collated
  set_if_missing id (some response) collated = collated

  unfoldable pub fill_missing : List Value → List (Value × Fields) → List (Value × Fields)
  fill_missing [] collated = collated
  fill_missing (id ∷ ids) collated =
      fill_missing ids (set_if_missing id (response_for id collated) collated)

  unfoldable pub collate_batch_responses :
      List Fields → List Fields → Result PyError (List (Value × Fields))
  collate_batch_responses requests responses = do
    ids ← expect requests []
    collated ← match_responses ids responses []
    ok (fill_missing ids collated)
