-- ===== src/Transport/Stdio/Correlation.antt =====
-- Which message `send_request` takes as the response, and when it returns one.
use mathlib.Core.Path.{subst}
use mcp_server_fuzzer.Prelude.{
  ℕ, zero, suc, ◌+◌, String, ◌≡◌, refl, ◌⊎◌, inl, inr, Bool, Bool-cases, false, List, [], ◌∷◌, ◌++◌,
  Option, some, map, arith, Any, length, ok, err,
}
use mcp_server_fuzzer.Json.{ℤ, Fields, str, obj, get, has, equals_text}
use mcp_server_fuzzer.Json.Laws.{equals_text_iff}
use mcp_server_fuzzer.Transport.ServerRequests.{is_server_request}
use mcp_server_fuzzer.Transport.ServerRequests.Handler.{Outside, Outcome, dispatch, handle_request}
use mcp_server_fuzzer.Transport.ServerRequests.Builders.{params_of}
use mcp_server_fuzzer.Transport.Stdio.{
  StdioError, Received, message, nothing, failed, Driver, result_in, Handled, handled, left, raised,
  after_request, handle_server_request, answer_of, await_response,
}

-- To split on what is done about a message.
Handled-cases : (a : Handled) → (a ≡ handled) ⊎ ((a ≡ left) ⊎ ((e : StdioError) × (a ≡ raised e)))
Handled-cases handled = inl refl
Handled-cases left = inr (inl refl)
Handled-cases (raised e) = inr (inr (e, refl))

-- A response to the request with this result.
abbrev pub IsResponse : String → Fields → Received → Type 0
IsResponse request_id r (message m) =
    (get m "id" ≡ str request_id)
    × (has m "error" ≡ false)
    × (is_server_request (obj m) ≡ false)
    × (r ≡ result_in m)
IsResponse request_id r _ = ⊥

module _ (can_send : List Fields → Fields → Bool) (crash : Option ℤ) (outside : ℕ → Outside)
    (request_id : String) where
  answered-left :
      (outcome : Outcome) (d : Driver)
      → (after_request can_send crash (some outcome) d).1 ≡ left
      → ⊥
  answered-left (h, err e) d kept = ground (arith, kept)
  answered-left (h, ok response) d kept = ground (arith, kept)

  answer_of-IsResponse :
      (m r : Fields)
      → get m "id" ≡ str request_id
      → is_server_request (obj m) ≡ false
      → answer_of can_send crash m ≡ ok r
      → IsResponse request_id r (message m)
  answer_of-IsResponse m r id response e = ground (arith, id, response, e)

  handle_server_request-left :
      (o : Outside) (m : Fields) (d : Driver)
      → (handle_server_request can_send crash o m d).1 ≡ left
      → is_server_request (obj m) ≡ false
  unfolding handle_server_request handle_request
  handle_server_request-left o m d e = elim (Bool-cases (is_server_request (obj m))) [
    | inr response ↦ response
    | inl asked ↦ ground (
      arith,
      e,
      asked,
      answered-left
          (dispatch o (get m "id") (params_of (get m "params")) (get m "method") d.handler) d,
    )
  ]

  -- If the wait for the response gives a result, some message that was received has the id of the request
  -- and no error, is no request of the server, and has this result.
  pub await_response-IsResponse :
      (rounds : ℕ) (received : List Received) (d : Driver) (r : Fields)
      → (await_response can_send crash outside request_id rounds received d).1 ≡ ok r
      → Any (IsResponse request_id r) received
  unfolding await_response
  await_response-IsResponse zero received d r e = ground arith
  await_response-IsResponse (suc rounds) [] d r e = ground arith
  await_response-IsResponse (suc rounds) (nothing ∷ received) d r e = ground arith
  await_response-IsResponse (suc rounds) (failed ∷ received) d r e = ground arith
  await_response-IsResponse (suc rounds) (message m ∷ received) d r e =
      let after = handle_server_request can_send crash (outside rounds) m d in
      elim (Handled-cases after.1) [
        | inl done ↦
            inr (await_response-IsResponse rounds received after.0 r (ground (arith, e, done)))
        | inr (inr (exception, stopped)) ↦ ground (arith, e, stopped)
        | inr (inl kept) ↦ elim (Bool-cases (equals_text (get m "id") request_id)) [
          | inr other ↦
              inr (
                await_response-IsResponse rounds received after.0 r
                  (ground (arith, e, kept, other)))
          | inl same ↦ inl (
              answer_of-IsResponse m r ((equals_text_iff (get m "id") request_id).0 same)
                (handle_server_request-left (outside rounds) m d kept)
                (ground (arith, e, kept, same)))
        ]
      ]

  -- The driver after the messages, and whether each of them is answered, noted or for another request.
  abbrev pub driver_after : ℕ → List Fields → Driver → Driver
  driver_after rounds [] d = d
  driver_after zero (m ∷ ms) d = d
  driver_after (suc rounds) (m ∷ ms) d =
      driver_after rounds ms (handle_server_request can_send crash (outside rounds) m d).0

  abbrev pub IsSkipped : Fields → Handled → Type 0
  IsSkipped m handled = Unit
  IsSkipped m left = equals_text (get m "id") request_id ≡ false
  IsSkipped m (raised e) = ⊥

  abbrev pub AllSkipped : ℕ → List Fields → Driver → Type 0
  AllSkipped rounds [] d = Unit
  AllSkipped zero (m ∷ ms) d = ⊥
  AllSkipped (suc rounds) (m ∷ ms) d =
      let after = handle_server_request can_send crash (outside rounds) m d in
      IsSkipped m after.1 × AllSkipped rounds ms after.0

  -- If each of the messages before the response is skipped, so that some rounds are left, and the response
  -- has the id of the request and is left by the handler, the wait ends with the response's result or
  -- error, whatever comes after.
  pub await_response-answer_of :
      (total rounds : ℕ) (before : List Fields) (m : Fields) (rest : List Received) (d : Driver)
      → total ≡ length before + suc rounds
      → AllSkipped total before d
      → get m "id" ≡ str request_id
      → (handle_server_request can_send crash (outside rounds) m (driver_after total before d)).1
        ≡ left
      → (await_response can_send crash outside request_id total
          (map message before ++ (message m ∷ rest))
          d).1
        ≡ answer_of can_send crash m
  unfolding await_response
  await_response-answer_of zero rounds [] m rest d enough skipped id kept = ground (arith, enough)
  await_response-answer_of zero rounds (n ∷ before) m rest d enough skipped id kept = absurd skipped
  await_response-answer_of (suc total) rounds [] m rest d enough skipped id kept =
      let same : rounds ≡ total = omega (arith, enough) in
      let here =
        subst (λ k. (handle_server_request can_send crash (outside k) m d).1 ≡ left) same kept in
      ground (arith, here, (equals_text_iff (get m "id") request_id).1 id)
  await_response-answer_of (suc total) rounds (n ∷ before) m rest d enough (here, later) id kept =
      let after = handle_server_request can_send crash (outside total) n d in
      let next =
        await_response-answer_of total rounds before m rest after.0 (omega (arith, enough)) later id
          kept in
      elim (Handled-cases after.1) [
        | inl done ↦ ground (arith, done, next)
        | inr (inr (e, stopped)) ↦ absurd (subst (IsSkipped n) stopped here)
        | inr (inl other) ↦
            let elsewhere = subst (IsSkipped n) other here in ground (arith, other, elsewhere, next)
      ]
