-- ===== src/Transport/Batches/Sending.antt =====
-- Sending a batch and collating its responses: every request gets its own response.
use mcp_server_fuzzer.Prelude.{
  String, ◌≡◌, refl, ◌∙◌, inl, inr, Bool-cases, true, false, List, [], ◌∷◌, ◌++◌, Option,
  Option-cases, none, some, both, All, All-append, arith, if◌then◌else◌, Result, ok, err,
}
use mcp_server_fuzzer.Json.{Value, Fields, null, get, has, is_null}
use mcp_server_fuzzer.Json.Laws.{get-put}
use mcp_server_fuzzer.Json.Keys.{Keys}
use mcp_server_fuzzer.Transport.Batches.{
  normalized, with_request_id, is_notification, response_of, response_to, send_batch_request,
  response_for, collate_batch_responses,
}
use mcp_server_fuzzer.Transport.Batches.Collation.{
  or_try, HashableId, requested, latest, collate_batch_responses-expected,
}

module _ (keys : Keys) where
  latest-append :
      (o : Value) (xs ys : List Fields)
      → latest keys o (xs ++ ys) ≡ or_try (latest keys o ys) (latest keys o xs)
  latest-append o [] ys = ground arith
  latest-append o (x ∷ xs) ys = ground (arith, latest-append o xs ys)

  -- A response, if it has an id, has that of the request.
  abbrev pub Echoes : Fields → Result String Value → Type 0
  Echoes request (err message) = Unit
  Echoes request (ok response) =
      has (normalized response) "id" ≡ true
      → keys.same (get (normalized response) "id") (get request "id") ≡ true

  id-response_of :
      (request : Fields) (answer : Result String Value)
      → Echoes request answer
      → keys.same (get (response_of request answer) "id") (get request "id") ≡ true
  unfolding response_of with_request_id get
  id-response_of request (err message) echo = keys.same_refl (get request "id")
  id-response_of request (ok response) echo = elim (Bool-cases (has (normalized response) "id")) [
    | inl there ↦ ground (arith, there, echo)
    | inr missing ↦ rw missing (
        rw (get-put (normalized response) "id" "id" (get request "id"))
          (keys.same_refl (get request "id")))
  ]

  same-null : (v o : Value) → is_null v ≡ true → is_null o ≡ false → keys.same v o ≡ false
  same-null null o absent real = keys.same_null o real
  same-null _ o absent real = ground arith

  -- What the answer to a request gives for a key.
  abbrev pub answer_for : Value → Fields → Result String Value → Option Fields
  answer_for o request answer =
      if is_notification request
      then none
      else (if keys.same (get request "id") o then some (response_of request answer) else none)

  latest-response_to :
      (o : Value) (request : Fields) (answer : Result String Value)
      → is_null o ≡ false
      → Echoes request answer
      → latest keys o (response_to request answer) ≡ answer_for o request answer
  unfolding response_to
  latest-response_to o request (err message) real echo = ground (
    arith,
    keys.same_trans (get (response_of request (err message)) "id") (get request "id") o
        (id-response_of request (err message) echo),
    same-null (get request "id") o,
  )
  latest-response_to o request (ok response) real echo = ground (
    arith,
    keys.same_trans (get (response_of request (ok response)) "id") (get request "id") o
        (id-response_of request (ok response) echo),
  )

  response_to-HashableId :
      (request : Fields) (answer : Result String Value)
      → HashableId request
      → Echoes request answer
      → All HashableId (response_to request answer)
  unfolding response_to
  response_to-HashableId request (err message) h echo = (
    keys.same_hashable (get (response_of request (err message)) "id") (get request "id")
          (id-response_of request (err message) echo)
        ∙ h,
    tt,
  )
  response_to-HashableId request (ok response) h echo =
      both (All HashableId) (is_notification request) _ _ (λ _. tt)
        (λ _. (
          keys.same_hashable (get (response_of request (ok response)) "id") (get request "id")
                (id-response_of request (ok response) echo)
              ∙ h,
          tt,
        ))

  module _ {State : Type 0} (send_raw : State → Fields → State × Result String Value) where
    -- The answer to the last request with a key, sent in the state that the requests before it leave.
    abbrev pub own_response : Value → List Fields → State → Option Fields
    own_response o [] state = none
    own_response o (request ∷ batch) state =
        or_try (own_response o batch (send_raw state request).0)
          (answer_for o request (send_raw state request).1)

    abbrev pub EchoesAll : Type 0
    EchoesAll = (state : State) (request : Fields) → Echoes request (send_raw state request).1

    latest-send_batch_request :
        (o : Value) (batch : List Fields) (state : State)
        → is_null o ≡ false
        → EchoesAll
        → latest keys o (send_batch_request send_raw batch state).1 ≡ own_response o batch state
    unfolding send_batch_request
    latest-send_batch_request o [] state real echo = refl
    latest-send_batch_request o (request ∷ batch) state real echo =
        let (after, answer) = send_raw state request in
        latest-append o (response_to request answer) (send_batch_request send_raw batch after).1
        ∙ rw
            (
              latest-send_batch_request o batch after real echo,
              latest-response_to o request answer real (echo state request),
            )
            refl

    send_batch_request-HashableId :
        (batch : List Fields) (state : State)
        → All HashableId batch
        → EchoesAll
        → All HashableId (send_batch_request send_raw batch state).1
    unfolding send_batch_request
    send_batch_request-HashableId [] state h echo = tt
    send_batch_request-HashableId (request ∷ batch) state (here, later) echo =
        let (after, answer) = send_raw state request in
        All-append HashableId (response_to request answer)
          (send_batch_request send_raw batch after).1
          (response_to-HashableId request answer here (echo state request))
          (send_batch_request-HashableId batch after later echo)

    own_response-requested :
        (o : Value) (batch : List Fields) (state : State) (id : Value)
        → requested keys o batch ≡ some id
        → (response : Fields) × (own_response o batch state ≡ some response)
    own_response-requested o [] state id e = ground (arith, e)
    own_response-requested o (request ∷ batch) state id e =
        let (after, answer) = send_raw state request in
        elim (Option-cases (own_response o batch after)) [
          | inr (response, later) ↦ (response, ground (arith, later))
          | inl nothing ↦ elim (Option-cases (requested keys o batch)) [
            | inl unasked ↦ (response_of request answer, ground (arith, e, nothing, unasked))
            | inr (k, asked) ↦
                let (response, later) = own_response-requested o batch after k asked in
                (response, ground (arith, nothing, later))
          ]
        ]

    -- If all ids of a batch can be hashed, and the transport answers each request with a response that has
    -- the request's id or none, then sending the batch and collating the responses gives a result that
    -- holds, under each key that is the id of a request, the answer to the last such request.
    pub collate-send_batch_request :
        (o : Value) (batch : List Fields) (state : State) (id : Value)
        → All HashableId batch
        → EchoesAll
        → is_null o ≡ false
        → requested keys o batch ≡ some id
        → (collated : List (Value × Fields)) × (response : Fields) × (collate_batch_responses keys
              batch
              (send_batch_request send_raw batch state).1
            ≡ ok collated)
          × (own_response o batch state ≡ some response)
          × (response_for keys o collated ≡ some response)
    collate-send_batch_request o batch state id h echo real asked =
        let responses = (send_batch_request send_raw batch state).1 in
        let (collated, done, found) =
          collate_batch_responses-expected keys o batch responses h
            (send_batch_request-HashableId batch state h echo) in
        let (response, own) = own_response-requested o batch state id asked in
        (
          collated,
          response,
          done,
          own,
          ground (arith, found, asked, own, latest-send_batch_request o batch state real echo),
        )
