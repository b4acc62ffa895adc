-- ===== src/Transport/Batches/Collation.antt =====
-- What the collated responses hold under each id.
use mcp_server_fuzzer.Prelude.{
  ◌≡◌, refl, ◌∙◌, inl, inr, Bool-cases, true, List, [], ◌∷◌, ◌++◌, Option, Option-cases, none, some,
  All, arith, if◌then◌else◌, ok,
}
use mcp_server_fuzzer.Json.{Value, Fields, get, is_null, is_hashable}
use mcp_server_fuzzer.Json.Keys.{Keys}
use mcp_server_fuzzer.Transport.Batches.{
  find_key, expect, response_for, set_response, set_if_expected, set_if_missing, match_responses,
  missing_response, fill_missing, collate_batch_responses,
}

abbrev pub or_try {ℓ} : {A : Type ℓ} → Option A → Option A → Option A
or_try none o = o
or_try (some a) o = some a

abbrev pub HashableId : Fields → Type 0
HashableId message = is_hashable (get message "id") ≡ true

module _ (keys : Keys) where
  -- The first id among the requests that is this key; a request without an id has none.
  abbrev pub requested : Value → List Fields → Option Value
  requested o [] = none
  requested o (request ∷ requests) =
      let rest = requested o requests in
      let id = get request "id" in
      if is_null id then rest else if keys.same id o then some id else rest

  -- The last response with this key.
  abbrev pub latest : Value → List Fields → Option Fields
  latest o [] = none
  latest o (response ∷ responses) =
      or_try (latest o responses) (if keys.same (get response "id") o then some response else none)

  abbrev pub or_missing : Option Fields → Value → Fields
  or_missing none id = missing_response keys id
  or_missing (some response) id = response

  -- The response under a key that was requested as `id`.
  abbrev pub expected : List Fields → Value → Option Value → Option Fields
  expected responses o none = none
  expected responses o (some id) = some (or_missing (latest o responses) id)

  same_left : (a b k : Value) → keys.same a b ≡ true → keys.same k a ≡ keys.same k b
  same_left a b k h = keys.same_comm k a ∙ (keys.same_trans a b k h ∙ keys.same_comm b k)

  find_key-same :
      (a b : Value) (ids : List Value)
      → keys.same a b ≡ true
      → find_key keys a ids ≡ find_key keys b ids
  unfolding find_key
  find_key-same a b [] h = refl
  find_key-same a b (k ∷ ids) h = ground (arith, find_key-same a b ids h, same_left a b k h)

  response_for-same :
      (a b : Value) (collated : List (Value × Fields))
      → keys.same a b ≡ true
      → response_for keys a collated ≡ response_for keys b collated
  unfolding response_for
  response_for-same a b [] h = refl
  response_for-same a b ((k, r) ∷ collated) h =
      ground (arith, response_for-same a b collated h, same_left a b k h)

  find_key-append :
      (o id : Value) (ids : List Value)
      → find_key keys o (ids ++ (id ∷ []))
        ≡ or_try (find_key keys o ids) (if keys.same id o then some id else none)
  unfolding find_key
  find_key-append o id [] = ground arith
  find_key-append o id (k ∷ ids) = ground (arith, find_key-append o id ids)

  response_for-set_response :
      (o id : Value) (response : Fields) (collated : List (Value × Fields))
      → response_for keys o (set_response keys id response collated)
        ≡ (if keys.same id o then some response else response_for keys o collated)
  unfolding response_for set_response
  response_for-set_response o id response [] = refl
  response_for-set_response o id response ((k, old) ∷ collated) = ground (
    arith,
    response_for-set_response o id response collated,
    keys.same_trans k id o,
    same_left id o k,
  )

  -- The keys that are expected are the ids of the requests.
  find_key-expect :
      (o : Value) (requests : List Fields) (ids : List Value)
      → All HashableId requests
      → (all_ids : List Value) × (expect keys requests ids ≡ ok all_ids)
        × (find_key keys o all_ids ≡ or_try (find_key keys o ids) (requested o requests))
  unfolding expect
  find_key-expect o [] ids h = (ids, refl, ground arith)
  find_key-expect o (request ∷ requests) ids (here, later) =
      let id = get request "id" in
      elim (Bool-cases (is_null id)) [
        | inl absent ↦
            let (all_ids, done, found) = find_key-expect o requests ids later in
            (all_ids, ground (arith, absent, done), ground (arith, absent, found))
        | inr present ↦ elim (Option-cases (find_key keys id ids)) [
          | inl new ↦
              let (all_ids, done, found) = find_key-expect o requests (ids ++ (id ∷ [])) later in
              (
                all_ids,
                ground (arith, present, here, new, done),
                ground (arith, present, found, find_key-append o id ids),
              )
          | inr (k, old) ↦
              let (all_ids, done, found) = find_key-expect o requests ids later in
              (
                all_ids,
                ground (arith, present, here, old, done),
                ground (arith, present, old, found, find_key-same id o ids),
              )
        ]
      ]

  response_for-match_responses :
      (o : Value) (ids : List Value) (responses : List Fields) (collated : List (Value × Fields))
      → All HashableId responses
      → (matched : List (Value × Fields)) × (match_responses keys ids responses collated
          ≡ ok matched)
        × (response_for keys o matched ≡ elim (find_key keys o ids) [
          | none ↦ response_for keys o collated
          | some k ↦ or_try (latest o responses) (response_for keys o collated)
        ])
  unfolding match_responses
  response_for-match_responses o ids [] collated h = (collated, refl, ground arith)
  response_for-match_responses o ids (response ∷ responses) collated (here, later) =
      let id = get response "id" in
      let next = set_if_expected keys (find_key keys id ids) response collated in
      let (matched, done, found) = response_for-match_responses o ids responses next later in
      (
        matched,
        ground (arith, here, done),
        ground (
          arith,
          found,
          find_key-same id o ids,
          response_for-set_response o id response collated,
        ),
      )

  response_for-fill_missing :
      (o : Value) (ids : List Value) (collated : List (Value × Fields))
      → response_for keys o (fill_missing keys ids collated)
        ≡ or_try
            (response_for keys o collated)
            (elim (find_key keys o ids) [ none ↦ none | some k ↦ some (missing_response keys k) ])
  unfolding fill_missing find_key
  response_for-fill_missing o [] collated = ground arith
  response_for-fill_missing o (id ∷ ids) collated = ground (
    arith,
    response_for-fill_missing o ids
        (set_if_missing keys id (response_for keys id collated) collated),
    response_for-set_response o id (missing_response keys id) collated,
    response_for-same id o collated,
  )

  -- If all ids can be hashed, the responses are collated, and the result holds under a key: nothing, if
  -- no request has an id that is this key; and else the last response with this key, or the error
  -- that it is missing, with the first such id.
  pub collate_batch_responses-expected :
      (o : Value) (requests responses : List Fields)
      → All HashableId requests
      → All HashableId responses
      → (collated : List (Value × Fields)) × (collate_batch_responses keys requests responses
          ≡ ok collated)
        × (response_for keys o collated ≡ expected responses o (requested o requests))
  unfolding collate_batch_responses response_for find_key
  collate_batch_responses-expected o requests responses asked answered =
      let (ids, known, keyed) = find_key-expect o requests [] asked in
      let (matched, done, found) = response_for-match_responses o ids responses [] answered in
      (
        fill_missing keys ids matched,
        ground (arith, known, done),
        ground (arith, keyed, found, response_for-fill_missing o ids matched),
      )
