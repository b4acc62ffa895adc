-- ===== src/Transport/Batches/Tests.antt =====
-- A batch of two requests to a server that echoes the ids.
use mcp_server_fuzzer.Prelude.{ℕ, suc, String, ◌≡◌, refl, List, [], ◌∷◌, some, arith, Result, ok}
use mcp_server_fuzzer.Json.{pos, Value, Fields, int, str, field, end, get, has}
use mcp_server_fuzzer.Json.Kinds.{keys}
use mcp_server_fuzzer.Transport.Batches.{send_batch_request, collate_batch_responses, response_for}
use mcp_server_fuzzer.Transport.Batches.Collation.{
  requested, expected, collate_batch_responses-expected,
}
use mcp_server_fuzzer.Transport.Batches.Sending.{
  own_response, EchoesAll, collate-send_batch_request,
}

abbrev asked : String → Fields
asked id = field "id" (str id) (field "method" (str "ping") end)

abbrev batch : List Fields
batch = asked "a" ∷ asked "b" ∷ []

-- A server that counts its calls and answers without an id.
abbrev count_calls : ℕ → Fields → ℕ × Result String Value
count_calls n request = (suc n, ok (int (pos n)))

echoes : EchoesAll keys count_calls
unfolding has
echoes state request h = ground (arith, h)

collate-send_batch_request_example :
    (collated : List (Value × Fields)) × (response : Fields) × (collate_batch_responses keys batch
        (send_batch_request count_calls batch 5).1
      ≡ ok collated)
    × (own_response keys count_calls (str "b") batch 5 ≡ some response)
    × (response_for keys (str "b") collated ≡ some response)
unfolding get
collate-send_batch_request_example =
    collate-send_batch_request keys count_calls (str "b") batch 5 (str "b") (refl, (refl, tt))
      echoes refl refl

collate_batch_responses-expected_example :
    (collated : List (Value × Fields)) × (collate_batch_responses keys batch (asked "b" ∷ [])
      ≡ ok collated)
    × (response_for keys (str "a") collated
        ≡ expected keys (asked "b" ∷ []) (str "a") (requested keys (str "a") batch))
unfolding get
collate_batch_responses-expected_example =
    collate_batch_responses-expected keys (str "a") batch (asked "b" ∷ []) (refl, (refl, tt))
      (refl, tt)
