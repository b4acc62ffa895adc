-- ===== src/Executor/Invariants/Batch.antt =====
-- The checks of a batch: every response has its own entry, in order.
use mathlib.Core.Path.{ap₂}
use mcp_server_fuzzer.Prelude.{
  ℕ, zero, suc, ◌+◌, ◌≡◌, refl, ap, ◌∙◌, List, [], ◌∷◌, Option, some, arith, length, get_elem?,
}
use mcp_server_fuzzer.Json.{ℤ, Value, Items, arr, elems}
use mcp_server_fuzzer.Executor.Invariants.{
  Validator, entry_of, verify_response_invariants, verify_from, verify_batch_responses,
}

module _ (validator : Option Validator) (expected : Option (List ℤ)) (schema : Option Value) where
  verify_from-get_elem? :
      (start i : ℕ) (vs : List Value) (v : Value)
      → get_elem? vs i ≡ some v
      → get_elem? (verify_from validator expected schema start vs) i
        ≡ some (start + i, entry_of (verify_response_invariants validator v expected schema))
  unfolding verify_from
  verify_from-get_elem? start i [] v h = cc
  verify_from-get_elem? start zero (w ∷ vs) v h =
      let same : w ≡ v = cc in
      ap₂
        (λ (n : ℕ) (u : Value).
          some (n, entry_of (verify_response_invariants validator u expected schema)))
        (omega arith) same
  verify_from-get_elem? start (suc i) (w ∷ vs) v h =
      verify_from-get_elem? (suc start) i vs v h
      ∙ ap (λ (n : ℕ). some (n, entry_of (verify_response_invariants validator v expected schema)))
          (omega arith)

  length-verify_from :
      (start : ℕ) (vs : List Value)
      → length (verify_from validator expected schema start vs) ≡ length vs
  unfolding verify_from
  length-verify_from start [] = refl
  length-verify_from start (v ∷ vs) = omega (arith, length-verify_from (suc start) vs)

  -- A batch has an entry for each response, and the entry of a response is the outcome of its own
  -- checks.
  pub verify_batch_responses-get_elem? :
      (vs : Items) (i : ℕ) (v : Value)
      → get_elem? (elems vs) i ≡ some v
      → (length (verify_batch_responses validator (arr vs) expected schema) ≡ length (elems vs))
        × (get_elem? (verify_batch_responses validator (arr vs) expected schema) i
            ≡ some (i, entry_of (verify_response_invariants validator v expected schema)))
  unfolding verify_batch_responses
  verify_batch_responses-get_elem? vs i v h = (
    length-verify_from 0 (elems vs),
    verify_from-get_elem? 0 i (elems vs) v h
        ∙ ap
            (λ (n : ℕ). some (n, entry_of (verify_response_invariants validator v expected schema)))
            (omega arith),
  )
