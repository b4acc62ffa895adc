-- ===== src/Executor/StateConsistency/Changes.antt =====
-- Which pairs of states are consistent.
use mcp_server_fuzzer.Prelude.{
  String, ◌≡◌, ◌↔◌, ◌⊎◌, Bool, true, List, [], ◌∷◌, Option, some, arith, All, ok,
}
use mcp_server_fuzzer.Executor.StateConsistency.{
  State, find, has_key, is_expected, check_missing, check_added, check_changed,
  check_state_consistency,
}

module _ {V : Type 0} (same : V → V → Bool) where
  -- The key is still there, with an equal value unless its change is expected.
  abbrev pub IsKept : State same → Option (List String) → String × V → Type 0
  IsKept after expected e =
      (w : V) × (find same after e.0 ≡ some w)
      × ((same e.1 w ≡ true) ⊎ (is_expected expected e.0 ≡ true))

  -- The key is an old one, or it is expected.
  abbrev pub IsAllowed : State same → Option (List String) → String × V → Type 0
  IsAllowed before expected e = (has_key same before e.0 ≡ true) ⊎ (is_expected expected e.0 ≡ true)

  check_missing-eq-ok_iff :
      (after rest : State same)
      → (check_missing same after rest ≡ ok tt) ↔ All (λ e. has_key same after e.0 ≡ true) rest
  unfolding check_missing
  check_missing-eq-ok_iff after [] = ground arith
  check_missing-eq-ok_iff after ((k, v) ∷ rest) = ground (arith, check_missing-eq-ok_iff after rest)

  check_added-eq-ok_iff :
      (before : State same) (expected : Option (List String)) (rest : State same)
      → (check_added same before expected rest ≡ ok tt) ↔ All (IsAllowed before expected) rest
  unfolding check_added
  check_added-eq-ok_iff before expected [] = ground arith
  check_added-eq-ok_iff before expected ((k, v) ∷ rest) =
      ground (arith, check_added-eq-ok_iff before expected rest)

  check_both-eq-ok_iff :
      (after : State same) (expected : Option (List String)) (rest : State same)
      → ((check_missing same after rest ≡ ok tt) × (check_changed same after expected rest ≡ ok tt))
        ↔ All (IsKept after expected) rest
  unfolding check_missing check_changed
  check_both-eq-ok_iff after expected [] = ground arith
  check_both-eq-ok_iff after expected ((k, v) ∷ rest) =
      ground (arith, check_both-eq-ok_iff after expected rest)

  -- Two states are consistent exactly if every old key is still there, with an equal value unless
  -- its change is expected, and every key of the new state is an old one or expected.
  pub check_state_consistency-eq-ok_iff :
      (before after : State same) (expected : Option (List String))
      → (check_state_consistency same before after expected ≡ ok true)
        ↔ (All (IsKept after expected) before × All (IsAllowed before expected) after)
  unfolding check_state_consistency
  check_state_consistency-eq-ok_iff before after expected = ground (
    arith,
    check_both-eq-ok_iff after expected before,
    check_added-eq-ok_iff before expected after,
  )
