-- ===== src/Executor/StateConsistency.antt =====
-- mcp_fuzzer/fuzz_engine/executor/invariants.py: `check_state_consistency`. The values of a state are
-- any objects, compared by their own `==`.
pub mod Changes
use mcp_server_fuzzer.Prelude.{
  String, Bool, true, false, not, ◌&&◌, List, [], ◌∷◌, Option, none, some, any, ◌==◌, if◌then◌else◌,
  Result, ok, err, ◌>>=◌, ◌>>◌, raise_if,
}

pub data StateViolation : Type 0 where
  key_missing : String → StateViolation
  unexpected_key : String → StateViolation
  unexpected_change : String → StateViolation

-- expected_changes and key in expected_changes
abbrev pub is_expected : Option (List String) → String → Bool
is_expected none key = false
is_expected (some keys) key = any (λ k. k == key) keys

module _ {V : Type 0} (same : V → V → Bool) where
  -- A dict with texts as keys.
  abbrev pub State : Type 0
  State = List (String × V)

  unfoldable pub find : State → String → Option V
  find [] key = none
  find ((k, v) ∷ rest) key = if k == key then some v else find rest key

  -- key in state
  abbrev pub has_key : State → String → Bool
  has_key state key = elim (find state key) [ none ↦ false | some v ↦ true ]

  -- Whether the value of a key that is in both states differs.
  abbrev pub changed : V → Option V → Bool
  changed before none = false
  changed before (some after) = not (same before after)

  check_missing : State → State → Result StateViolation (Unit {0})
  check_missing after [] = ok tt
  check_missing after ((k, v) ∷ rest) = do
    raise_if (not (has_key after k)) (key_missing k)
    check_missing after rest

  check_added : State → Option (List String) → State → Result StateViolation (Unit {0})
  check_added before expected [] = ok tt
  check_added before expected ((k, v) ∷ rest) = do
    raise_if (not (has_key before k) && not (is_expected expected k)) (unexpected_key k)
    check_added before expected rest

  check_changed : State → Option (List String) → State → Result StateViolation (Unit {0})
  check_changed after expected [] = ok tt
  check_changed after expected ((k, v) ∷ rest) = do
    raise_if (changed v (find after k) && not (is_expected expected k)) (unexpected_change k)
    check_changed after expected rest

  pub check_state_consistency : State → State → Option (List String) → Result StateViolation Bool
  unfolding check_missing check_added check_changed
  check_state_consistency before after expected = do
    check_missing after before
    check_added before expected after
    check_changed after expected before
    ok true
