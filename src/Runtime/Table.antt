-- ===== src/Runtime/Table.antt =====
-- Python's `dict` with process ids as keys, in the order of insertion.
use mcp_server_fuzzer.Prelude.{
  ℕ, ◌≡◌, refl, Bool, false, ◌||◌, List, [], ◌∷◌, ◌++◌, Option, none, some, arith, nat_beq,
  if◌then◌else◌,
}

module _ {ℓ} {V : Type ℓ} where
  unfoldable pub lookup : ℕ → List (ℕ × V) → Option V
  lookup k [] = none
  lookup k ((j, v) ∷ t) = if nat_beq j k then some v else lookup k t

  -- t[k] = v
  unfoldable pub insert : ℕ → V → List (ℕ × V) → List (ℕ × V)
  insert k v [] = (k, v) ∷ []
  insert k v ((j, w) ∷ t) = if nat_beq j k then (k, v) ∷ t else (j, w) ∷ insert k v t

  -- t.pop(k, None)
  unfoldable pub without : ℕ → List (ℕ × V) → List (ℕ × V)
  without k [] = []
  without k ((j, v) ∷ t) = let rest = without k t in if nat_beq j k then rest else (j, v) ∷ rest

  pub lookup-insert :
      (k j : ℕ) (v : V) (t : List (ℕ × V))
      → lookup j (insert k v t) ≡ (if nat_beq k j then some v else lookup j t)
  unfolding lookup insert
  lookup-insert k j v [] = refl
  lookup-insert k j v ((i, w) ∷ t) = ground (arith, lookup-insert k j v t)

  pub lookup-without :
      (k j : ℕ) (t : List (ℕ × V))
      → lookup j (without k t) ≡ (if nat_beq k j then none else lookup j t)
  unfolding lookup without
  lookup-without k j [] = ground arith
  lookup-without k j ((i, v) ∷ t) = ground (arith, lookup-without k j t)

pub ruleset table_laws = (lookup-insert, lookup-without)

-- k in ks
unfoldable pub member : ℕ → List ℕ → Bool
member k [] = false
member k (j ∷ js) = nat_beq j k || member k js

pub member-append : (k : ℕ) (xs ys : List ℕ) → member k (xs ++ ys) ≡ (member k xs || member k ys)
unfolding member
member-append k [] ys = refl
member-append k (x ∷ xs) ys = ground (arith, member-append k xs ys)
