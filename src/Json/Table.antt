-- ===== src/Json/Table.antt =====
-- Python's `dict` with texts as keys, in the order of insertion.
use mcp_server_fuzzer.Prelude.{
  String, ◌≡◌, refl, List, [], ◌∷◌, Option, none, some, arith, ◌==◌, eq_iff, if◌then◌else◌,
}

module _ {ℓ} {V : Type ℓ} where
  -- t.get(key)
  unfoldable pub lookup : String → List (String × V) → Option V
  lookup key [] = none
  lookup key ((k, v) ∷ rest) = if k == key then some v else lookup key rest

  -- t[key] = value
  unfoldable pub insert : String → V → List (String × V) → List (String × V)
  insert key value [] = (key, value) ∷ []
  insert key value ((k, v) ∷ rest) =
      if k == key then (k, value) ∷ rest else (k, v) ∷ insert key value rest

  pub lookup-insert :
      (key other : String) (value : V) (t : List (String × V))
      → lookup other (insert key value t) ≡ (if key == other then some value else lookup other t)
  unfolding lookup insert
  lookup-insert key other value [] = refl
  lookup-insert key other value ((k, v) ∷ rest) =
      ground
        (arith, lookup-insert key other value rest, eq_iff k key, eq_iff k other, eq_iff key other)
