-- ===== src/Json/Keys.antt =====
-- Python values as the keys of a dict.
use mcp_server_fuzzer.Prelude.{◌≡◌, Bool, true, false}
use mcp_server_fuzzer.Json.{Value, null, is_null, is_hashable}

-- Which values are the same key of a dict: Python's == on values that can be hashed.
pub record Keys : Type 0 where
  pub same : Value → Value → Bool
  pub same_refl : (v : Value) → same v v ≡ true
  pub same_comm : (v w : Value) → same v w ≡ same w v
  pub same_trans : (u v w : Value) → same u v ≡ true → same u w ≡ same v w
  pub same_null : (v : Value) → is_null v ≡ false → same null v ≡ false
  pub same_hashable : (v w : Value) → same v w ≡ true → is_hashable v ≡ is_hashable w
