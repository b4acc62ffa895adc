-- ===== src/Json/Kinds.antt =====
-- Keys for tests: values are the same key if they have the same kind, and texts if they are equal.
use text.Mathlib.TextPositions.{eq_refl}
use mcp_server_fuzzer.Prelude.{
  ℕ, String, ◌≡◌, refl, Bool, true, false, not, ◌&&◌, arith, ◌==◌, eq_iff, nat_beq,
}
use mcp_server_fuzzer.Json.{Value, null, str, arr, obj, is_null, is_hashable}
use mcp_server_fuzzer.Json.Keys.{Keys}

-- Values by their kind, texts by themselves.
abbrev pub kind : Value → ℕ
kind null = 0
kind (str s) = 1
kind (arr items) = 2
kind (obj d) = 2
kind _ = 3

abbrev pub text_in : Value → String
text_in (str s) = s
text_in _ = ""

abbrev pub same_kind : Value → Value → Bool
same_kind v w = nat_beq (kind v) (kind w) && text_in v == text_in w

pub null_kind : (v : Value) → is_null v ≡ false → same_kind null v ≡ false
null_kind null h = ground arith
null_kind _ h = refl

pub kind_hashable : (v : Value) → is_hashable v ≡ not (nat_beq (kind v) 2)
kind_hashable null = refl
kind_hashable _ = refl

pub kind_refl : (v : Value) → same_kind v v ≡ true
kind_refl v = ground (arith, eq_refl (text_in v))

pub kind_comm : (v w : Value) → same_kind v w ≡ same_kind w v
kind_comm v w = ground (arith, eq_iff (text_in v) (text_in w), eq_iff (text_in w) (text_in v))

pub kind_trans : (u v w : Value) → same_kind u v ≡ true → same_kind u w ≡ same_kind v w
kind_trans u v w h = ground (
  arith,
  h,
  eq_iff (text_in u) (text_in v),
  eq_iff (text_in u) (text_in w),
  eq_iff (text_in v) (text_in w),
)

pub kind_decides : (v w : Value) → same_kind v w ≡ true → is_hashable v ≡ is_hashable w
kind_decides v w h = ground (arith, h, kind_hashable v, kind_hashable w)

abbrev pub keys : Keys
keys = record {
  same = same_kind;
  same_refl = kind_refl;
  same_comm = kind_comm;
  same_trans = kind_trans;
  same_null = null_kind;
  same_hashable = kind_decides;
}
