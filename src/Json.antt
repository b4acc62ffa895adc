-- ===== src/Json.antt =====
-- Decoded JSON as the program sees it in Python: the values that `json.loads` makes, and the tests
-- that the program applies to them (`isinstance`, truthiness, `in`, `dict.get`).
pub mod Laws
pub mod Table
pub mod Keys
pub mod Kinds
use mcp_server_fuzzer.Prelude.{
  ℕ, zero, suc, String, Bool, true, false, not, ◌&&◌, ◌||◌, List, [], ◌∷◌, Option, none, some, ◌==◌,
  nat_beq, if◌then◌else◌, any, Result, ok, err,
}

-- `negsuc n` is -(n + 1).
pub data ℤ : Type 0 where
  pos : ℕ → ℤ
  negsuc : ℕ → ℤ

abbrev pub int_beq : ℤ → ℤ → Bool
int_beq (pos a) (pos b) = nat_beq a b
int_beq (negsuc a) (negsuc b) = nat_beq a b
int_beq _ _ = false

-- A finite float is a mantissa times a power of two; `json.loads` also reads NaN and Infinity,
-- which are not told apart.
pub data Float : Type 0 where
  finite : (mantissa exponent : ℤ) → Float
  nonfinite : Float

-- A dict keeps its entries in the order of insertion.
mutual
  pub data Value : Type 0 where
    null : Value
    bool : Bool → Value
    int : ℤ → Value
    float : Float → Value
    str : String → Value
    arr : Items → Value
    obj : Fields → Value

  pub data Fields : Type 0 where
    end : Fields
    field : String → Value → Fields → Fields

  pub data Items : Type 0 where
    nil : Items
    cons : Value → Items → Items

abbrev pub elems : Items → List Value
elems nil = []
elems (cons v vs) = v ∷ elems vs

abbrev pub items_of : List Value → Items
items_of [] = nil
items_of (v ∷ vs) = cons v (items_of vs)

abbrev pub entries : Fields → List (String × Value)
entries end = []
entries (field k v d) = (k, v) ∷ entries d

-- key in d
unfoldable pub has : Fields → String → Bool
has end key = false
has (field k v d) key = k == key || has d key

-- d.get(key): `None` where the key is missing
unfoldable pub get : Fields → String → Value
get end key = null
get (field k v d) key = if k == key then v else get d key

-- d[key] = value: an old key keeps its place
unfoldable pub put : Fields → String → Value → Fields
put end key value = field key value end
put (field k v d) key value = if k == key then field k value d else field k v (put d key value)

abbrev pub is_null : Value → Bool
is_null null = true
is_null _ = false

abbrev pub is_dict : Value → Bool
is_dict (obj d) = true
is_dict _ = false

abbrev pub is_list : Value → Bool
is_list (arr xs) = true
is_list _ = false

abbrev pub is_str : Value → Bool
is_str (str s) = true
is_str _ = false

abbrev pub is_bool : Value → Bool
is_bool (bool b) = true
is_bool _ = false

-- isinstance(v, int): a bool is an int in Python
abbrev pub is_int : Value → Bool
is_int (int n) = true
is_int (bool b) = true
is_int _ = false

abbrev pub is_float : Value → Bool
is_float (float x) = true
is_float _ = false

-- bool(v)
abbrev pub truthy : Value → Bool
truthy null = false
truthy (bool b) = b
truthy (int (pos zero)) = false
truthy (int n) = true
truthy (float (finite (pos zero) e)) = false
truthy (float x) = true
truthy (str s) = not (s == "")
truthy (arr nil) = false
truthy (arr (cons v vs)) = true
truthy (obj end) = false
truthy (obj (field k v d)) = true

-- isinstance(v, str) and v
abbrev pub is_text : Value → Bool
is_text v = is_str v && truthy v

-- v == s, for a text s
abbrev pub equals_text : Value → String → Bool
equals_text (str t) s = t == s
equals_text _ s = false

-- The exception of Python's own operations that the modelled code can meet.
pub data PyError : Type 0 where
  type_error : PyError

-- hash(v) raises TypeError for a list or a dict.
abbrev pub is_hashable : Value → Bool
is_hashable (arr xs) = false
is_hashable (obj d) = false
is_hashable _ = true

-- v in {s, ...}, for a set of texts
abbrev pub in_set : Value → List String → Result PyError Bool
in_set v texts = if is_hashable v then ok (any (equals_text v) texts) else err type_error
