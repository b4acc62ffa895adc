-- ===== src/SpecGuard/Shape.antt =====
-- Shapes of JSON values, stated without the checks, and when the checks' shared loops find nothing.
use mcp_server_fuzzer.Prelude.{
  ℕ, String, ◌≡◌, ◌≢◌, refl, ◌↔◌, Bool, true, false, not, ◌&&◌, List, [], ◌∷◌, arith, All, Any,
  extend_from-eq-nil_iff, eq_iff, any, ◌==◌, ok, err,
}
use mcp_server_fuzzer.Json.{
  Value, null, bool, int, float, str, arr, obj, nil, cons, Fields, elems, get, has, truthy, is_null,
  is_text, is_str, is_dict, equals_text, type_error, in_set,
}
use mcp_server_fuzzer.SpecGuard.{SpecCheck, when, check_items}

-- An array whose items all satisfy `P`.
abbrev pub ArrayOf : (Value → Type 0) → Value → Type 0
ArrayOf P (arr xs) = All P (elems xs)
ArrayOf P _ = ⊥

-- An array with an item that satisfies `P`.
abbrev pub ArraySome : (Value → Type 0) → Value → Type 0
ArraySome P (arr xs) = Any P (elems xs)
ArraySome P _ = ⊥

-- An object whose members satisfy `P`.
abbrev pub ObjectWith : (Fields → Type 0) → Value → Type 0
ObjectWith P (obj d) = P d
ObjectWith P _ = ⊥

-- Whatever is no object passes: the checks skip it.
abbrev pub IfObject : (Fields → Type 0) → Value → Type 0
IfObject P (obj d) = P d
IfObject P _ = Unit

-- The member is there, and neither null, false, zero nor empty.
abbrev pub IsPresent : String → Fields → Type 0
IsPresent key d = truthy (get d key) ≡ true

-- An array with at least one item, whose items all satisfy `P`.
abbrev pub NonEmptyArrayOf : (Value → Type 0) → Value → Type 0
NonEmptyArrayOf P (arr nil) = ⊥
NonEmptyArrayOf P (arr (cons v vs)) = All P (v ∷ elems vs)
NonEmptyArrayOf P _ = ⊥

abbrev pub IsText : Value → Type 0
IsText (str s) = s ≢ ""
IsText _ = ⊥

abbrev pub IsString : Value → Type 0
IsString (str s) = Unit
IsString _ = ⊥

abbrev pub IsObject : Value → Type 0
IsObject (obj d) = Unit
IsObject _ = ⊥

abbrev pub IsArray : Value → Type 0
IsArray (arr xs) = Unit
IsArray _ = ⊥

abbrev pub IsBoolean : Value → Type 0
IsBoolean (bool b) = Unit
IsBoolean _ = ⊥

-- A JSON integer; booleans, which Python counts as integers, are none.
abbrev pub IsInteger : Value → Type 0
IsInteger (int n) = Unit
IsInteger _ = ⊥

abbrev pub IsNumber : Value → Type 0
IsNumber (int n) = Unit
IsNumber (float x) = Unit
IsNumber _ = ⊥

-- A progress token or a request id.
abbrev pub IsToken : Value → Type 0
IsToken (str s) = Unit
IsToken (int n) = Unit
IsToken _ = ⊥

-- Absent, null or as `P` says.
abbrev pub NullOr : (Value → Type 0) → Value → Type 0
NullOr P null = Unit
NullOr P v = P v

-- A member that may be left out, and is as `P` says where the key is there.
abbrev pub IfMember : String → (Value → Type 0) → Fields → Type 0
IfMember key P d = has d key ≡ true → P (get d key)

pub is_text_iff : (v : Value) → (is_text v ≡ true) ↔ IsText v
is_text_iff (str s) = ground (arith, eq_iff s "")
is_text_iff _ = ground arith

pub is_str_iff : (v : Value) → (is_str v ≡ true) ↔ IsString v
is_str_iff (str s) = ground arith
is_str_iff _ = ground arith

pub is_dict_iff : (v : Value) → (is_dict v ≡ true) ↔ IsObject v
is_dict_iff (obj d) = ground arith
is_dict_iff _ = ground arith

-- `test` passes on the values that satisfy `P`, and on no other.
abbrev pub Decides : (Value → Bool) → (Value → Type 0) → Type 0
Decides test P = (v : Value) → (test v ≡ true) ↔ P v

pub NullOr-iff :
    (P : Value → Type 0) (test : Value → Bool)
    → Decides test P
    → (v : Value) → (not (is_null v) && not (test v) ≡ false) ↔ NullOr P v
NullOr-iff P test iff null = ground arith
NullOr-iff P test iff (bool b) = ground (arith, iff (bool b))
NullOr-iff P test iff (int n) = ground (arith, iff (int n))
NullOr-iff P test iff (float x) = ground (arith, iff (float x))
NullOr-iff P test iff (str s) = ground (arith, iff (str s))
NullOr-iff P test iff (arr xs) = ground (arith, iff (arr xs))
NullOr-iff P test iff (obj d) = ground (arith, iff (obj d))

-- A report where a test fails: there is none exactly if the value satisfies `P`.
pub unless-eq-nil_iff :
    {P : Value → Type 0} (test : Value → Bool) (c : SpecCheck)
    → Decides test P
    → (v : Value) → (when (not (test v)) c ≡ []) ↔ P v
unless-eq-nil_iff test c iff v = ground (arith, iff v)

pub unless_null-eq-nil_iff :
    (P : Value → Type 0) (test : Value → Bool) (c : SpecCheck)
    → Decides test P
    → (v : Value) → (when (not (is_null v) && not (test v)) c ≡ []) ↔ NullOr P v
unless_null-eq-nil_iff P test c iff v = ground (arith, NullOr-iff P test iff v)

pub unless_member-eq-nil_iff :
    {P : Value → Type 0} (test : Value → Bool) (c : SpecCheck)
    → Decides test P
    → (key : String) (d : Fields)
    → (when (has d key && not (test (get d key))) c ≡ []) ↔ IfMember key P d
unless_member-eq-nil_iff test c iff key d = ground (arith, iff (get d key))

pub when-eq-nil_iff : (b : Bool) (c : SpecCheck) → (when b c ≡ []) ↔ (b ≡ false)
when-eq-nil_iff b c = ground arith

-- The array check finds nothing exactly for an array whose items have no findings.
pub check_items-eq-nil_iff :
    (P : Value → Type 0) (missing wrong_type : SpecCheck) (item : ℕ → Value → List SpecCheck)
    → ((i : ℕ) (v : Value) → (item i v ≡ []) ↔ P v)
    → (v : Value) → (check_items missing wrong_type item v ≡ []) ↔ ArrayOf P v
check_items-eq-nil_iff P missing wrong_type item iff (arr xs) =
    extend_from-eq-nil_iff P item iff 0 (elems xs)
check_items-eq-nil_iff P missing wrong_type item iff _ = ground arith

-- What Python cannot hash.
abbrev pub IsUnhashable : Value → Type 0
IsUnhashable (arr xs) = Unit
IsUnhashable (obj d) = Unit
IsUnhashable _ = ⊥

-- One of the given texts.
abbrev pub IsOneOf : List String → Value → Type 0
IsOneOf texts (str s) = any (λ t. s == t) texts ≡ true
IsOneOf texts _ = ⊥

any-equals_text :
    (texts : List String) (s : String) → any (equals_text (str s)) texts ≡ any (λ t. s == t) texts
any-equals_text [] s = refl
any-equals_text (t ∷ ts) s = rw (any-equals_text ts s)

any-none : (texts : List String) → any (λ t. false) texts ≡ false
any-none [] = refl
any-none (t ∷ ts) = any-none ts

pub in_set-eq-err_iff :
    (v : Value) (texts : List String) → (in_set v texts ≡ err type_error) ↔ IsUnhashable v
in_set-eq-err_iff null texts = ground arith
in_set-eq-err_iff _ texts = ground arith

pub in_set-eq-true_iff :
    (v : Value) (texts : List String) → (in_set v texts ≡ ok true) ↔ IsOneOf texts v
in_set-eq-true_iff (str s) texts = ground (arith, any-equals_text texts s)
in_set-eq-true_iff _ texts = ground (arith, any-none texts)
