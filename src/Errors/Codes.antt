-- ===== src/Errors/Codes.antt =====
-- Which exception classes share a code, and what the registry makes of it.
use mcp_server_fuzzer.Prelude.{
  ◌≡◌, ◌⊎◌, refl, ap, ◌↔◌, Bool, true, false, not, ◌||◌, some, arith, all, get_elem?, all-get_elem?,
  nat_beq_iff, ◌==◌, eq_iff,
}
use mcp_server_fuzzer.Errors.{
  ErrorClass, mcp_error, server_crash_error, oversized_response_error, authentication_error,
  network_error, error_classes, place, same_class, code,
}

-- The two pairs of classes that share a code.
abbrev pub clash : ErrorClass → ErrorClass → Bool
clash server_crash_error authentication_error = true
clash authentication_error server_crash_error = true
clash oversized_response_error network_error = true
clash network_error oversized_response_error = true
clash _ _ = false

abbrev agree : Bool → Bool → Bool
agree true b = b
agree false b = not b

agree_eq : (a b : Bool) → agree a b ≡ true → a ≡ b
agree_eq a b h = ground arith

code_table :
    all
      (λ a. all (λ b. agree (code a == code b) (same_class a b || clash a b)) error_classes)
      error_classes
    ≡ true
code_table = refl

get_elem?-place : (c : ErrorClass) → get_elem? error_classes (place c) ≡ some c
get_elem?-place mcp_error = refl
get_elem?-place _ = refl

code-eq-code : (a b : ErrorClass) → (code a == code b) ≡ (same_class a b || clash a b)
code-eq-code a b = agree_eq _ _ (
    all-get_elem? (λ b. agree (code a == code b) (same_class a b || clash a b)) error_classes
      (place b)
      (all-get_elem?
        (λ a. all (λ b. agree (code a == code b) (same_class a b || clash a b)) error_classes)
        error_classes (place a) code_table (get_elem?-place a))
      (get_elem?-place b))

pub same_class_iff : (a b : ErrorClass) → (same_class a b ≡ true) ↔ (a ≡ b)
same_class_iff a b = (
  (λ h.
      let same : place a ≡ place b = (nat_beq_iff (place a) (place b)).0 h in
      cc (get_elem?-place a, get_elem?-place b, ap (get_elem? error_classes) same)),
  (λ e. (nat_beq_iff (place a) (place b)).1 (ap place e)),
)

-- Two exception classes have the same code exactly if they are the same class, or one is a server
-- crash and the other an authentication error, or one an oversized response and the other a network
-- error.
pub code-eq_iff : (a b : ErrorClass) → (code a ≡ code b) ↔ ((a ≡ b) ⊎ (clash a b ≡ true))
code-eq_iff a b = grind (arith, code-eq-code a b, same_class_iff a b, eq_iff (code a) (code b))
