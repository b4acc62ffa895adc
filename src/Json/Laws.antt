-- ===== src/Json/Laws.antt =====
-- Laws of reading and writing a dict.
use text.Mathlib.TextPositions.{eq_refl}
use mcp_server_fuzzer.Prelude.{
  String, ◌≡◌, ◌≢◌, ◌↔◌, refl, sym, ◌∙◌, inl, inr, Bool-cases, true, false, ◌||◌, arith, ◌==◌,
  eq_iff, if◌then◌else◌,
}
use mcp_server_fuzzer.Json.{Value, null, str, equals_text, Fields, end, field, has, get, put}

pub get-put :
    (d : Fields) (k j : String) (v : Value) → get (put d k v) j ≡ (if k == j then v else get d j)
unfolding get put
get-put end k j v = refl
get-put (field i w d) k j v = ground (arith, get-put d k j v, eq_iff i k, eq_iff i j, eq_iff k j)

pub has-put : (d : Fields) (k j : String) (v : Value) → has (put d k v) j ≡ (k == j || has d j)
unfolding has put
has-put end k j v = ground arith
has-put (field i w d) k j v = ground (arith, has-put d k j v, eq_iff i k, eq_iff i j, eq_iff k j)

-- A missing key reads as `None`.
pub get-eq-null_of_not_has : (d : Fields) (k : String) → has d k ≡ false → get d k ≡ null
unfolding get has
get-eq-null_of_not_has end k h = refl
get-eq-null_of_not_has (field i w d) k h = ground (arith, get-eq-null_of_not_has d k)

-- What reads as anything but `None` is there.
pub has_of_get-eq : (d : Fields) (k : String) (v : Value) → get d k ≡ v → v ≢ null → has d k ≡ true
has_of_get-eq d k v e ne = elim (Bool-cases (has d k)) [
  | inl h ↦ h
  | inr h ↦ absurd (ne (sym e ∙ get-eq-null_of_not_has d k h))
]

pub equals_text_iff : (v : Value) (s : String) → (equals_text v s ≡ true) ↔ (v ≡ str s)
equals_text_iff (str t) s = ground (arith, eq_iff t s)
equals_text_iff _ s = ground arith

pub ruleset dict_laws = (get-put, has-put, eq_refl)
