-- ===== src/Prelude/Text.antt =====
-- Text that the program formats: a number in an f-string, and joined pieces.
use Prim.Native.Nat.{ℕ, zero, suc, ◌/◌, ◌%◌}
use Prim.Native.String
use Prim.Native.String.{String, compare}
use mathlib.Core.Bool.{Bool}
use text.Mathlib.Text.{is_lt}
use mathlib.Core.List.{List, [], ◌∷◌}
use mcp_server_fuzzer.Prelude.Tests.{ltb, if◌then◌else◌}

infixl 65 ◌+++◌
abbrev pub ◌+++◌ : String → String → String
s +++ t = String.◌++◌ s t

-- s < t, by code points
abbrev pub text_lt : String → String → Bool
text_lt s t = is_lt (compare s t)

pick : List String → ℕ → String
pick [] i = ""
pick (s ∷ ss) zero = s
pick (s ∷ ss) (suc i) = pick ss i

digit : ℕ → String
unfolding pick
digit = pick ("0" ∷ "1" ∷ "2" ∷ "3" ∷ "4" ∷ "5" ∷ "6" ∷ "7" ∷ "8" ∷ "9" ∷ [])

show_from : ℕ → ℕ → String
show_from zero n = ""
show_from (suc fuel) n =
    let front = show_from fuel (n / 10) in if ltb n 10 then digit n else front +++ digit (n % 10)

-- str(n) in decimal
unfoldable pub show : ℕ → String
unfolding show_from digit
show n = show_from (suc n) n
