-- ===== src/Engine/SeedPool/Sorting.antt =====
-- Sorting and trimming seeds: which signatures stay.
use mcp_server_fuzzer.Prelude.{
  ℕ, zero, suc, ◌≤◌, ◌≡◌, refl, ◌∙◌, String, false, List, [], ◌∷◌, arith, ◌==◌, eq_iff, length,
}
use mcp_server_fuzzer.Engine.SeedPool.{
  Scores, SeedEntry, contains, insert_entry, sort_entries, take, trimmed, signatures_of,
}

-- No text stands twice.
abbrev pub IsDistinct : List String → Type 0
IsDistinct [] = Unit
IsDistinct (s ∷ ss) = (contains s ss ≡ false) × IsDistinct ss

pub ==_comm : (s t : String) → (s == t) ≡ (t == s)
==_comm s t = grind (arith, eq_iff s t, eq_iff t s)

module _ (scores : Scores) where
  contains-insert_entry :
      (s : String) (e : SeedEntry scores) (es : List (SeedEntry scores))
      → contains s (signatures_of scores (insert_entry scores e es))
        ≡ contains s (signatures_of scores (e ∷ es))
  unfolding insert_entry signatures_of
  contains-insert_entry s e [] = refl
  contains-insert_entry s e (f ∷ fs) = ground (arith, contains-insert_entry s e fs)

  contains-sort_entries :
      (s : String) (es : List (SeedEntry scores))
      → contains s (signatures_of scores (sort_entries scores es))
        ≡ contains s (signatures_of scores es)
  unfolding sort_entries signatures_of
  contains-sort_entries s [] = refl
  contains-sort_entries s (e ∷ es) =
      ground (arith, contains-insert_entry s e (sort_entries scores es), contains-sort_entries s es)

  insert_entry-IsDistinct :
      (e : SeedEntry scores) (es : List (SeedEntry scores))
      → IsDistinct (signatures_of scores (e ∷ es))
      → IsDistinct (signatures_of scores (insert_entry scores e es))
  unfolding insert_entry signatures_of
  insert_entry-IsDistinct e [] h = h
  insert_entry-IsDistinct e (f ∷ fs) (fresh, rest) = ground (
    arith,
    insert_entry-IsDistinct e fs,
    contains-insert_entry f.signature e fs,
    ==_comm e.signature f.signature,
  )

  sort_entries-IsDistinct :
      (es : List (SeedEntry scores))
      → IsDistinct (signatures_of scores es)
      → IsDistinct (signatures_of scores (sort_entries scores es))
  unfolding sort_entries signatures_of
  sort_entries-IsDistinct [] h = tt
  sort_entries-IsDistinct (e ∷ es) (fresh, rest) =
      insert_entry-IsDistinct e (sort_entries scores es)
        (contains-sort_entries e.signature es ∙ fresh, sort_entries-IsDistinct es rest)

  contains-take :
      (s : String) (n : ℕ) (es : List (SeedEntry scores))
      → contains s (signatures_of scores es) ≡ false
      → contains s (signatures_of scores (take scores n es)) ≡ false
  unfolding take signatures_of
  contains-take s zero es h = refl
  contains-take s (suc n) [] h = h
  contains-take s (suc n) (e ∷ es) h = ground (arith, contains-take s n es)

  take-IsDistinct :
      (n : ℕ) (es : List (SeedEntry scores))
      → IsDistinct (signatures_of scores es)
      → IsDistinct (signatures_of scores (take scores n es))
  unfolding take signatures_of
  take-IsDistinct zero es h = tt
  take-IsDistinct (suc n) [] h = h
  take-IsDistinct (suc n) (e ∷ es) (fresh, rest) =
      (contains-take e.signature n es fresh, take-IsDistinct n es rest)

  length-take : (n : ℕ) (es : List (SeedEntry scores)) → length (take scores n es) ≤ n
  unfolding take
  length-take zero es = omega arith
  length-take (suc n) [] = omega arith
  length-take (suc n) (e ∷ es) = omega (arith, length-take n es)

  pub length-trimmed : (n : ℕ) (es : List (SeedEntry scores)) → length (trimmed scores n es) ≤ n
  unfolding trimmed
  length-trimmed n es = ground (arith, length-take n (sort_entries scores es))

  pub trimmed-IsDistinct :
      (n : ℕ) (es : List (SeedEntry scores))
      → IsDistinct (signatures_of scores es)
      → IsDistinct (signatures_of scores (trimmed scores n es))
  unfolding trimmed
  trimmed-IsDistinct n es h =
      ground (arith, take-IsDistinct n (sort_entries scores es) (sort_entries-IsDistinct es h))
