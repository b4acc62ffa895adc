-- ===== src/Engine/SeedPool/Eviction.antt =====
-- Which seeds the pool gives up when a key has too many.
use mathlib.Core.Path.{subst}
use mcp_server_fuzzer.Prelude.{
  ℕ, zero, suc, ◌≤◌, ◌≡◌, refl, ap, ◌⊎◌, String, Bool, true, false, ◌||◌, ◌&&◌, List, [], ◌∷◌, ◌++◌,
  arith, ◌==◌, eq_iff, length, leb, Bool-cases, both, inl, inr, All,
}
use mcp_server_fuzzer.Json.{Fields}
use mcp_server_fuzzer.Engine.SeedPool.{
  Scores, SeedEntry, SeedPool, PoolConfig, at_least_one, contains, insert_entry, sort_entries, take,
  trimmed, trim, signatures_of, new_entry, append_entry, autosaved, save_key, add_seed,
}

-- The laws of `>` on floats other than NaN.
pub record IsOrder (scores : Scores) : Type 0 where
  pub asym : (a b : scores.Score) → scores.gt a b ≡ true → scores.gt b a ≡ false
  pub trans :
      (a b c : scores.Score) → scores.gt a b ≡ false → scores.gt b c ≡ false → scores.gt a c ≡ false

module _ (scores : Scores) (order : IsOrder scores) where
  -- No entry scores higher than `x`.
  abbrev AtMost : scores.Score → List (SeedEntry scores) → Type 0
  AtMost x es = All (λ f. scores.gt f.score x ≡ false) es

  -- No entry scores lower than `x`.
  abbrev pub AtLeast : scores.Score → List (SeedEntry scores) → Type 0
  AtLeast x es = All (λ f. scores.gt x f.score ≡ false) es

  abbrev Sorted : List (SeedEntry scores) → Type 0
  Sorted [] = Unit
  Sorted (e ∷ es) = AtMost e.score es × Sorted es

  abbrev IsIn : SeedEntry scores → List (SeedEntry scores) → Type 0
  IsIn e [] = ⊥
  IsIn e (f ∷ fs) = (f ≡ e) ⊎ IsIn e fs

  AtMost-insert_entry :
      (x : scores.Score) (e : SeedEntry scores) (es : List (SeedEntry scores))
      → scores.gt e.score x ≡ false
      → AtMost x es
      → AtMost x (insert_entry scores e es)
  unfolding insert_entry
  AtMost-insert_entry x e [] h k = (h, tt)
  AtMost-insert_entry x e (f ∷ fs) h (here, there) =
      ground (arith, AtMost-insert_entry x e fs h there)

  AtMost-trans :
      (x y : scores.Score) (es : List (SeedEntry scores))
      → scores.gt x y ≡ false
      → AtMost x es
      → AtMost y es
  AtMost-trans x y [] h k = tt
  AtMost-trans x y (f ∷ fs) h (here, there) =
      (order.trans f.score x y here h, AtMost-trans x y fs h there)

  insert_entry-Sorted :
      (e : SeedEntry scores) (es : List (SeedEntry scores))
      → Sorted es
      → Sorted (insert_entry scores e es)
  unfolding insert_entry
  insert_entry-Sorted e [] h = (tt, tt)
  insert_entry-Sorted e (f ∷ fs) (most, rest) = elim (Bool-cases (scores.gt f.score e.score)) [
    | inl higher ↦
        rw (higher, insert_entry)
          (
            AtMost-insert_entry f.score e fs (order.asym f.score e.score higher) most,
            insert_entry-Sorted e fs rest,
          )
    | inr lower ↦
        rw (lower, insert_entry) ((lower, AtMost-trans f.score e.score fs lower most), (most, rest))
  ]

  sort_entries-Sorted : (es : List (SeedEntry scores)) → Sorted (sort_entries scores es)
  unfolding sort_entries
  sort_entries-Sorted [] = tt
  sort_entries-Sorted (e ∷ es) =
      insert_entry-Sorted e (sort_entries scores es) (sort_entries-Sorted es)

  length-insert_entry :
      (e : SeedEntry scores) (es : List (SeedEntry scores))
      → length (insert_entry scores e es) ≡ suc (length es)
  unfolding insert_entry
  length-insert_entry e [] = refl
  length-insert_entry e (f ∷ fs) = ground (arith, length-insert_entry e fs)

  length-sort_entries : (es : List (SeedEntry scores)) → length (sort_entries scores es) ≡ length es
  unfolding sort_entries
  length-sort_entries [] = refl
  length-sort_entries (e ∷ es) =
      omega (arith, length-insert_entry e (sort_entries scores es), length-sort_entries es)

  length-take-full :
      (n : ℕ) (es : List (SeedEntry scores)) → n ≤ length es → length (take scores n es) ≡ n
  unfolding take
  length-take-full zero es h = refl
  length-take-full (suc n) [] h = omega (arith, h)
  length-take-full (suc n) (e ∷ es) h = omega (arith, length-take-full n es (omega (arith, h)))

  IsIn-insert_entry :
      (e f : SeedEntry scores) (es : List (SeedEntry scores))
      → (f ≡ e) ⊎ IsIn e es
      → IsIn e (insert_entry scores f es)
  unfolding insert_entry
  IsIn-insert_entry e f [] h = h
  IsIn-insert_entry e f (g ∷ gs) h = elim (Bool-cases (scores.gt g.score f.score)) [
    | inl higher ↦
        rw (higher, insert_entry)
          (elim h [
            | inl same ↦ inr (IsIn-insert_entry e f gs (inl same))
            | inr (inl here) ↦ inl here
            | inr (inr there) ↦ inr (IsIn-insert_entry e f gs (inr there))
          ])
    | inr lower ↦ rw (lower, insert_entry) h
  ]

  IsIn-sort_entries :
      (e : SeedEntry scores) (es : List (SeedEntry scores))
      → IsIn e es
      → IsIn e (sort_entries scores es)
  unfolding sort_entries
  IsIn-sort_entries e [] h = absurd h
  IsIn-sort_entries e (f ∷ fs) (inl same) =
      IsIn-insert_entry e f (sort_entries scores fs) (inl same)
  IsIn-sort_entries e (f ∷ fs) (inr there) =
      IsIn-insert_entry e f (sort_entries scores fs) (inr (IsIn-sort_entries e fs there))

  IsIn-append : (e : SeedEntry scores) (es : List (SeedEntry scores)) → IsIn e (es ++ e ∷ [])
  IsIn-append e [] = inl refl
  IsIn-append e (f ∷ fs) = inr (IsIn-append e fs)

  not_higher :
      (e : SeedEntry scores) (x : scores.Score) (es : List (SeedEntry scores))
      → AtMost x es
      → IsIn e es
      → scores.gt e.score x ≡ false
  not_higher e x [] h k = absurd k
  not_higher e x (f ∷ fs) (here, there) (inl same) =
      subst (λ (g : SeedEntry scores). scores.gt g.score x ≡ false) same here
  not_higher e x (f ∷ fs) (here, there) (inr later) = not_higher e x fs there later

  -- What a sorted list loses does not score higher than what it keeps.
  take-AtLeast :
      (n : ℕ) (e : SeedEntry scores) (es : List (SeedEntry scores))
      → Sorted es
      → IsIn e es
      → contains e.signature (signatures_of scores (take scores n es)) ≡ false
      → AtLeast e.score (take scores n es)
  unfolding take signatures_of
  take-AtLeast zero e es h k lost = tt
  take-AtLeast (suc n) e [] h k lost = absurd k
  take-AtLeast (suc n) e (f ∷ fs) (most, rest) (inl same) lost =
      let signed : f.signature ≡ e.signature = ap (λ (g : SeedEntry scores). g.signature) same in
      absurd (ground (arith, eq_iff f.signature e.signature))
  take-AtLeast (suc n) e (f ∷ fs) (most, rest) (inr later) lost =
      (not_higher e f.score fs most later, take-AtLeast n e fs rest later (ground arith))

  -- What became of the new entry of a key.
  abbrev pub Kept : ℕ → String → SeedEntry scores → SeedPool scores → Type 0
  Kept n key e pool =
      (contains e.signature (pool.signatures key) ≡ true)
      ⊎ ((length (pool.seeds key) ≡ n) × AtLeast e.score (pool.seeds key))

  trimmed-Kept :
      (n : ℕ) (e : SeedEntry scores) (es : List (SeedEntry scores))
      → leb (length es) n ≡ false
      → IsIn e es
      → (contains e.signature (signatures_of scores (trimmed scores n es)) ≡ true)
        ⊎ ((length (trimmed scores n es) ≡ n) × AtLeast e.score (trimmed scores n es))
  unfolding trimmed
  trimmed-Kept n e es large member =
      rw large
        (elim (Bool-cases
          (contains e.signature (signatures_of scores (take scores n (sort_entries scores es))))) [
            | inl kept ↦ inl kept
            | inr lost ↦ inr (
              length-take-full n (sort_entries scores es) (ground (arith, length-sort_entries es)),
              take-AtLeast n e (sort_entries scores es) (sort_entries-Sorted es)
                  (IsIn-sort_entries e es member) lost,
            )
          ])

  trim-Kept :
      (n : ℕ) (key : String) (e : SeedEntry scores) (pool : SeedPool scores)
      → IsIn e (pool.seeds key)
      → contains e.signature (pool.signatures key) ≡ true
      → Kept n key e (trim scores n key pool)
  unfolding trim
  trim-Kept n key e pool member signed =
      let same_key : (key == key) ≡ true = (eq_iff key key).1 refl in
      both (Kept n key e) (leb (length (pool.seeds key)) n) _ _ (λ small. inl signed)
        (λ large. rw same_key (trimmed-Kept n e (pool.seeds key) large member))

  append_entry-IsIn :
      (key : String) (e : SeedEntry scores) (pool : SeedPool scores)
      → IsIn e ((append_entry scores key e pool).seeds key)
        × (contains e.signature ((append_entry scores key e pool).signatures key) ≡ true)
  unfolding append_entry
  append_entry-IsIn key e pool =
      let same_key : (key == key) ≡ true = (eq_iff key key).1 refl in
      (
        rw same_key (IsIn-append e (pool.seeds key)),
        rw same_key (ground (arith, eq_iff e.signature e.signature)),
      )

  autosaved-Kept :
      (n : ℕ) (config : PoolConfig) (key : String) (e : SeedEntry scores) (pool : SeedPool scores)
      → Kept n key e pool
      → Kept n key e (autosaved scores config key pool)
  unfolding autosaved save_key
  autosaved-Kept n config key e pool h =
      both (Kept n key e) (config.stored && config.autosave) _ _
        (λ saved. both (Kept n key e) config.stored _ _ (λ stored. h) (λ kept. h)) (λ kept. h)

  -- With scores that `>` orders, where `add_seed` returns True, the pool has the new seed's
  -- signature, or the key is full of seeds of which none scores lower than the new one.
  pub add_seed-Kept :
      (config : PoolConfig) (key : String) (seed : Fields) (signature : String)
      (score : scores.Score) (pool : SeedPool scores)
      → (add_seed scores config key seed signature score pool).0 ≡ true
      → Kept
          (at_least_one config.max_per_key)
          key
          (new_entry scores seed signature score)
          (add_seed scores config key seed signature score pool).1
  unfolding add_seed
  add_seed-Kept config key seed signature score pool =
      let n = at_least_one config.max_per_key in
      let e = new_entry scores seed signature score in
      let P = λ (r : Bool × SeedPool scores). r.0 ≡ true → Kept n key e r.1 in
      let appended = append_entry-IsIn key e pool in
      both P (key == "" || signature == "") _ _ (λ empty h. absurd (cc))
        (λ texts.
          both P (contains signature (pool.signatures key)) _ _ (λ known h. absurd (cc))
            (λ new h.
              autosaved-Kept n config key e _
                (trim-Kept n key e (append_entry scores key e pool) appended.0 appended.1)))
