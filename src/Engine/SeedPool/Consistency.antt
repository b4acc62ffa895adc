-- ===== src/Engine/SeedPool/Consistency.antt =====
-- The signatures of a pool are those of its seeds, whatever calls of `add_seed` made it.
use mathlib.Core.Path.{subst}
use mcp_server_fuzzer.Prelude.{
  ℕ, ◌≤◌, ◌≡◌, refl, sym, ◌∙◌, String, Bool, false, ◌||◌, ◌&&◌, List, [], ◌∷◌, ◌++◌, arith, ◌==◌,
  eq_iff, length, leb, Bool-cases, both, both2, inl, inr,
}
use mcp_server_fuzzer.Json.{Fields}
use mcp_server_fuzzer.Engine.SeedPool.{
  Scores, SeedEntry, SeedPool, PoolConfig, empty_pool, at_least_one, contains, trim, signatures_of,
  new_entry, append_entry, autosaved, save_key, add_seed,
}
use mcp_server_fuzzer.Engine.SeedPool.Sorting.{
  IsDistinct, ==_comm, length-trimmed, trimmed-IsDistinct,
}

module _ (scores : Scores) where
  -- The signatures are those of the entries, and no two entries share one.
  pub record Agrees (es : List (SeedEntry scores)) (signatures : List String) : Type 0 where
    pub same : (s : String) → contains s signatures ≡ contains s (signatures_of scores es)
    pub distinct : IsDistinct (signatures_of scores es)

  contains-append :
      (s : String) (es : List (SeedEntry scores)) (e : SeedEntry scores)
      → contains s (signatures_of scores (es ++ e ∷ []))
        ≡ (e.signature == s || contains s (signatures_of scores es))
  unfolding signatures_of
  contains-append s [] e = ground arith
  contains-append s (f ∷ fs) e = ground (arith, contains-append s fs e)

  append-IsDistinct :
      (es : List (SeedEntry scores)) (e : SeedEntry scores)
      → IsDistinct (signatures_of scores es)
      → contains e.signature (signatures_of scores es) ≡ false
      → IsDistinct (signatures_of scores (es ++ e ∷ []))
  unfolding signatures_of
  append-IsDistinct [] e h new = (refl, tt)
  append-IsDistinct (f ∷ fs) e (fresh, rest) new = (
    ground (arith, contains-append f.signature fs e, ==_comm e.signature f.signature),
    append-IsDistinct fs e rest (ground arith),
  )

  append-Agrees :
      (es : List (SeedEntry scores)) (signatures : List String) (e : SeedEntry scores)
      → Agrees es signatures
      → contains e.signature signatures ≡ false
      → Agrees (es ++ e ∷ []) (e.signature ∷ signatures)
  append-Agrees es signatures e h new = record {
    same = λ s. ground (arith, contains-append s es e, h.same s);
    distinct = append-IsDistinct es e h.distinct (sym (h.same e.signature) ∙ new);
  }

  -- Every key has at most `n` seeds, with their signatures.
  pub record IsConsistent (n : ℕ) (pool : SeedPool scores) : Type 0 where
    pub bounded : (key : String) → length (pool.seeds key) ≤ n
    pub agrees : (key : String) → Agrees (pool.seeds key) (pool.signatures key)

  empty_pool-IsConsistent : (n : ℕ) → IsConsistent n (empty_pool scores)
  unfolding signatures_of
  empty_pool-IsConsistent n = record {
    bounded = λ key. omega arith;
    agrees = λ key. record { same = λ s. refl; distinct = tt };
  }

  trim-bounded :
      (n : ℕ) (key : String) (pool : SeedPool scores) (k : String)
      → (key == k ≡ false → length (pool.seeds k) ≤ n)
      → length ((trim scores n key pool).seeds k) ≤ n
  unfolding trim
  trim-bounded n key pool k h =
      both (λ (q : SeedPool scores). length (q.seeds k) ≤ n) (leb (length (pool.seeds key)) n) _ _
        (λ small. elim (Bool-cases (key == k)) [
          | inl same ↦
              subst (λ (j : String). length (pool.seeds j) ≤ n) ((eq_iff key k).0 same)
                (ground arith)
          | inr other ↦ h other
        ])
        (λ large.
          both (λ (es : List (SeedEntry scores)). length es ≤ n) (key == k) _ _
            (λ same. length-trimmed scores n (pool.seeds key)) h)

  trim-Agrees :
      (n : ℕ) (key : String) (pool : SeedPool scores) (k : String)
      → ((j : String) → Agrees (pool.seeds j) (pool.signatures j))
      → Agrees ((trim scores n key pool).seeds k) ((trim scores n key pool).signatures k)
  unfolding trim
  trim-Agrees n key pool k h =
      both (λ (q : SeedPool scores). Agrees (q.seeds k) (q.signatures k))
        (leb (length (pool.seeds key)) n) _ _ (λ small. h k)
        (λ large.
          both2 Agrees (key == k)
            (λ same. record {
              same = λ s. refl;
              distinct = trimmed-IsDistinct scores n (pool.seeds key) (h key).distinct;
            })
            (λ other. h k))

  append_entry-Agrees :
      (key : String) (e : SeedEntry scores) (pool : SeedPool scores) (k : String)
      → contains e.signature (pool.signatures key) ≡ false
      → ((j : String) → Agrees (pool.seeds j) (pool.signatures j))
      → Agrees
          ((append_entry scores key e pool).seeds k)
          ((append_entry scores key e pool).signatures k)
  unfolding append_entry
  append_entry-Agrees key e pool k new h =
      both2 Agrees (key == k) (λ same. append-Agrees _ _ e (h key) new) (λ other. h k)

  append_entry-other :
      (key : String) (e : SeedEntry scores) (pool : SeedPool scores) (k : String)
      → key == k ≡ false
      → (append_entry scores key e pool).seeds k ≡ pool.seeds k
  unfolding append_entry
  append_entry-other key e pool k h = rw h refl

  autosaved-IsConsistent :
      (n : ℕ) (config : PoolConfig) (key : String) (pool : SeedPool scores)
      → IsConsistent n pool
      → IsConsistent n (autosaved scores config key pool)
  unfolding autosaved save_key
  autosaved-IsConsistent n config key pool h =
      both (IsConsistent n) (config.stored && config.autosave) _ _
        (λ saved.
          both (IsConsistent n) config.stored _ _
            (λ stored. record { bounded = h.bounded; agrees = h.agrees }) (λ kept. h))
        (λ kept. h)

  trim_append-IsConsistent :
      (n : ℕ) (key : String) (e : SeedEntry scores) (pool : SeedPool scores)
      → contains e.signature (pool.signatures key) ≡ false
      → IsConsistent n pool
      → IsConsistent n (trim scores n key (append_entry scores key e pool))
  trim_append-IsConsistent n key e pool new h = record {
    bounded = λ k.
        trim-bounded n key (append_entry scores key e pool) k
          (λ other. rw (append_entry-other key e pool k other) (h.bounded k));
    agrees = λ k.
        trim-Agrees n key (append_entry scores key e pool) k
          (λ j. append_entry-Agrees key e pool j new h.agrees);
  }

  add_seed-IsConsistent :
      (config : PoolConfig) (key : String) (seed : Fields) (signature : String)
      (score : scores.Score) (pool : SeedPool scores)
      → IsConsistent (at_least_one config.max_per_key) pool
      → IsConsistent
          (at_least_one config.max_per_key)
          (add_seed scores config key seed signature score pool).1
  unfolding add_seed new_entry
  add_seed-IsConsistent config key seed signature score pool h =
      let n = at_least_one config.max_per_key in
      both (λ (r : Bool × SeedPool scores). IsConsistent n r.1) (key == "" || signature == "") _ _
        (λ empty. h)
        (λ texts.
          both (λ (r : Bool × SeedPool scores). IsConsistent n r.1)
            (contains signature (pool.signatures key)) _ _ (λ known. h)
            (λ new.
              autosaved-IsConsistent n config key _ (
                trim_append-IsConsistent n key (new_entry scores seed signature score) pool new h)))

  pub record SeedCall : Type 0 where
    pub key : String
    pub seed : Fields
    pub signature : String
    pub score : scores.Score

  -- The pool after some calls of `add_seed`, the first one first.
  unfoldable pub add_all : PoolConfig → List SeedCall → SeedPool scores → SeedPool scores
  add_all config [] pool = pool
  add_all config (c ∷ cs) pool =
      add_all config cs (add_seed scores config c.key c.seed c.signature c.score pool).1

  add_all-keeps :
      (config : PoolConfig) (calls : List SeedCall) (pool : SeedPool scores)
      → IsConsistent (at_least_one config.max_per_key) pool
      → IsConsistent (at_least_one config.max_per_key) (add_all config calls pool)
  unfolding add_all
  add_all-keeps config [] pool h = h
  add_all-keeps config (c ∷ cs) pool h =
      add_all-keeps config cs _
        (add_seed-IsConsistent config c.key c.seed c.signature c.score pool h)

  -- Whatever seeds are added to an empty pool, every key has at most `max(1, max_per_key)` seeds, no
  -- two of them with one signature, and its set of signatures is that of the signatures of its
  -- seeds.
  pub add_all-IsConsistent :
      (config : PoolConfig) (calls : List SeedCall)
      → IsConsistent (at_least_one config.max_per_key) (add_all config calls (empty_pool scores))
  add_all-IsConsistent config calls =
      add_all-keeps config calls (empty_pool scores)
        (empty_pool-IsConsistent (at_least_one config.max_per_key))
