-- ===== src/Engine/SeedPool.antt =====
-- mcp_fuzzer/fuzz_engine/mutators/seed_pool.py: the pool of seeds, with a set of signatures for each
-- key. A missing key of either dict is read as empty, so the dicts are functions.
pub mod Sorting
pub mod Consistency
pub mod Eviction
pub mod Tests
use mcp_server_fuzzer.Prelude.{
  ℕ, zero, suc, String, Bool, true, false, not, ◌||◌, ◌&&◌, List, [], ◌∷◌, ◌++◌, map, any, Option,
  none, some, ◌==◌, if◌then◌else◌, length, leb, get_elem?,
}
use mcp_server_fuzzer.Json.{ℤ, pos, negsuc, Fields}

-- What the pool needs of Python's floats: `>`, and the constant 0.1.
pub record Scores : Type 1 where
  pub Score : Type 0
  pub gt : Score → Score → Bool
  pub tenth : Score

-- signature in sigs
abbrev pub contains : String → List String → Bool
contains s signatures = any (λ t. t == s) signatures

-- max(1, max_per_key)
abbrev pub at_least_one : ℤ → ℕ
at_least_one (pos zero) = 1
at_least_one (pos (suc n)) = suc n
at_least_one (negsuc n) = 1

pub record PoolConfig : Type 0 where
  pub max_per_key : ℤ
  -- whether there is a storage directory
  pub stored : Bool
  pub autosave : Bool

module _ (scores : Scores) where
  open scores use {Score, gt, tenth}

  pub record SeedEntry : Type 0 where
    pub data_of : Fields
    pub signature : String
    pub score : Score

  pub record SeedPool : Type 0 where
    pub seeds : String → List SeedEntry
    pub signatures : String → List String
    -- the files that were written, by key
    pub saved : List (String × List SeedEntry)

  -- `__init__` without a storage directory
  abbrev pub empty_pool : SeedPool
  empty_pool = record { seeds = λ key. []; signatures = λ key. []; saved = [] }

  -- d[key] = value
  abbrev pub put_at {ℓ} : {V : Type ℓ} → String → V → (String → V) → String → V
  put_at key value d k = if key == k then value else d k

  -- `sort(key=score, reverse=True)` is stable, so an entry goes before those of the same score that
  -- stood behind it.
  unfoldable pub insert_entry : SeedEntry → List SeedEntry → List SeedEntry
  insert_entry e [] = e ∷ []
  insert_entry e (f ∷ fs) = if gt f.score e.score then f ∷ insert_entry e fs else e ∷ f ∷ fs

  unfoldable pub sort_entries : List SeedEntry → List SeedEntry
  sort_entries [] = []
  sort_entries (e ∷ es) = insert_entry e (sort_entries es)

  -- entries[:n]
  unfoldable pub take : ℕ → List SeedEntry → List SeedEntry
  take zero es = []
  take (suc n) [] = []
  take (suc n) (e ∷ es) = e ∷ take n es

  unfoldable pub signatures_of : List SeedEntry → List String
  signatures_of [] = []
  signatures_of (e ∷ es) = e.signature ∷ signatures_of es

  pub trimmed : ℕ → List SeedEntry → List SeedEntry
  trimmed n es = if leb (length es) n then es else take n (sort_entries es)

  -- `_trim` leaves the signatures of a key alone where there is nothing to trim.
  pub trim : ℕ → String → SeedPool → SeedPool
  unfolding trimmed
  trim n key pool = if leb (length (pool.seeds key)) n then pool else record pool {
    seeds = put_at key (trimmed n (pool.seeds key)) pool.seeds;
    signatures = put_at key (signatures_of (trimmed n (pool.seeds key))) pool.signatures;
  }

  pub save_key : PoolConfig → String → SeedPool → SeedPool
  save_key config key pool =
      if config.stored
      then record pool { saved = pool.saved ++ (key, pool.seeds key) ∷ [] }
      else pool

  -- max(0.1, score)
  abbrev pub at_least_tenth : Score → Score
  at_least_tenth score = if gt score tenth then score else tenth

  pub new_entry : Fields → String → Score → SeedEntry
  new_entry seed signature score = record {
    data_of = seed;
    signature = signature;
    score = at_least_tenth score;
  }

  pub append_entry : String → SeedEntry → SeedPool → SeedPool
  append_entry key e pool = record pool {
    seeds = put_at key (pool.seeds key ++ e ∷ []) pool.seeds;
    signatures = put_at key (e.signature ∷ pool.signatures key) pool.signatures;
  }

  pub autosaved : PoolConfig → String → SeedPool → SeedPool
  unfolding save_key
  autosaved config key pool =
      if config.stored && config.autosave then save_key config key pool else pool

  pub add_seed : PoolConfig → String → Fields → String → Score → SeedPool → Bool × SeedPool
  unfolding trim new_entry append_entry autosaved
  add_seed config key seed signature score pool =
      if key == "" || signature == ""
      then (false, pool)
      else if contains signature (pool.signatures key)
      then (false, pool)
      else (
        true,
        autosaved config key (
            trim (at_least_one config.max_per_key) key
              (append_entry key (new_entry seed signature score) pool)),
      )

  -- `draw weights` is the index that `choices` picks.
  pub pick_seed : (List Score → ℕ) → String → SeedPool → Option Fields
  pick_seed draw key pool = pick (pool.seeds key)
    where
      pick : List SeedEntry → Option Fields
      pick [] = none
      pick (e ∷ []) = some e.data_of
      pick (e ∷ f ∷ es) = elim (get_elem? (e ∷ f ∷ es) (draw (map (λ g. g.score) (e ∷ f ∷ es)))) [
        | none ↦ none
        | some g ↦ some g.data_of
      ]
