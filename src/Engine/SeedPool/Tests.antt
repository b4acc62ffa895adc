-- ===== src/Engine/SeedPool/Tests.antt =====
-- A pool with one place for each key, whose scores are whole numbers of tenths.
use mcp_server_fuzzer.Prelude.{ℕ, ◌≡◌, refl, true, false, [], ◌∷◌, ltb, arith}
use mcp_server_fuzzer.Json.{pos, end, field, null}
use mcp_server_fuzzer.Engine.SeedPool.{
  Scores, SeedPool, PoolConfig, empty_pool, at_least_one, contains, new_entry, add_seed,
  insert_entry, sort_entries, take, trim, trimmed, append_entry, autosaved, signatures_of,
}
use mcp_server_fuzzer.Engine.SeedPool.Consistency.{
  SeedCall, IsConsistent, add_all, add_all-IsConsistent,
}
use mcp_server_fuzzer.Engine.SeedPool.Eviction.{IsOrder, Kept, add_seed-Kept}

abbrev tenths : Scores
tenths = record { Score = ℕ; gt = λ a b. ltb b a; tenth = 1 }

tenths-IsOrder : IsOrder tenths
tenths-IsOrder = record { asym = λ a b h. ground arith; trans = λ a b c h k. ground arith }

abbrev config : PoolConfig
config = record { max_per_key = pos 0; stored = true; autosave = false }

abbrev crash : SeedCall tenths
crash = record { key = "echo"; seed = end; signature = "crash"; score = 30 }

abbrev echo : SeedCall tenths
echo = record { key = "echo"; seed = field "a" null end; signature = "ok"; score = 15 }

add_all-IsConsistent_example :
    IsConsistent tenths
      (at_least_one (pos 0))
      (add_all tenths config (crash ∷ echo ∷ crash ∷ []) (empty_pool tenths))
add_all-IsConsistent_example = add_all-IsConsistent tenths config (crash ∷ echo ∷ crash ∷ [])

abbrev full : SeedPool tenths
full = (add_seed tenths config "echo" end "crash" 30 (empty_pool tenths)).1

added : (add_seed tenths config "echo" end "ok" 15 full).0 ≡ true
unfolding add_seed trim append_entry autosaved trimmed insert_entry sort_entries take signatures_of
    new_entry
added = refl

-- The call returns True, and the seed is not there.
given_up :
    contains "ok" ((add_seed tenths config "echo" end "ok" 15 full).1.signatures "echo") ≡ false
unfolding add_seed trim append_entry autosaved trimmed insert_entry sort_entries take signatures_of
    new_entry
given_up = refl

add_seed-Kept_example :
    Kept tenths tenths-IsOrder
      (at_least_one (pos 0))
      "echo"
      (new_entry tenths end "ok" 15)
      (add_seed tenths config "echo" end "ok" 15 full).1
add_seed-Kept_example = add_seed-Kept tenths tenths-IsOrder config "echo" end "ok" 15 full added
