-- ===== src/Diagnostics/Series.antt =====
-- What `classify_fuzz_runs` finds across runs: slow responses, differing outcomes, growing memory.
use mcp_server_fuzzer.Prelude.{
  ℕ, zero, suc, ◌-◌, ◌/◌, String, Bool, true, not, ◌&&◌, ◌||◌, List, [], ◌∷◌, ◌++◌, Option, none,
  some, map, any, length, ◌==◌, ltb, leb, if◌then◌else◌, Result, ok, ◌>>=◌,
}
use mcp_server_fuzzer.Prelude.Text.{◌+++◌, text_lt}
use mcp_server_fuzzer.Json.{
  ℤ, pos, Value, Fields, end, field, bool, int, str, arr, items_of, get, is_null, is_int, is_float,
}
use mcp_server_fuzzer.Diagnostics.{Finding}
use mcp_server_fuzzer.Diagnostics.Runs.{Located}
use mcp_server_fuzzer.Diagnostics.Scans.{ClassifyError, Texts, run_input}

-- Python's numbers: `v >= 0`, float(v), exact integers, comparison, arithmetic, statistics.median,
-- int(x), the formats .3f and, in millions, .1f, and a number as a value. An int that is too large
-- for a float raises OverflowError in float(v), and in arithmetic that mixes it with floats.
pub record Numbers : Type 1 where
  pub Number : Type 0
  pub is_nonnegative : Value → Bool
  pub float_of : Value → Result ClassifyError Number
  pub of_nat : ℕ → Number
  pub half : Number
  pub at_most : Number → Number → Bool
  pub times : Number → Number → Result ClassifyError Number
  pub minus : Number → Number → Result ClassifyError Number
  pub median : List Number → Result ClassifyError Number
  pub to_int : Number → ℤ
  pub as_seconds : Number → String
  pub as_megabytes : Number → Result ClassifyError String
  pub to_value : Number → Value

-- (kind, target)
abbrev pub Place : Type 0
Place = String × String

abbrev pub same_place : Place → Place → Bool
same_place (kind, target) (other_kind, other_target) = kind == other_kind && target == other_target

-- (kind, target, input_key)
abbrev pub InputKey : Type 0
InputKey = Place × String

abbrev pub same_input : InputKey → InputKey → Bool
same_input (place, input) (other_place, other_input) =
    same_place place other_place && input == other_input

-- d.setdefault(key, []) with the list changed by `add`
unfoldable pub add_to :
    {K A : Type 0} → (K → K → Bool) → (List A → List A) → K → List (K × List A) → List (K × List A)
add_to same add key [] = (key, add []) ∷ []
add_to same add key ((k, xs) ∷ rest) =
    if same k key then (k, add xs) ∷ rest else (k, xs) ∷ add_to same add key rest

abbrev pub append_item : {A : Type 0} → A → List A → List A
append_item x xs = xs ++ (x ∷ [])

-- A set of texts, in any order.
abbrev pub add_text : String → List String → List String
add_text s texts = if any (λ t. t == s) texts then texts else s ∷ texts

unfoldable pub take : {A : Type 0} → ℕ → List A → List A
take zero xs = []
take (suc n) [] = []
take (suc n) (x ∷ xs) = x ∷ take n xs

unfoldable pub drop : {A : Type 0} → ℕ → List A → List A
drop zero xs = xs
drop (suc n) [] = []
drop (suc n) (x ∷ xs) = drop n xs

unfoldable pub insert_text : String → List String → List String
insert_text s [] = s ∷ []
insert_text s (t ∷ ts) = if text_lt t s then t ∷ insert_text s ts else s ∷ t ∷ ts

unfoldable pub sort_texts : List String → List String
sort_texts [] = []
sort_texts (s ∷ ss) = insert_text s (sort_texts ss)

abbrev pub keep_texts : (String → Bool) → List String → List String
keep_texts p [] = []
keep_texts p (s ∷ ss) = let rest = keep_texts p ss in if p s then s ∷ rest else rest

-- A finding on a target, and on no one run.
abbrev pub across_runs : Place → String → String → String → Fields → Finding
across_runs (kind, target) category severity detail evidence = record {
  category = category;
  severity = severity;
  kind = kind;
  target = target;
  run = none;
  detail = detail;
  evidence = evidence;
}

-- rss if isinstance(rss, int) and rss > 0: True is the int 1
abbrev pub rss_of : Value → Option ℕ
rss_of (int (pos (suc n))) = some (suc n)
rss_of (bool true) = some 1
rss_of _ = none

abbrev add_rss : Place → Option ℕ → List (Place × List ℕ) → List (Place × List ℕ)
add_rss place none series = series
add_rss place (some n) series = add_to same_place (append_item n) place series

unfoldable pub rss_series : List Located → List (Place × List ℕ) → List (Place × List ℕ)
rss_series [] series = series
rss_series (l ∷ runs) series =
    rss_series runs (add_rss (l.kind, l.target) (rss_of (get l.run "rss_bytes")) series)

-- o and o != "None"
abbrev pub is_meaningful : String → Bool
is_meaningful o = not (o == "") && not (o == "None")

abbrev pub values_of : List String → Value
values_of texts = arr (items_of (map str texts))

unfoldable pub non_determinism : List (InputKey × List String) → List Finding
non_determinism [] = []
non_determinism (((place, input), outcomes) ∷ rest) =
    let meaningful = keep_texts is_meaningful outcomes in
    let later = non_determinism rest in
    if ltb 1 (length meaningful)
    then across_runs place "non_determinism" "medium"
        "Identical input produced differing outcomes across runs (possible state corruption / nondeterministic handling)."
        (field "outcomes" (values_of (sort_texts meaningful)) end)
      ∷ later
    else later

module _ (texts : Texts) where
  unfoldable pub outcomes_by_input :
      List Located → List (InputKey × List String) → List (InputKey × List String)
  outcomes_by_input [] groups = groups
  outcomes_by_input (l ∷ runs) groups = outcomes_by_input runs (
      if is_null (run_input l)
      then groups
      else add_to same_input (add_text (texts.str_of (get l.run "outcome")))
          ((l.kind, l.target), texts.sorted_dumps (run_input l)) groups)

module _ (numbers : Numbers) where
  -- isinstance(rt, (int, float)) and rt >= 0
  abbrev pub is_time : Value → Bool
  is_time rt = (is_int rt || is_float rt) && numbers.is_nonnegative rt

  -- float(rt), where it is a time.
  unfoldable pub read_time : Value → Result ClassifyError (Option numbers.Number)
  read_time rt = if is_time rt then (do t ← numbers.float_of rt; ok (some t)) else ok none

  abbrev add_time :
      Place
      → Result ClassifyError (Option numbers.Number)
      → List (Place × List numbers.Number)
      → List (Place × List numbers.Number)
  add_time place (ok (some t)) times = add_to same_place (append_item t) place times
  add_time place _ times = times

  -- Where a time cannot be read, the loop over the runs has raised.
  unfoldable pub response_times :
      List Located → List (Place × List numbers.Number) → List (Place × List numbers.Number)
  response_times [] times = times
  response_times (l ∷ runs) times =
      response_times runs
        (add_time (l.kind, l.target) (read_time (get l.run "response_time")) times)

  -- max(times)
  unfoldable pub largest : numbers.Number → List numbers.Number → numbers.Number
  largest x [] = x
  largest x (y ∷ ys) = largest (if numbers.at_most y x then x else y) ys

  abbrev pub largest_of : List numbers.Number → numbers.Number
  largest_of [] = numbers.of_nat 0
  largest_of (x ∷ xs) = largest x xs

  abbrev pub slow_finding : Place → numbers.Number → numbers.Number → Finding
  slow_finding place worst median =
      across_runs place "performance_outlier" "low"
        ("A response took "
          +++ (numbers.as_seconds worst
              +++ ("s vs a median of "
                  +++ (numbers.as_seconds median
                      +++ "s (possible algorithmic-complexity hot spot)."))))
        (field "max_seconds" (numbers.to_value worst)
          (field "median_seconds" (numbers.to_value median) end))

  -- _PERF_MIN_SECONDS and _PERF_OUTLIER_FACTOR
  unfoldable pub compare_times :
      Place → numbers.Number → numbers.Number → Result ClassifyError (List Finding)
  compare_times place worst median =
      if not (numbers.at_most median (numbers.of_nat 0)) && numbers.at_most numbers.half worst
      then (do
        limit ← numbers.times median (numbers.of_nat 5)
        ok (if numbers.at_most limit worst then slow_finding place worst median ∷ [] else []))
      else ok []

  -- One round of the loop over the times, with _PERF_MIN_SAMPLES.
  unfoldable pub performance_outlier :
      Place → List numbers.Number → Result ClassifyError (List Finding)
  performance_outlier place times =
      if leb 4 (length times)
      then (do median ← numbers.median times; compare_times place (largest_of times) median)
      else ok []

  unfoldable pub performance_outliers :
      List (Place × List numbers.Number) → Result ClassifyError (List Finding)
  performance_outliers [] = ok []
  performance_outliers ((place, times) ∷ rest) = do
    here ← performance_outlier place times
    later ← performance_outliers rest
    ok (here ++ later)

  -- max(1, len(series) // 4)
  abbrev pub quartile : List ℕ → ℕ
  quartile series = if ltb (length series / 4) 1 then 1 else length series / 4

  abbrev pub baseline : List ℕ → Result ClassifyError numbers.Number
  baseline series = numbers.median (map numbers.of_nat (take (quartile series) series))

  -- series[-quartile:]
  abbrev pub recent : List ℕ → Result ClassifyError numbers.Number
  recent series =
      numbers.median (map numbers.of_nat (drop (length series - quartile series) series))

  abbrev pub growth_finding :
      Place → ℕ → numbers.Number → numbers.Number → String → String → Finding
  growth_finding place samples before after before_text after_text =
      across_runs place "memory_growth" "medium"
        ("Server RSS grew from ~"
          +++ (before_text
              +++ ("MB to ~" +++ (after_text +++ "MB across runs (possible memory leak)."))))
        (field "baseline_bytes" (int (numbers.to_int before)) (
          field "recent_bytes" (int (numbers.to_int after))
            (field "samples" (int (pos samples)) end)))

  -- The difference is taken only where the factor is reached: _MEM_MIN_DELTA_BYTES
  unfoldable pub compare_delta :
      Place → ℕ → numbers.Number → numbers.Number → Result ClassifyError (List Finding)
  compare_delta place samples before after = do
    delta ← numbers.minus after before
    if numbers.at_most (numbers.of_nat 20971520) delta
        then (do
          before_text ← numbers.as_megabytes before
          after_text ← numbers.as_megabytes after
          ok (growth_finding place samples before after before_text after_text ∷ []))
        else ok []

  -- _MEM_GROWTH_FACTOR
  unfoldable pub compare_memory :
      Place → ℕ → numbers.Number → numbers.Number → Result ClassifyError (List Finding)
  compare_memory place samples before after =
      if numbers.at_most before (numbers.of_nat 0) then ok [] else (do
        doubled ← numbers.times before (numbers.of_nat 2)
        if numbers.at_most doubled after then compare_delta place samples before after else ok [])

  -- One round of the loop over the series, with _MEM_MIN_SAMPLES.
  unfoldable pub growth : Place → List ℕ → Result ClassifyError (List Finding)
  growth place series =
      if leb 8 (length series)
      then (do
        before ← baseline series
        after ← recent series
        compare_memory place (length series) before after)
      else ok []

  unfoldable pub memory_growth : List (Place × List ℕ) → Result ClassifyError (List Finding)
  memory_growth [] = ok []
  memory_growth ((place, series) ∷ rest) = do
    here ← growth place series
    later ← memory_growth rest
    ok (here ++ later)
