-- ===== src/Diagnostics/Singles.antt =====
-- Every finding that is made stands for one run.
use mcp_server_fuzzer.Prelude.{
  ℕ, refl, String, List, [], ◌∷◌, ◌++◌, Option, none, some, arith, All, All-append, both, Holds,
  Holds-any, Holds-bind, length, ltb, leb, not, ◌&&◌,
}
use mcp_server_fuzzer.Json.{get}
use mcp_server_fuzzer.Diagnostics.Runs.{Located}
use mcp_server_fuzzer.Diagnostics.Scans.{
  Texts, outcome_findings, text_findings, internal_error_findings, leak_findings,
  reflection_findings, is_internal_error, jsonrpc_code, first_that, leak_patterns,
  injection_markers, is_reflected,
}
use mcp_server_fuzzer.Diagnostics.Series.{
  Numbers, Place, InputKey, is_meaningful, keep_texts, largest_of, baseline, recent, compare_times,
  performance_outlier, performance_outliers, compare_delta, compare_memory, growth, memory_growth,
  non_determinism, outcomes_by_input, response_times, rss_series,
}
use mcp_server_fuzzer.Diagnostics.Classify.{count_of, series_findings}
use mcp_server_fuzzer.Diagnostics.Counts.{CountsOnce}

non_determinism-CountsOnce :
    (groups : List (InputKey × List String)) → All CountsOnce (non_determinism groups)
unfolding count_of get non_determinism
non_determinism-CountsOnce [] = tt
non_determinism-CountsOnce (((place, input), outcomes) ∷ rest) =
    let later = non_determinism-CountsOnce rest in
    both (All CountsOnce) (ltb 1 (length (keep_texts is_meaningful outcomes))) _ _
      (λ _. (refl, later)) (λ _. later)

module _ (texts : Texts) where
  pub outcome_findings-CountsOnce : (l : Located) → All CountsOnce (outcome_findings texts l)
  unfolding outcome_findings count_of get
  outcome_findings-CountsOnce l = ground arith

  leak_findings-CountsOnce :
      (l : Located) (pattern : Option String) → All CountsOnce (leak_findings texts l pattern)
  unfolding count_of get
  leak_findings-CountsOnce l none = tt
  leak_findings-CountsOnce l (some pattern) = (refl, tt)

  reflection_findings-CountsOnce :
      (l : Located) (marker : Option String) → All CountsOnce (reflection_findings texts l marker)
  unfolding count_of get
  reflection_findings-CountsOnce l none = tt
  reflection_findings-CountsOnce l (some marker) = (refl, tt)

  pub text_findings-CountsOnce :
      (l : Located) (text : String) → All CountsOnce (text_findings texts l text)
  unfolding text_findings count_of get
  text_findings-CountsOnce l text =
      let leak = first_that (λ pattern. texts.search pattern text) leak_patterns in
      let reflected = first_that (is_reflected texts l text) injection_markers in
      All-append CountsOnce (internal_error_findings texts l)
        (leak_findings texts l leak ++ reflection_findings texts l reflected)
        (both (All CountsOnce) (is_internal_error (jsonrpc_code l.run)) _ _ (λ _. (refl, tt))
          (λ _. tt))
        (All-append CountsOnce (leak_findings texts l leak) (reflection_findings texts l reflected)
          (leak_findings-CountsOnce l leak) (reflection_findings-CountsOnce l reflected))

module _ (numbers : Numbers) where
  compare_times-CountsOnce :
      (place : Place) (worst median : numbers.Number)
      → Holds (All CountsOnce) (compare_times numbers place worst median)
  unfolding compare_times count_of get
  compare_times-CountsOnce place worst median =
      both (Holds (All CountsOnce))
        (not (numbers.at_most median (numbers.of_nat 0)) && numbers.at_most numbers.half worst) _ _
        (λ _.
          Holds-bind (All CountsOnce) (numbers.times median (numbers.of_nat 5)) _ (Holds-any _)
            (λ limit _.
              both (All CountsOnce) (numbers.at_most limit worst) _ _ (λ _. (refl, tt)) (λ _. tt)))
        (λ _. tt)

  performance_outlier-CountsOnce :
      (place : Place) (times : List numbers.Number)
      → Holds (All CountsOnce) (performance_outlier numbers place times)
  unfolding performance_outlier
  performance_outlier-CountsOnce place times =
      both (Holds (All CountsOnce)) (leb 4 (length times)) _ _
        (λ _.
          Holds-bind (All CountsOnce) (numbers.median times) _ (Holds-any _)
            (λ median _. compare_times-CountsOnce place (largest_of numbers times) median))
        (λ _. tt)

  performance_outliers-CountsOnce :
      (groups : List (Place × List numbers.Number))
      → Holds (All CountsOnce) (performance_outliers numbers groups)
  unfolding performance_outliers
  performance_outliers-CountsOnce [] = tt
  performance_outliers-CountsOnce ((place, times) ∷ rest) =
      Holds-bind (All CountsOnce) (performance_outlier numbers place times) _
        (performance_outlier-CountsOnce place times)
        (λ here once.
          Holds-bind (All CountsOnce) (performance_outliers numbers rest) _
            (performance_outliers-CountsOnce rest)
            (λ later more. All-append CountsOnce here later once more))

  compare_delta-CountsOnce :
      (place : Place) (samples : ℕ) (before after : numbers.Number)
      → Holds (All CountsOnce) (compare_delta numbers place samples before after)
  unfolding compare_delta count_of get
  compare_delta-CountsOnce place samples before after =
      Holds-bind (All CountsOnce) (numbers.minus after before) _ (Holds-any _) (λ delta _.
        both (Holds (All CountsOnce)) (numbers.at_most (numbers.of_nat 20971520) delta) _ _
          (λ _.
            Holds-bind (All CountsOnce) (numbers.as_megabytes before) _ (Holds-any _)
              (λ before_text _.
                Holds-bind (All CountsOnce) (numbers.as_megabytes after) _ (Holds-any _)
                  (λ after_text _. (refl, tt))))
          (λ _. tt))

  compare_memory-CountsOnce :
      (place : Place) (samples : ℕ) (before after : numbers.Number)
      → Holds (All CountsOnce) (compare_memory numbers place samples before after)
  unfolding compare_memory
  compare_memory-CountsOnce place samples before after =
      both (Holds (All CountsOnce)) (numbers.at_most before (numbers.of_nat 0)) _ _ (λ _. tt)
        (λ _.
          Holds-bind (All CountsOnce) (numbers.times before (numbers.of_nat 2)) _ (Holds-any _)
            (λ doubled _.
              both (Holds (All CountsOnce)) (numbers.at_most doubled after) _ _
                (λ _. compare_delta-CountsOnce place samples before after) (λ _. tt)))

  growth-CountsOnce :
      (place : Place) (series : List ℕ) → Holds (All CountsOnce) (growth numbers place series)
  unfolding growth
  growth-CountsOnce place series =
      both (Holds (All CountsOnce)) (leb 8 (length series)) _ _
        (λ _. Holds-bind (All CountsOnce) (baseline numbers series) _ (Holds-any _) (λ before _.
          Holds-bind (All CountsOnce) (recent numbers series) _ (Holds-any _)
            (λ after _. compare_memory-CountsOnce place (length series) before after)))
        (λ _. tt)

  memory_growth-CountsOnce :
      (groups : List (Place × List ℕ)) → Holds (All CountsOnce) (memory_growth numbers groups)
  unfolding memory_growth
  memory_growth-CountsOnce [] = tt
  memory_growth-CountsOnce ((place, series) ∷ rest) =
      Holds-bind (All CountsOnce) (growth numbers place series) _ (growth-CountsOnce place series)
        (λ here once.
          Holds-bind (All CountsOnce) (memory_growth numbers rest) _ (memory_growth-CountsOnce rest)
            (λ later more. All-append CountsOnce here later once more))

module _ (texts : Texts) (numbers : Numbers) where
  pub series_findings-CountsOnce :
      (runs : List Located) → Holds (All CountsOnce) (series_findings texts numbers runs)
  unfolding series_findings
  series_findings-CountsOnce runs =
      let outcomes = outcomes_by_input texts runs [] in
      Holds-bind (All CountsOnce) (performance_outliers numbers (response_times numbers runs [])) _
        (performance_outliers-CountsOnce numbers (response_times numbers runs []))
        (λ slow once.
          Holds-bind (All CountsOnce) (memory_growth numbers (rss_series runs [])) _
            (memory_growth-CountsOnce numbers (rss_series runs []))
            (λ grown more. All-append CountsOnce slow (non_determinism outcomes ++ grown) once (
              All-append CountsOnce (non_determinism outcomes) grown
                (non_determinism-CountsOnce outcomes) more)))
