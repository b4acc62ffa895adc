-- ===== src/Diagnostics/Sessions.antt =====
-- The classification of a whole session: what it finds, in which order, and when it raises.
use mcp_server_fuzzer.Prelude.{
  ◌≤◌, ◌≡◌, inl, inr, String, List, [], ◌∷◌, ◌++◌, arith, All, All-append, Result-cases, ok,
}
use mcp_server_fuzzer.Json.{Fields, get}
use mcp_server_fuzzer.Diagnostics.{Finding, severity_rank}
use mcp_server_fuzzer.Diagnostics.Runs.{Located, iter_runs}
use mcp_server_fuzzer.Diagnostics.Scans.{
  Texts, outcome_findings, text_findings, run_findings, response_text,
}
use mcp_server_fuzzer.Diagnostics.Series.{Numbers, read_time}
use mcp_server_fuzzer.Diagnostics.Classify.{
  scan_run, all_findings, insert_finding, sort_findings, order_findings, series_findings,
  classify_fuzz_runs,
}
use mcp_server_fuzzer.Diagnostics.Counts.{
  CountsOnce, occurrences, total_count, total_count-order_findings,
}
use mcp_server_fuzzer.Diagnostics.Singles.{
  outcome_findings-CountsOnce, text_findings-CountsOnce, series_findings-CountsOnce,
}

-- No finding is ranked before an earlier one.
abbrev pub IsRanked : List Finding → Type 0
IsRanked [] = Unit
IsRanked (f ∷ []) = Unit
IsRanked (f ∷ g ∷ rest) =
    (severity_rank f.severity ≤ severity_rank g.severity) × IsRanked (g ∷ rest)

insert_finding-IsRanked :
    (f : Finding) (fs : List Finding) → IsRanked fs → IsRanked (insert_finding f fs)
unfolding insert_finding
insert_finding-IsRanked f [] h = tt
insert_finding-IsRanked f (g ∷ []) h = ground arith
insert_finding-IsRanked f (g ∷ h ∷ rest) (le, ranked) =
    ground (arith, insert_finding-IsRanked f (h ∷ rest) ranked)

sort_findings-IsRanked : (fs : List Finding) → IsRanked (sort_findings fs)
unfolding sort_findings
sort_findings-IsRanked [] = tt
sort_findings-IsRanked (f ∷ fs) =
    insert_finding-IsRanked f (sort_findings fs) (sort_findings-IsRanked fs)

module _ (texts : Texts) (numbers : Numbers) where
  -- What one round adds, where it does not raise.
  pub all_findings-cons :
      (l : Located) (runs : List Located) {findings : List Finding}
      → all_findings texts numbers (l ∷ runs) ≡ ok findings
      → (text : String) × (later : List Finding) × (all_findings texts numbers runs ≡ ok later)
        × (findings ≡ (outcome_findings texts l ++ text_findings texts l text) ++ later)
  unfolding all_findings scan_run run_findings
  all_findings-cons l runs e = elim (Result-cases (response_text texts l.run)) [
    | inr (exception, raised) ↦ ground (arith, e, raised)
    | inl (text, read) ↦ elim (Result-cases (read_time numbers (get l.run "response_time"))) [
      | inr (exception, raised) ↦ ground (arith, e, read, raised)
      | inl (time, timed) ↦ elim (Result-cases (all_findings texts numbers runs)) [
        | inr (exception, raised) ↦ ground (arith, e, read, timed, raised)
        | inl (later, found) ↦ (text, later, found, ground (arith, e, read, timed, found))
      ]
    ]
  ]

  all_findings-CountsOnce :
      (runs : List Located) {findings : List Finding}
      → all_findings texts numbers runs ≡ ok findings
      → All CountsOnce findings
  unfolding all_findings
  all_findings-CountsOnce [] e = ground (arith, e)
  all_findings-CountsOnce (l ∷ runs) e =
      let (text, later, found, same) = all_findings-cons l runs e in
      rw same (
        All-append CountsOnce (outcome_findings texts l ++ text_findings texts l text) later
          (All-append CountsOnce (outcome_findings texts l) (text_findings texts l text)
            (outcome_findings-CountsOnce texts l) (text_findings-CountsOnce texts l text))
          (all_findings-CountsOnce runs found))

  -- What the classification is, where it does not raise.
  pub classify_fuzz_runs-eq :
      (tool_results protocol_results : Fields) {result : List Finding}
      → classify_fuzz_runs texts numbers tool_results protocol_results ≡ ok result
      → let runs = iter_runs tool_results protocol_results in
        (here : List Finding) × (across : List Finding) × (all_findings texts numbers runs
          ≡ ok here)
        × (series_findings texts numbers runs ≡ ok across)
        × (result ≡ order_findings texts (here ++ across))
  unfolding classify_fuzz_runs
  classify_fuzz_runs-eq tool_results protocol_results e =
      let runs = iter_runs tool_results protocol_results in
      elim (Result-cases (all_findings texts numbers runs)) [
        | inr (exception, raised) ↦ ground (arith, e, raised)
        | inl (here, found) ↦ elim (Result-cases (series_findings texts numbers runs)) [
          | inr (exception, raised) ↦ ground (arith, e, found, raised)
          | inl (across, done) ↦ (here, across, found, done, ground (arith, e, found, done))
        ]
      ]

  -- Where classify_fuzz_runs returns a list, it is in the order of the severity ranks, and for every
  -- category the counts of its findings add up to the number of findings with this category that the
  -- runs have, one by one and taken together.
  pub total_count-classify_fuzz_runs :
      (tool_results protocol_results : Fields) (category : String) {result : List Finding}
      → classify_fuzz_runs texts numbers tool_results protocol_results ≡ ok result
      → let runs = iter_runs tool_results protocol_results in
        IsRanked result
        × ((here : List Finding) × (across : List Finding) × (all_findings texts numbers runs
              ≡ ok here)
            × (series_findings texts numbers runs ≡ ok across)
            × (total_count category result ≡ occurrences category (here ++ across)))
  unfolding order_findings
  total_count-classify_fuzz_runs tool_results protocol_results category e =
      let runs = iter_runs tool_results protocol_results in
      let (here, across, found, done, same) =
        classify_fuzz_runs-eq tool_results protocol_results e in
      let once : All CountsOnce across =
        rw done at (series_findings-CountsOnce texts numbers runs) in
      (
        rw same (sort_findings-IsRanked _),
        (
          here,
          across,
          found,
          done,
          rw same (
              total_count-order_findings texts category (here ++ across)
                (All-append CountsOnce here across (all_findings-CountsOnce runs found) once)),
        ),
      )
