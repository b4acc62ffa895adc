-- ===== src/Diagnostics/Classify.antt =====
-- `classify_fuzz_runs`: the findings on a session's runs, with the duplicates merged, in order.
use mcp_server_fuzzer.Prelude.{
  ℕ, suc, String, Bool, false, not, ◌&&◌, ◌||◌, List, [], ◌∷◌, ◌++◌, Option, none, some, any,
  nat_beq, ◌==◌, ltb, if◌then◌else◌, Result, ok, ◌>>=◌,
}
use mcp_server_fuzzer.Prelude.Text.{text_lt}
use mcp_server_fuzzer.Json.{
  pos, Value, Fields, end, field, int, str, arr, obj, elems, items_of, get, put,
}
use mcp_server_fuzzer.Json.Table.{lookup, insert}
use mcp_server_fuzzer.Diagnostics.{Finding, severity_rank}
use mcp_server_fuzzer.Diagnostics.Runs.{Located, iter_runs}
use mcp_server_fuzzer.Diagnostics.Scans.{ClassifyError, Texts, run_findings}
use mcp_server_fuzzer.Diagnostics.Series.{
  Numbers, rss_series, outcomes_by_input, non_determinism, read_time, response_times,
  performance_outliers, memory_growth,
}

-- d.pop(key, None), the dict that is left
unfoldable pub without : Fields → String → Fields
without end key = end
without (field k v d) key = if k == key then d else field k v (without d key)

-- `existing.evidence["runs"]`: only `merge_duplicate_finding` sets it, to a list.
abbrev pub runs_in : Fields → List Value
runs_in evidence = elim (get evidence "runs") [ arr runs ↦ elems runs | _ ↦ [] ]

abbrev is_number : ℕ → Value → Bool
is_number n (int (pos m)) = nat_beq n m
is_number n _ = false

abbrev add_run : Option ℕ → List Value → List Value
add_run none runs = runs
add_run (some n) runs = if any (is_number n) runs then runs else runs ++ (int (pos n) ∷ [])

-- evidence.get("count", 1), where only `merge_duplicate_finding` sets it
abbrev pub number_or_one : Value → ℕ
number_or_one (int (pos n)) = n
number_or_one _ = 1

unfoldable pub count_of : Finding → ℕ
count_of f = number_or_one (get f.evidence "count")

unfoldable pub merge_duplicate_finding : Finding → Finding → Finding
merge_duplicate_finding existing incoming = record existing {
  evidence =
      put
        (put existing.evidence "runs" (
          arr (items_of (add_run incoming.run (add_run existing.run (runs_in existing.evidence))))))
        "count" (int (pos (suc (count_of existing))));
  run = none;
}

module _ (texts : Texts) where
  -- `_finding_dedupe_key`
  unfoldable pub dedupe_key : Finding → String
  dedupe_key f = texts.sorted_dumps (
      obj (
        field "category" (str f.category) (
          field "kind" (str f.kind) (
            field "target" (str f.target) (
              field "detail" (str f.detail) (
                field "input" (get f.evidence "input") (
                  field "result" (get f.evidence "result") (
                    field "evidence" (obj (without (without f.evidence "input") "result"))
                      end))))))))

  abbrev pub put_or_merge : Finding → Option Finding → Finding
  put_or_merge f none = f
  put_or_merge f (some existing) = merge_duplicate_finding existing f

  unfoldable pub group : List Finding → List (String × Finding) → List (String × Finding)
  group [] grouped = grouped
  group (f ∷ findings) grouped =
      group findings
        (insert (dedupe_key f) (put_or_merge f (lookup (dedupe_key f) grouped)) grouped)

  abbrev pub values : List (String × Finding) → List Finding
  values [] = []
  values ((key, f) ∷ rest) = f ∷ values rest

  unfoldable pub dedupe_findings : List Finding → List Finding
  dedupe_findings findings = values (group findings [])

-- (rank, category) of the first is less than that of the second
abbrev pub sorts_before : Finding → Finding → Bool
sorts_before f g =
    ltb (severity_rank f.severity) (severity_rank g.severity)
    || (nat_beq (severity_rank f.severity) (severity_rank g.severity)
        && text_lt f.category g.category)

-- A stable sort.
unfoldable pub insert_finding : Finding → List Finding → List Finding
insert_finding f [] = f ∷ []
insert_finding f (g ∷ gs) = if sorts_before g f then g ∷ insert_finding f gs else f ∷ g ∷ gs

unfoldable pub sort_findings : List Finding → List Finding
sort_findings [] = []
sort_findings (f ∷ fs) = insert_finding f (sort_findings fs)

abbrev pub is_accepted : Finding → Bool
is_accepted f = f.category == "accepted_malformed"

unfoldable pub keep : (Finding → Bool) → List Finding → List Finding
keep p [] = []
keep p (f ∷ fs) = let rest = keep p fs in if p f then f ∷ rest else rest

module _ (texts : Texts) where
  -- Only the accepted inputs are deduplicated.
  unfoldable pub order_findings : List Finding → List Finding
  order_findings findings = sort_findings (
      dedupe_findings texts (keep is_accepted findings) ++ keep (λ f. not (is_accepted f)) findings)

module _ (texts : Texts) (numbers : Numbers) where
  -- One round of the loop over the runs: its response time is read after its texts are scanned.
  unfoldable pub scan_run : Located → Result ClassifyError (List Finding)
  scan_run l = do
    here ← run_findings texts l
    time ← read_time numbers (get l.run "response_time")
    ok here

  unfoldable pub all_findings : List Located → Result ClassifyError (List Finding)
  all_findings [] = ok []
  all_findings (l ∷ runs) = do here ← scan_run l; later ← all_findings runs; ok (here ++ later)

  -- The findings across the runs.
  unfoldable pub series_findings : List Located → Result ClassifyError (List Finding)
  series_findings runs = do
    slow ← performance_outliers numbers (response_times numbers runs [])
    grown ← memory_growth numbers (rss_series runs [])
    ok (slow ++ (non_determinism (outcomes_by_input texts runs []) ++ grown))

  unfoldable pub classify_fuzz_runs : Fields → Fields → Result ClassifyError (List Finding)
  classify_fuzz_runs tool_results protocol_results =
      let runs = iter_runs tool_results protocol_results in
      (do
        here ← all_findings runs
        across ← series_findings runs
        ok (order_findings texts (here ++ across)))
