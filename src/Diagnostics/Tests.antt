-- ===== src/Diagnostics/Tests.antt =====
-- A session of three runs, and what the theorems on the findings say of it.
use mcp_server_fuzzer.Prelude.{
  ℕ, ◌*◌, ◌-◌, ◌≡◌, refl, inl, inr, String, List, [], ◌∷◌, ◌++◌, leb, Any, length, Result, ok, err,
  true, if◌then◌else◌, ◌==◌,
}
use mcp_server_fuzzer.Json.{pos, Value, Fields, field, end, int, str, arr, obj, nil, cons, get}
use mcp_server_fuzzer.Json.Table.{lookup}
use mcp_server_fuzzer.Diagnostics.{Finding, count_or_zero, summarize_findings}
use mcp_server_fuzzer.Diagnostics.Runs.{
  Located, iter_runs, tool_runs, protocol_runs, locate, extract_tool_runs,
}
use mcp_server_fuzzer.Diagnostics.Scans.{
  ClassifyError, overflow_error, Texts, run_findings, response_text, crash_part, outcome_findings,
  text_findings,
}
use mcp_server_fuzzer.Diagnostics.Series.{
  Numbers, add_to, read_time, response_times, rss_series, outcomes_by_input, performance_outliers,
  memory_growth, non_determinism,
}
use mcp_server_fuzzer.Diagnostics.Classify.{
  scan_run, all_findings, classify_fuzz_runs, series_findings, order_findings,
}
use mcp_server_fuzzer.Diagnostics.Counts.{
  occurrences, total_count, sum_of, count_or_zero-summarize_findings,
}
use mcp_server_fuzzer.Diagnostics.Sessions.{IsRanked, total_count-classify_fuzz_runs}
use mcp_server_fuzzer.Diagnostics.Crashes.{
  IsCrashOf, IsUnscannable, crash-classify_fuzz_runs, classify_fuzz_runs-raises,
}

abbrev text_of : Value → String
text_of (str s) = s
text_of _ = "value"

abbrev texts : Texts
texts = record {
  dumps = text_of;
  sorted_dumps = text_of;
  str_of = text_of;
  search = λ pattern text. pattern == text;
  characters = λ s. s ∷ [];
  char_count = λ s. 0;
  first_characters = λ n s. s;
}

abbrev first_or_zero : List ℕ → ℕ
first_or_zero [] = 0
first_or_zero (n ∷ rest) = n

abbrev number_of_value : Value → ℕ
number_of_value (int (pos n)) = n
number_of_value _ = 0

-- A number from a million on is too large.
abbrev small : ℕ → Result ClassifyError ℕ
small n = if leb n 1000000 then ok n else err overflow_error

abbrev numbers : Numbers
numbers = record {
  Number = ℕ;
  is_nonnegative = λ v. true;
  float_of = λ v. small (number_of_value v);
  of_nat = λ n. n;
  half = 1;
  at_most = leb;
  times = λ a b. small (a * b);
  minus = λ a b. ok (a - b);
  median = λ ns. ok (first_or_zero ns);
  to_int = pos;
  as_seconds = λ n. "n";
  as_megabytes = λ n. ok "n";
  to_value = λ n. int (pos n);
}

abbrev crashed_run : Fields
crashed_run = field "outcome" (str "crashed") (field "args" (str "x") end)

abbrev accepted_run : Fields
accepted_run = field "outcome" (str "accepted_malformed") (field "args" (str "y") end)

abbrev session : Fields
session =
    field "echo"
      (arr (cons (obj accepted_run) (cons (obj crashed_run) (cons (obj accepted_run) nil)))) end

abbrev crash : Located
crash = record { kind = "tool"; target = "echo"; number = 2; run = crashed_run }

abbrev first_accepted : Located
first_accepted = record { kind = "tool"; target = "echo"; number = 1; run = accepted_run }

abbrev second_accepted : Located
second_accepted = record { kind = "tool"; target = "echo"; number = 3; run = accepted_run }

abbrev findings_of : Located → List Finding
findings_of l = outcome_findings texts l ++ text_findings texts l ""

abbrev raw : List Finding
raw = findings_of first_accepted ++ (findings_of crash ++ (findings_of second_accepted ++ []))

runs_found : iter_runs session end ≡ first_accepted ∷ crash ∷ second_accepted ∷ []
unfolding iter_runs tool_runs protocol_runs locate extract_tool_runs
runs_found = refl

abbrev classified : List Finding
classified = order_findings texts (raw ++ [])

returned : classify_fuzz_runs texts numbers session end ≡ ok classified
unfolding classify_fuzz_runs series_findings performance_outliers memory_growth non_determinism
    response_times rss_series outcomes_by_input add_to all_findings scan_run read_time run_findings
    response_text crash_part get iter_runs tool_runs protocol_runs locate extract_tool_runs
returned = refl

crash_there : Any (λ m. m ≡ crash) (iter_runs session end)
crash_there = rw runs_found (inr (inl refl))

crash-classify_fuzz_runs_example : Any (IsCrashOf crash) classified
unfolding get
crash-classify_fuzz_runs_example =
    crash-classify_fuzz_runs texts numbers session end crash crash_there (inl refl) returned

total_count-classify_fuzz_runs_example :
    IsRanked classified
    × ((here : List Finding) × (across : List Finding) × (all_findings texts numbers
            (iter_runs session end)
          ≡ ok here)
        × (series_findings texts numbers (iter_runs session end) ≡ ok across)
        × (total_count "accepted_malformed" classified
            ≡ occurrences "accepted_malformed" (here ++ across)))
total_count-classify_fuzz_runs_example =
    total_count-classify_fuzz_runs texts numbers session end "accepted_malformed" returned

abbrev slow_run : Fields
slow_run = field "response_time" (int (pos 9000000)) end

abbrev slow_session : Fields
slow_session = field "echo" (arr (cons (obj accepted_run) (cons (obj slow_run) nil))) end

slow_there : Any (λ l. IsUnscannable numbers l.run) (iter_runs slow_session end)
unfolding iter_runs tool_runs protocol_runs locate extract_tool_runs get
slow_there = inr (inl (inr (refl, refl)))

classify_fuzz_runs-raises_example :
    (e : ClassifyError) × (classify_fuzz_runs texts numbers slow_session end ≡ err e)
classify_fuzz_runs-raises_example =
    classify_fuzz_runs-raises texts numbers slow_session end slow_there

count_or_zero-summarize_findings_example :
    (count_or_zero (lookup "crash" (summarize_findings raw)) ≡ occurrences "crash" raw)
    × (sum_of (summarize_findings raw) ≡ length raw)
count_or_zero-summarize_findings_example = count_or_zero-summarize_findings "crash" raw
