-- ===== src/Diagnostics.antt =====
-- mcp_fuzzer/diagnostics: the findings on the runs of a fuzzing session. This file has the record of
-- model.py and the counts of classify.py; the children have the rest of classify.py.
pub mod Runs
pub mod Scans
pub mod Series
pub mod Classify
pub mod Counts
pub mod Singles
pub mod Sessions
pub mod Crashes
mod Tests
use mcp_server_fuzzer.Prelude.{
  ℕ, suc, ◌+◌, String, Bool, true, false, List, [], ◌∷◌, Option, none, some, ◌==◌, if◌then◌else◌,
}
use mcp_server_fuzzer.Json.{Fields}
use mcp_server_fuzzer.Json.Table.{lookup, insert}

pub record Finding : Type 0 where
  pub category : String
  pub severity : String
  pub kind : String
  pub target : String
  pub run : Option ℕ
  pub detail : String
  pub evidence : Fields

-- SEVERITY_ORDER.get(severity, 9)
unfoldable pub severity_rank : String → ℕ
severity_rank severity =
    if severity == "critical"
    then 0
    else if severity == "high"
    then 1
    else if severity == "medium"
    then 2
    else if severity == "low"
    then 3
    else if severity == "info"
    then 4
    else 9

-- counts.get(category, 0)
abbrev pub count_or_zero : Option ℕ → ℕ
count_or_zero none = 0
count_or_zero (some n) = n

unfoldable pub count_findings : List Finding → List (String × ℕ) → List (String × ℕ)
count_findings [] counts = counts
count_findings (f ∷ findings) counts =
    count_findings findings
      (insert f.category (suc (count_or_zero (lookup f.category counts))) counts)

pub summarize_findings : List Finding → List (String × ℕ)
summarize_findings findings = count_findings findings []
