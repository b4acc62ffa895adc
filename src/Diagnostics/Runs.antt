-- ===== src/Diagnostics/Runs.antt =====
-- `_iter_runs` of mcp_fuzzer/diagnostics/classify.py, with `extract_tool_runs` of mcp_fuzzer/types.py.
use mcp_server_fuzzer.Prelude.{ℕ, suc, String, ◌||◌, List, [], ◌∷◌, ◌++◌, if◌then◌else◌}
use mcp_server_fuzzer.Json.{Value, Fields, end, field, bool, obj, arr, elems, get, has, truthy}

abbrev copy_if_there : Fields → String → Fields → Fields
copy_if_there entry key rest = if has entry key then field key (get entry key) rest else rest

-- The run that stands for a tool entry with an error and no runs.
unfoldable pub synthetic_run : Fields → Fields
synthetic_run entry = field "success" (bool (truthy (get entry "success"))) (
    field "safety_blocked" (bool (truthy (get entry "safety_blocked"))) (
      field "safety_sanitized" (bool (truthy (get entry "safety_sanitized"))) (
        copy_if_there entry "args" (
          copy_if_there entry "label"
            (copy_if_there entry "error" (copy_if_there entry "exception" end))))))

-- The items of a list, and none of anything else.
abbrev pub list_items : Value → List Value
list_items (arr items) = elems items
list_items _ = []

abbrev or_synthetic : Fields → List Value → List Value
or_synthetic entry [] =
    if has entry "error" || has entry "exception" then obj (synthetic_run entry) ∷ [] else []
or_synthetic entry (run ∷ runs) = run ∷ runs

abbrev runs_of_entry : Fields → Value → List Value
runs_of_entry entry (arr runs) = elems runs
runs_of_entry entry _ =
    or_synthetic entry (list_items (get entry "realistic") ++ list_items (get entry "aggressive"))

-- `extract_tool_runs`, without the metadata.
unfoldable pub extract_tool_runs : Value → List Value
extract_tool_runs (arr runs) = elems runs
extract_tool_runs (obj entry) = runs_of_entry entry (get entry "runs")
extract_tool_runs _ = []

-- (kind, target, run_index, run_dict)
pub record Located : Type 0 where
  pub kind : String
  pub target : String
  pub number : ℕ
  pub run : Fields

-- for index, run in enumerate(runs): the runs that are dicts
unfoldable pub locate : String → String → ℕ → List Value → List Located
locate kind target number [] = []
locate kind target number (obj run ∷ runs) =
    record { kind = kind; target = target; number = number; run = run }
    ∷ locate kind target (suc number) runs
locate kind target number (v ∷ runs) = locate kind target (suc number) runs

unfoldable pub tool_runs : Fields → List Located
tool_runs end = []
tool_runs (field tool_name entry rest) =
    locate "tool" tool_name 1 (extract_tool_runs entry) ++ tool_runs rest

unfoldable pub protocol_runs : Fields → List Located
protocol_runs end = []
protocol_runs (field protocol_type runs rest) =
    locate "protocol" protocol_type 1 (list_items runs) ++ protocol_runs rest

-- The results are dicts; None counts as an empty one.
unfoldable pub iter_runs : Fields → Fields → List Located
iter_runs tool_results protocol_results = tool_runs tool_results ++ protocol_runs protocol_results
