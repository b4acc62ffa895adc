-- ===== src/Transport/ToolDiscovery/Tests.antt =====
-- A tools/list response with two tools, and what the discovery makes of it.
use mcp_server_fuzzer.Prelude.{
  ℕ, String, ◌⊎◌, false, arith, Result, ok, ◌==◌, eq_iff, if◌then◌else◌,
}
use mcp_server_fuzzer.Json.{Value, str, arr, obj, nil, cons, end, field}
use mcp_server_fuzzer.Transport.ToolDiscovery.{Python, get_tools}
use mcp_server_fuzzer.Transport.ToolDiscovery.Reports.{
  CountsCharacters, Usable, HasFound, HasFailed, get_tools-HasFound,
}

abbrev python : Python
python = record {
  lower = λ s. s;
  str_of = λ v. "value";
  type_name = λ v. "type";
  keys_text = λ d. "[]";
  char_count = λ s. if s == "" then 0 else 1;
  no_length = λ v. "object has no len()";
  float_is = λ x n. false;
}

abbrev two_tools : Value
two_tools =
    arr (cons (obj (field "name" (str "a") end)) (cons (obj (field "name" (str "b") end)) nil))

abbrev listed : Result String Value
listed = ok (obj (field "result" (obj (field "tools" two_tools end)) end))

counts : CountsCharacters python
counts s named = ground (arith, named, eq_iff s "")

get_tools-HasFound_example :
    ((v : Value) (n : ℕ) → Usable python listed v n → HasFound python v n (get_tools python listed))
    × (((v : Value) × (n : ℕ) × Usable python listed v n)
        ⊎ HasFailed python (get_tools python listed))
get_tools-HasFound_example = get_tools-HasFound python listed counts
