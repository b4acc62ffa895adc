-- ===== src/Diagnostics/Scans.antt =====
-- What `classify_fuzz_runs` finds in one run.
use mcp_server_fuzzer.Prelude.{
  ℕ, String, Bool, true, false, ◌&&◌, ◌||◌, List, [], ◌∷◌, ◌++◌, Option, none, some, map, ◌==◌, leb,
  if◌then◌else◌, Result, ok, err, ◌>>=◌,
}
use mcp_server_fuzzer.Prelude.Text.{◌+++◌}
use text.Mathlib.Text.{find?}
use mcp_server_fuzzer.Json.{
  negsuc, int_beq, Value, Fields, end, field, null, int, str, arr, obj, elems, entries, get, truthy,
  is_null, is_int, equals_text,
}
use mcp_server_fuzzer.Diagnostics.{Finding}
use mcp_server_fuzzer.Diagnostics.Runs.{Located}

-- The exceptions that the classification is seen to raise.
pub data ClassifyError : Type 0 where
  type_error overflow_error : ClassifyError

-- Python's own functions on texts: json.dumps(v, default=str) without and with sorted keys, str(v),
-- re.search with IGNORECASE, iteration over a text, len and text[:n].
pub record Texts : Type 0 where
  pub dumps : Value → String
  pub sorted_dumps : Value → String
  pub str_of : Value → String
  pub search : String → String → Bool
  pub characters : String → List String
  pub char_count : String → ℕ
  pub first_characters : ℕ → String → String

abbrev pub leak_patterns : List String
leak_patterns =
    "traceback \\(most recent call last\\)" ∷ "\\bpanic:" ∷ "goroutine \\d+ \\["
    ∷ "\\bsegmentation fault\\b" ∷ "addresssanitizer| undefinedbehaviorsanitizer|\\basan\\b"
    ∷ "\\bnullpointerexception\\b|\\bnzec\\b" ∷ "\\bunhandled exception\\b"
    ∷ "\\bstack backtrace\\b|rust_backtrace" ∷ "\\bfatal error\\b" ∷ "\\bcaused by:\\b" ∷ []

abbrev pub injection_markers : List String
injection_markers =
    "../../../etc/passwd" ∷ "<script>" ∷ "'; DROP TABLE" ∷ "$(id)" ∷ "`id`" ∷ "${jndi:" ∷ "{{7*7}}"
    ∷ "\0" ∷ []

-- part in text
abbrev pub is_in : String → String → Bool
is_in part text = elim (find? text part) [ none ↦ false | some i ↦ true ]

-- "\n".join(parts)
abbrev pub join_lines : List String → String
join_lines [] = ""
join_lines (s ∷ []) = s
join_lines (s ∷ t ∷ rest) = s +++ ("\n" +++ join_lines (t ∷ rest))

-- The first of the texts that passes a test.
abbrev pub first_that : (String → Bool) → List String → Option String
first_that p [] = none
first_that p (s ∷ rest) = if p s then some s else first_that p rest

abbrev pub run_input : Located → Value
run_input l = if l.kind == "tool" then get l.run "args" else get l.run "fuzz_data"

-- error["code"] if both are as they should be
abbrev error_code : Value → Option Value
error_code (obj error) = if is_int (get error "code") then some (get error "code") else none
error_code _ = none

abbrev candidate_code : Value → Option Value
candidate_code (obj candidate) = error_code (get candidate "error")
candidate_code _ = none

abbrev first_code : Option Value → Option Value → Option Value
first_code none code = code
first_code (some v) code = some v

abbrev response_of : Value → Value
response_of (obj result) = get result "response"
response_of _ = null

-- The code of the result's error, or else of the error of the response in it.
unfoldable pub jsonrpc_code : Fields → Option Value
jsonrpc_code run =
    first_code (candidate_code (get run "result")) (candidate_code (response_of (get run "result")))

-- code == -32603: a boolean code is 0 or 1
abbrev pub is_internal_error : Option Value → Bool
is_internal_error (some (int n)) = int_beq n (negsuc 32602)
is_internal_error _ = false

module _ (texts : Texts) where
  abbrev text_or_empty : Value → String
  text_or_empty v = if is_null v then "" else texts.dumps v

  -- What `for line in v` goes through, as texts; v is not empty.
  unfoldable pub lines_of : Value → Result ClassifyError (List String)
  lines_of (arr items) = ok (map texts.str_of (elems items))
  lines_of (obj d) = ok (map (λ e. e.0) (entries d))
  lines_of (str s) = ok (texts.characters s)
  lines_of _ = err type_error

  unfoldable pub crash_part : Value → Result ClassifyError (List String)
  unfolding lines_of
  crash_part (obj crash) =
      let tail = get crash "stderr_tail" in
      if truthy tail then (do lines ← lines_of tail; ok (join_lines lines ∷ [])) else ok []
  crash_part _ = ok []

  abbrev result_part : Fields → List String
  result_part run = if is_null (get run "result") then [] else texts.dumps (get run "result") ∷ []

  abbrev exception_part : Fields → List String
  exception_part run =
      if truthy (get run "exception") then texts.str_of (get run "exception") ∷ [] else []

  unfoldable pub response_text : Fields → Result ClassifyError String
  unfolding crash_part
  response_text run = do
    crash ← crash_part (get run "crash")
    ok (join_lines (result_part run ++ (exception_part run ++ crash)))

  abbrev pub truncated_response : Value → Value
  truncated_response result =
      if is_null result
      then null
      else if leb (texts.char_count (texts.dumps result)) 1200
      then result
      else str (texts.first_characters 1200 (texts.dumps result) +++ "...[truncated]")

  abbrev pub found : Located → String → String → String → Fields → Finding
  found l category severity detail evidence = record {
    category = category;
    severity = severity;
    kind = l.kind;
    target = l.target;
    run = some l.number;
    detail = detail;
    evidence = evidence;
  }

  -- outcome == name
  abbrev pub has_outcome : Located → String → Bool
  has_outcome l name = equals_text (get l.run "outcome") name

  abbrev pub is_crash : Located → Bool
  is_crash l = has_outcome l "crashed" || equals_text (get l.run "error") "server_crashed"

  unfoldable pub outcome_findings : Located → List Finding
  outcome_findings l =
      if is_crash l
      then found l "crash" "critical" "Server process terminated abnormally on this input."
          (field "crash" (get l.run "crash") (field "input" (run_input l) end))
        ∷ []
      else if has_outcome l "oversized_response"
      then found l "oversized_response" "high"
          "Server returned a response exceeding the read cap (possible resource exhaustion / DoS)."
          (field "input" (run_input l) end)
        ∷ []
      else if has_outcome l "timeout"
      then found l "hang" "high"
          "Request did not return before the timeout (possible deadlock / infinite loop / ReDoS)."
          (field "input" (run_input l) end)
        ∷ []
      else if has_outcome l "accepted_malformed" || truthy (get l.run "accepted_malformed")
      then found l "accepted_malformed" "medium"
          "Server returned a non-error response to an attack-pattern or schema-invalid fuzz input."
          (field "input" (run_input l)
            (field "result" (truncated_response (get l.run "result")) end))
        ∷ []
      else []

  abbrev pub internal_error_findings : Located → List Finding
  internal_error_findings l =
      if is_internal_error (jsonrpc_code l.run)
      then found l "internal_error" "medium"
          "Server reported JSON-RPC -32603 Internal error (an unhandled server-side exception)."
          (field "input" (run_input l) end)
        ∷ []
      else []

  abbrev pub leak_findings : Located → Option String → List Finding
  leak_findings l none = []
  leak_findings l (some pattern) =
      found l "error_leakage" "medium"
        "Response/stderr leaked a stack trace or unhandled error (information disclosure)."
        (field "evidence" (str pattern) end)
      ∷ []

  abbrev pub reflection_findings : Located → Option String → List Finding
  reflection_findings l none = []
  reflection_findings l (some marker) =
      found l "injection_reflection" "high"
        "A dangerous input token was reflected verbatim in the response (missing sanitization boundary)."
        (field "marker" (str marker) end)
      ∷ []

  abbrev pub is_reflected : Located → String → String → Bool
  is_reflected l text marker = is_in marker (text_or_empty (run_input l)) && is_in marker text

  -- The findings on a run, whose response text is given.
  unfoldable pub text_findings : Located → String → List Finding
  text_findings l text =
      internal_error_findings l
      ++ (leak_findings l (first_that (λ pattern. texts.search pattern text) leak_patterns)
          ++ reflection_findings l (first_that (is_reflected l text) injection_markers))

  -- One round of the loop over the runs.
  unfoldable pub run_findings : Located → Result ClassifyError (List Finding)
  run_findings l = do text ← response_text l.run; ok (outcome_findings l ++ text_findings l text)
