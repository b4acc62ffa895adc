-- ===== src/Transport/ToolDiscovery/Reports.antt =====
-- When the discovery of tools reports success, and what it returns.
use mcp_server_fuzzer.Prelude.{
  ℕ, ◌<◌, String, ◌≡◌, ◌≢◌, refl, ◌↔◌, ◌⊎◌, inl, inr, Bool, Bool-cases, true, false, ◌||◌, arith,
  both, eq_iff, if◌then◌else◌, Result, Result-cases, ok, err,
}
use mcp_server_fuzzer.Json.{Value, Fields, str, arr, obj, nil, cons, end, field, get, has, truthy}
use mcp_server_fuzzer.Transport.ToolDiscovery.{
  Python, Report, is_ok, failed, classify_tool_discovery_error, classify_tools_list_response,
  length_of, report_by, is_in, is_auth_code, message_of, classify_error_value, without_tools,
  tools_in, tools_in_result, counted, report_tools, get_tools,
}

abbrev Fails : Report → Type 0
Fails report = is_ok report ≡ false

report_by-Fails :
    (garbled silent unconnected crashed denied : Bool) (exc : String)
    → Fails (report_by garbled silent unconnected crashed denied exc)
unfolding report_by
report_by-Fails garbled silent unconnected crashed denied exc = ground arith

module _ (python : Python) where
  -- A dict with tools of its own, or else in its result.
  abbrev pub IsInResult : Value → Value → Type 0
  IsInResult (obj result) tools = (has result "tools" ≡ true) × (get result "tools" ≡ tools)
  IsInResult _ tools = ⊥

  abbrev pub IsOffered : Result String Value → Value → Type 0
  IsOffered (ok (obj response)) tools =
      if has response "tools"
      then get response "tools" ≡ tools
      else IsInResult (get response "result") tools
  IsOffered _ tools = ⊥

  -- A text that is not empty has a character.
  abbrev pub CountsCharacters : Type 0
  CountsCharacters = (s : String) → s ≢ "" → 0 < python.char_count s

  length_of-pos :
      (v : Value) (n : ℕ) → CountsCharacters → truthy v ≡ true → length_of python v ≡ ok n → 0 < n
  length_of-pos (arr nil) n h t e = ground arith
  length_of-pos (arr (cons v vs)) n h t e = ground (arith, e)
  length_of-pos (obj end) n h t e = ground arith
  length_of-pos (obj (field k v d)) n h t e = ground (arith, e)
  length_of-pos (str s) n h t e = ground (arith, e, t, h s, eq_iff s "")
  length_of-pos _ n h t e = ground arith

  classify_tool_discovery_error-Fails :
      (exc : String) → Fails (classify_tool_discovery_error python exc)
  unfolding classify_tool_discovery_error
  classify_tool_discovery_error-Fails exc = report_by-Fails _ _ _ _ _ exc

  classify_error_value-Fails : (error : Value) → Fails (classify_error_value python error)
  classify_error_value-Fails (obj error) =
      both Fails
        (is_auth_code python (get error "code")
          || is_in "unauthorized" (python.lower (message_of python error)))
        _ _ (λ _. refl) (λ _. refl)
  classify_error_value-Fails _ = refl

  without_tools-Fails : (response : Fields) → Fails (without_tools python response)
  unfolding classify_tools_list_response
  without_tools-Fails response = elim (Bool-cases (has response "error")) [
    | inl there ↦ ground (arith, there, classify_error_value-Fails (get response "error"))
    | inr missing ↦ ground (arith, missing)
  ]

  -- What stands for a failure: an empty list and a report that is not ok.
  abbrev pub HasFailed : Value × Report → Type 0
  HasFailed (tools, report) = (tools ≡ arr nil) × (is_ok report ≡ false)

  -- What stands for the discovery of tools.
  abbrev pub HasFound : Value → ℕ → Value × Report → Type 0
  HasFound v n (tools, report) = (tools ≡ v) × (is_ok report ≡ true) × (report.tool_count ≡ n)

  counted-cases :
      (v : Value) (length : Result String ℕ)
      → ((n : ℕ) → length ≡ ok n → 0 < n)
      → ((n : ℕ) × (length ≡ ok n) × HasFound v n (counted python v length))
        ⊎ HasFailed (counted python v length)
  counted-cases v (ok n) h = inl (n, refl, (refl, ground (arith, h n refl), refl))
  counted-cases v (err exc) h = inr (refl, classify_tool_discovery_error-Fails exc)

  tools_in_result_iff :
      (response : Fields) (result tools : Value)
      → (tools_in_result python response result ≡ ok tools) ↔ IsInResult result tools
  tools_in_result_iff response (obj result) tools = ground arith
  tools_in_result_iff response _ tools = ground arith

  tools_in_iff :
      (response : Fields) (tools : Value)
      → (tools_in python response ≡ ok tools) ↔ IsOffered (ok (obj response)) tools
  tools_in_iff response tools = elim (Bool-cases (has response "tools")) [
    | inl there ↦ rw there (ground arith)
    | inr missing ↦ rw missing (tools_in_result_iff response (get response "result") tools)
  ]

  tools_in_result-Fails :
      (response : Fields) (result : Value) (report : Report)
      → tools_in_result python response result ≡ err report
      → Fails report
  tools_in_result-Fails response (obj result) report e =
      ground (arith, e, without_tools-Fails response)
  tools_in_result-Fails response _ report e = ground (arith, e, without_tools-Fails response)

  tools_in-Fails :
      (response : Fields) (report : Report) → tools_in python response ≡ err report → Fails report
  tools_in-Fails response report e =
      ground (arith, e, tools_in_result-Fails response (get response "result") report)

  -- Tools that are offered, that are not empty and that have a length.
  abbrev pub Usable : Result String Value → Value → ℕ → Type 0
  Usable response v n = IsOffered response v × (truthy v ≡ true) × (length_of python v ≡ ok n)

  report_tools-cases :
      (v : Value)
      → CountsCharacters
      → ((n : ℕ) × (truthy v ≡ true)
          × (length_of python v ≡ ok n)
          × HasFound v n (report_tools python (ok v)))
        ⊎ HasFailed (report_tools python (ok v))
  report_tools-cases v h = elim (Bool-cases (truthy v)) [
    | inr empty ↦ inr (rw empty (refl, refl))
    | inl full ↦ elim (counted-cases v (length_of python v) (λ n e. length_of-pos v n h full e)) [
      | inl (n, e, found) ↦ inl (n, full, e, rw full found)
      | inr failed ↦ inr (rw full failed)
    ]
  ]

  get_tools-cases :
      (response : Result String Value)
      → CountsCharacters
      → ((v : Value) × (n : ℕ) × Usable response v n × HasFound v n (get_tools python response))
        ⊎ HasFailed (get_tools python response)
  unfolding get_tools
  get_tools-cases (err exc) h = inr (refl, classify_tool_discovery_error-Fails exc)
  get_tools-cases (ok (obj response)) h = elim (Result-cases (tools_in python response)) [
    | inr (report, e) ↦ inr (rw e (refl, tools_in-Fails response report e))
    | inl (v, e) ↦ elim (report_tools-cases v h) [
      | inl (n, full, counted, found) ↦
          inl (v, n, ((tools_in_iff response v).0 e, full, counted), rw e found)
      | inr failed ↦ inr (rw e failed)
    ]
  ]
  get_tools-cases (ok _) h = inr (refl, refl)

  get_tools-found :
      (response : Result String Value) (v : Value) (n : ℕ)
      → CountsCharacters
      → Usable response v n
      → HasFound v n (get_tools python response)
  unfolding get_tools
  get_tools-found (ok (obj response)) v n h (offered, full, counted) =
      rw ((tools_in_iff response v).1 offered, full, counted)
        (refl, ground (arith, length_of-pos v n h full counted), refl)
  get_tools-found (ok _) v n h (offered, full, counted) = absurd offered
  get_tools-found (err exc) v n h (offered, full, counted) = absurd offered

  -- If a text that is not empty has a character: get_tools returns the tools that the response offers,
  -- with a report that is ok and has their number, whenever these are not empty and have a length; and
  -- else it returns an empty list with a report that is not ok.
  pub get_tools-HasFound :
      (response : Result String Value)
      → CountsCharacters
      → ((v : Value) (n : ℕ) → Usable response v n → HasFound v n (get_tools python response))
        × (((v : Value) × (n : ℕ) × Usable response v n) ⊎ HasFailed (get_tools python response))
  get_tools-HasFound response h = (
    (λ v n usable. get_tools-found response v n h usable),
    elim (get_tools-cases response h) [
      | inl (v, n, usable, found) ↦ inl (v, n, usable)
      | inr failed ↦ inr failed
    ],
  )
