-- ===== src/Diagnostics/Crashes.antt =====
-- Every crash is reported, and which sessions cannot be classified.
use mathlib.Core.Path.{subst}
use mcp_server_fuzzer.Prelude.{
  ◌⊎◌, ◌≡◌, ◌↔◌, refl, sym, inl, inr, Bool, true, not, List, [], ◌∷◌, ◌++◌, some, arith, Any,
  Result-cases, ok, err,
}
use mcp_server_fuzzer.Json.{Value, Fields, null, bool, int, float, str, arr, obj, get, truthy}
use mcp_server_fuzzer.Json.Laws.{equals_text_iff}
use mcp_server_fuzzer.Diagnostics.{Finding}
use mcp_server_fuzzer.Diagnostics.Runs.{Located, iter_runs}
use mcp_server_fuzzer.Diagnostics.Scans.{
  ClassifyError, type_error, overflow_error, Texts, lines_of, crash_part, response_text,
  outcome_findings, text_findings, run_findings,
}
use mcp_server_fuzzer.Diagnostics.Series.{Numbers, is_time, read_time}
use mcp_server_fuzzer.Diagnostics.Classify.{
  scan_run, all_findings, keep, is_accepted, dedupe_findings, insert_finding, sort_findings,
  order_findings, classify_fuzz_runs,
}
use mcp_server_fuzzer.Diagnostics.Sessions.{all_findings-cons, classify_fuzz_runs-eq}

-- A finding that reports the crash of this very run.
abbrev pub IsCrashOf : Located → Finding → Type 0
IsCrashOf l f =
    (f.category ≡ "crash") × (f.kind ≡ l.kind) × (f.target ≡ l.target) × (f.run ≡ some l.number)

module _ (P : Finding → Type 0) where
  Any-append_left : (fs gs : List Finding) → Any P fs → Any P (fs ++ gs)
  Any-append_left (f ∷ fs) gs (inl here) = inl here
  Any-append_left (f ∷ fs) gs (inr later) = inr (Any-append_left fs gs later)
  Any-append_left [] gs h = absurd h

  Any-append_right : (fs gs : List Finding) → Any P gs → Any P (fs ++ gs)
  Any-append_right [] gs h = h
  Any-append_right (f ∷ fs) gs h = inr (Any-append_right fs gs h)

  Any-keep :
      (p : Finding → Bool) (fs : List Finding)
      → ((f : Finding) → P f → p f ≡ true)
      → Any P fs
      → Any P (keep p fs)
  unfolding keep
  Any-keep p (f ∷ fs) passes (inl here) = ground (arith, here, passes f here)
  Any-keep p (f ∷ fs) passes (inr later) = ground (arith, Any-keep p fs passes later)
  Any-keep p [] passes h = absurd h

  Any-insert_finding :
      (f : Finding) (fs : List Finding) → Any P (f ∷ fs) → Any P (insert_finding f fs)
  unfolding insert_finding
  Any-insert_finding f [] h = h
  Any-insert_finding f (g ∷ gs) h = ground (arith, h, Any-insert_finding f gs)

  Any-sort_findings : (fs : List Finding) → Any P fs → Any P (sort_findings fs)
  unfolding sort_findings
  Any-sort_findings (f ∷ fs) (inl here) = Any-insert_finding f (sort_findings fs) (inl here)
  Any-sort_findings (f ∷ fs) (inr later) =
      Any-insert_finding f (sort_findings fs) (inr (Any-sort_findings fs later))
  Any-sort_findings [] h = absurd h

-- A run with the outcome, or else the error, of a crash.
abbrev pub IsCrashed : Fields → Type 0
IsCrashed run = (get run "outcome" ≡ str "crashed") ⊎ (get run "error" ≡ str "server_crashed")

-- A value that is not empty and that no loop can go through.
abbrev pub IsNotIterable : Value → Type 0
IsNotIterable (arr items) = ⊥
IsNotIterable (obj d) = ⊥
IsNotIterable (str s) = ⊥
IsNotIterable v = truthy v ≡ true

-- The record of a crash whose stderr_tail is such a value.
abbrev pub IsUnreadable : Value → Type 0
IsUnreadable (obj crash) = IsNotIterable (get crash "stderr_tail")
IsUnreadable _ = ⊥

module _ (texts : Texts) where
  crash-found : (l : Located) → IsCrashed l.run → Any (IsCrashOf l) (outcome_findings texts l)
  unfolding outcome_findings
  crash-found l crashed = ground (
    arith,
    crashed,
    equals_text_iff (get l.run "outcome") "crashed",
    equals_text_iff (get l.run "error") "server_crashed",
  )

  lines_of-raises_iff :
      (tail : Value)
      → ((truthy tail ≡ true) × (lines_of texts tail ≡ err type_error)) ↔ IsNotIterable tail
  unfolding lines_of
  lines_of-raises_iff (arr items) = ground arith
  lines_of-raises_iff (obj d) = ground arith
  lines_of-raises_iff (str s) = ground arith
  lines_of-raises_iff null = ground arith
  lines_of-raises_iff (bool b) = ground arith
  lines_of-raises_iff (int n) = ground arith
  lines_of-raises_iff (float x) = ground arith

  crash_part-raises_iff :
      (crash : Value) → (crash_part texts crash ≡ err type_error) ↔ IsUnreadable crash
  unfolding crash_part
  crash_part-raises_iff (obj crash) =
      let iff = lines_of-raises_iff (get crash "stderr_tail") in
      elim (Result-cases (lines_of texts (get crash "stderr_tail"))) [
        | inl (lines, read) ↦ ground (arith, read, iff)
        | inr (e, raised) ↦ ground (arith, raised, iff)
      ]
  crash_part-raises_iff _ = ground arith

  response_text-raises_iff :
      (run : Fields) → (response_text texts run ≡ err type_error) ↔ IsUnreadable (get run "crash")
  unfolding response_text
  response_text-raises_iff run =
      let iff = crash_part-raises_iff (get run "crash") in
      elim (Result-cases (crash_part texts (get run "crash"))) [
        | inl (lines, read) ↦ ground (arith, read, iff)
        | inr (e, raised) ↦ ground (arith, raised, iff)
      ]

  -- A finding that is not an accepted input stays where the findings are ordered.
  Any-order_findings :
      (P : Finding → Type 0) (findings : List Finding)
      → ((f : Finding) → P f → not (is_accepted f) ≡ true)
      → Any P findings
      → Any P (order_findings texts findings)
  unfolding order_findings
  Any-order_findings P findings other h =
      let others = keep (λ f. not (is_accepted f)) findings in
      let merged = dedupe_findings texts (keep is_accepted findings) in
      Any-sort_findings P (merged ++ others)
        (Any-append_right P merged others (Any-keep P (λ f. not (is_accepted f)) findings other h))

-- A response time that is a number, not negative, and too large for a float.
abbrev pub IsTooLarge : Numbers → Value → Type 0
IsTooLarge numbers rt = (is_time numbers rt ≡ true) × (numbers.float_of rt ≡ err overflow_error)

-- A run that cannot be scanned.
abbrev pub IsUnscannable : Numbers → Fields → Type 0
IsUnscannable numbers run =
    IsUnreadable (get run "crash") ⊎ IsTooLarge numbers (get run "response_time")

module _ (texts : Texts) (numbers : Numbers) where
  crash-in-all_findings :
      (l : Located) (runs : List Located) {findings : List Finding}
      → IsCrashed l.run
      → Any (λ m. m ≡ l) runs
      → all_findings texts numbers runs ≡ ok findings
      → Any (IsCrashOf l) findings
  crash-in-all_findings l (m ∷ runs) crashed there e =
      let (text, later, found, same) = all_findings-cons texts numbers m runs e in
      let first = outcome_findings texts m ++ text_findings texts m text in
      rw same (elim there [
        | inl here ↦ Any-append_left (IsCrashOf l) first later (
            Any-append_left (IsCrashOf l) (outcome_findings texts m) (text_findings texts m text) (
              subst (λ n. Any (IsCrashOf l) (outcome_findings texts n)) (sym here)
                (crash-found texts l crashed)))
        | inr rest ↦
            Any-append_right (IsCrashOf l) first later
              (crash-in-all_findings l runs crashed rest found)
      ])
  crash-in-all_findings l [] crashed there e = absurd there

  scan_run-raises :
      (l : Located)
      → IsUnscannable numbers l.run
      → (e : ClassifyError) × (scan_run texts numbers l ≡ err e)
  unfolding scan_run run_findings read_time
  scan_run-raises l (inl unreadable) =
      let raised = (response_text-raises_iff texts l.run).1 unreadable in
      (type_error, rw raised refl)
  scan_run-raises l (inr (timed, large)) = elim (Result-cases (response_text texts l.run)) [
    | inl (text, read) ↦ (overflow_error, rw read (rw (timed, large) refl))
    | inr (e, raised) ↦ (e, rw raised refl)
  ]

  all_findings-raises :
      (runs : List Located)
      → Any (λ l. IsUnscannable numbers l.run) runs
      → (e : ClassifyError) × (all_findings texts numbers runs ≡ err e)
  unfolding all_findings
  all_findings-raises (l ∷ runs) (inl here) =
      let (e, raised) = scan_run-raises l here in (e, rw raised refl)
  all_findings-raises (l ∷ runs) (inr later) =
      let (e, raised) = all_findings-raises runs later in
      elim (Result-cases (scan_run texts numbers l)) [
        | inl (found, done) ↦ (e, rw done (rw raised refl))
        | inr (e', failed) ↦ (e', rw failed refl)
      ]
  all_findings-raises [] h = absurd h

  module _ (tool_results protocol_results : Fields) where
    -- For every run of the session whose outcome or error is that of a crash, the classification, where
    -- it returns a list, has a crash finding with the kind, the target and the number of the run.
    pub crash-classify_fuzz_runs :
        (l : Located) {result : List Finding}
        → Any (λ m. m ≡ l) (iter_runs tool_results protocol_results)
        → IsCrashed l.run
        → classify_fuzz_runs texts numbers tool_results protocol_results ≡ ok result
        → Any (IsCrashOf l) result
    crash-classify_fuzz_runs l there crashed e =
        let runs = iter_runs tool_results protocol_results in
        let (here, across, found, done, same) =
          classify_fuzz_runs-eq texts numbers tool_results protocol_results e in
        rw same (
          Any-order_findings texts (IsCrashOf l) (here ++ across)
            (λ f (category, kind, target, run). rw category refl)
            (Any-append_left (IsCrashOf l) here across
              (crash-in-all_findings l runs crashed there found)))

    -- One run is enough for the classification to raise, whatever the other runs are: a run whose crash
    -- record has a stderr_tail that is not empty and is no list, dict or text, or whose response time
    -- is a number that is too large for a float.
    pub classify_fuzz_runs-raises :
        Any (λ l. IsUnscannable numbers l.run) (iter_runs tool_results protocol_results)
        → (e : ClassifyError) × (classify_fuzz_runs texts numbers tool_results protocol_results
            ≡ err e)
    unfolding classify_fuzz_runs
    classify_fuzz_runs-raises there =
        let (e, raised) = all_findings-raises (iter_runs tool_results protocol_results) there in
        (e, rw raised refl)
