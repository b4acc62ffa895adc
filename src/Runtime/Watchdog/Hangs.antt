-- ===== src/Runtime/Watchdog/Hangs.antt =====
-- What one scan of the watchdog does to each process.
use mathlib.Core.Path.{subst}
use mcp_server_fuzzer.Prelude.{
  ℕ, ◌≡◌, refl, ap, ◌∙◌, Bool-cases, inl, inr, false, List, [], ◌∷◌, Option, none, some, arith,
  nat_beq, ok,
}
use mcp_server_fuzzer.Runtime.Table.{lookup, member}
use mcp_server_fuzzer.Runtime.Watchdog.{
  ProcessRecord, Registry, WatchdogConfig, Termination, ScanState, drop_missing, scan_process,
  scan_all, unregister_all, finish, scan_once,
}
use mcp_server_fuzzer.Runtime.Watchdog.Verdicts.{
  View, view, is_raised, Judged, Judged-view, outcome, IsClean, lookup-drop_missing,
  lookup-drop_missing-none, scan_process-frame, scan_process-ok, scan_process-Judged,
}

-- A key of a `dict` stands in it once.
abbrev pub IsDistinct : List (ℕ × ProcessRecord) → Type 0
IsDistinct [] = Unit
IsDistinct ((pid, process) ∷ rest) = (lookup pid rest ≡ none) × IsDistinct rest

module _ (config : WatchdogConfig) (terminate : ℕ → ProcessRecord → ℕ → Termination) (now : ℕ) where
  pub record Scanned (processes : List (ℕ × ProcessRecord)) (before after : ScanState)
      : Type 0 where
    pub judged :
        (pid : ℕ) (process : ProcessRecord)
        → lookup pid processes ≡ some process
        → Judged config terminate now pid process (lookup pid before.last_activity) after
    pub others : (pid : ℕ) → lookup pid processes ≡ none → view pid after ≡ view pid before

  Scanned-later :
      (i : ℕ) (p : ProcessRecord) (rest : List (ℕ × ProcessRecord)) (s s' : ScanState)
      → lookup i rest ≡ none
      → Judged config terminate now i p
          (lookup i s.last_activity)
          (outcome config terminate now (scan_process config terminate now i p s))
      → Scanned rest (outcome config terminate now (scan_process config terminate now i p s)) s'
      → Scanned ((i, p) ∷ rest) s s'
  unfolding lookup
  Scanned-later i p rest s s' absent here later = record {
    judged = λ pid process h. elim (Bool-cases (nat_beq i pid)) [
      | inl same ↦
          let at_i : i ≡ pid = ground arith in
          let is_p : p ≡ process = ground arith in
          subst (λ (j : ℕ). Judged config terminate now j process (lookup j s.last_activity) s')
            at_i
            (subst
              (λ (q : ProcessRecord). Judged config terminate now i q (lookup i s.last_activity) s')
              is_p (Judged-view config terminate now (later.others i absent) here))
      | inr other ↦
          subst (λ (last : Option ℕ). Judged config terminate now pid process last s')
            (ap (λ (v : View). v.0) (scan_process-frame config terminate now i pid p s other))
            (later.judged pid process (ground arith))
    ];
    others = λ pid h. elim (Bool-cases (nat_beq i pid)) [
      | inl same ↦ absurd (ground arith)
      | inr other ↦
          later.others pid (ground arith) ∙ scan_process-frame config terminate now i pid p s other
    ];
  }

  scan_all-cons :
      (i : ℕ) (p : ProcessRecord) (rest : List (ℕ × ProcessRecord)) (s : ScanState) {s' : ScanState}
      → scan_process config terminate now i p s ≡ ok s'
      → scan_all config terminate now ((i, p) ∷ rest) s ≡ scan_all config terminate now rest s'
  unfolding scan_all
  scan_all-cons i p rest s h = rw (h, scan_all) refl

  scan_all-Scanned :
      (processes : List (ℕ × ProcessRecord)) (s : ScanState)
      → IsDistinct processes
      → ((pid : ℕ) (process : ProcessRecord)
          → lookup pid processes ≡ some process
          → IsClean config terminate now pid s)
      → ((pid : ℕ) (process : ProcessRecord) (t : ℕ) → is_raised (terminate pid process t) ≡ false)
      → (s' : ScanState) × (scan_all config terminate now processes s ≡ ok s')
        × Scanned processes s s'
  unfolding scan_all lookup
  scan_all-Scanned [] s d clean never =
      (s, refl, record { judged = λ pid process h. absurd (cc); others = λ pid h. refl })
  scan_all-Scanned ((i, p) ∷ rest) s (absent, d) clean never =
      let here =
        scan_process-Judged config terminate now i p s (clean i p (ground arith)) (never i p _) in
      let (s', ran, later) =
        scan_all-Scanned rest
          (outcome config terminate now (scan_process config terminate now i p s)) d
          (λ pid process h. elim (Bool-cases (nat_beq i pid)) [
            | inl same ↦ absurd (ground arith)
            | inr other ↦ ground (
              arith,
              scan_process-frame config terminate now i pid p s other,
              clean pid process (ground arith),
            )
          ])
          never in
      (
        s',
        scan_all-cons i p rest s (scan_process-ok config terminate now i p s (never i p _)) ∙ ran,
        Scanned-later i p rest s s' absent here later,
      )

  -- A scan of distinct processes whose terminations do not raise completes, and judges every process
  -- of the snapshot by its own record: hung is what is running and was last active longer ago than
  -- the timeout and the buffer; killed is what is hung, to be killed automatically or past the longest
  -- hang, and terminated; removed is what has finished or is killed. The stored activity of a
  -- process that is not removed is the one the scan has seen, and a process that is not in the
  -- snapshot is reported nowhere and has no stored activity.
  pub scan_once-judges :
      (processes : List (ℕ × ProcessRecord)) (table : List (ℕ × ℕ)) (registry : Registry)
      → IsDistinct processes
      → ((pid : ℕ) (process : ProcessRecord) (t : ℕ) → is_raised (terminate pid process t) ≡ false)
      → (s : ScanState) × (scan_once config terminate now processes table registry ≡ ok s)
        × ((pid : ℕ) (process : ProcessRecord)
            → lookup pid processes ≡ some process
            → Judged config terminate now pid process (lookup pid table) s)
        × ((pid : ℕ)
            → lookup pid processes ≡ none
            → (lookup pid s.last_activity ≡ none)
              × (member pid s.hung ≡ false)
              × (member pid s.killed ≡ false)
              × (member pid s.removed ≡ false))
  unfolding scan_once finish member
  scan_once-judges processes table registry d never =
      let start : ScanState = record {
        last_activity = drop_missing config terminate now processes table;
        registry = registry;
        hung = [];
        killed = [];
        removed = [];
        hang_reports = [];
      } in
      let (s, ran, scanned) = scan_all-Scanned processes start d (λ pid process h. refl) never in
      (
        record s { registry = unregister_all config terminate now s.removed s.registry },
        rw ran refl,
        λ pid process h.
            subst
              (λ (last : Option ℕ).
                Judged config terminate now pid process last (record s {
                  registry = unregister_all config terminate now s.removed s.registry;
                }))
              (lookup-drop_missing config terminate now processes table pid process h)
              (Judged-view config terminate now refl (scanned.judged pid process h)),
        λ pid h.
            let same = scanned.others pid h in
            let gone = lookup-drop_missing-none config terminate now processes table pid h in
            (
              ap (λ (v : View). v.0) same ∙ gone,
              ap (λ (v : View). v.1) same,
              ap (λ (v : View). v.2) same,
              ap (λ (v : View). v.3) same,
            ),
      )
