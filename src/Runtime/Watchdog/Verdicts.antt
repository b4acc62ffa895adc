-- ===== src/Runtime/Watchdog/Verdicts.antt =====
-- The verdict of one round of a scan on the process it looks at.
use mcp_server_fuzzer.Prelude.{
  ℕ, ◌+◌, ◌-◌, ◌≡◌, refl, ap, ◌∙◌, Bool, true, false, not, ◌&&◌, ◌||◌, List, [], ◌∷◌, Option, none,
  some, arith, ltb, nat_beq, if◌then◌else◌, Result, ok, err,
}
use mcp_server_fuzzer.Runtime.Table.{
  lookup, insert, member, member-append, lookup-insert, lookup-without,
}
use mcp_server_fuzzer.Runtime.Watchdog.{
  ProcessRecord, WatchdogConfig, Termination, terminated, raised, ScanState, or_started,
  normalize_activity, drop_missing, kill, check_hang, activity_of, scan_process,
}

abbrev pub is_finished : ProcessRecord → Bool
is_finished process = elim process.returncode [ none ↦ false | some code ↦ true ]

abbrev pub is_raised : Termination → Bool
is_raised raised = true
is_raised _ = false

abbrev pub is_terminated : Termination → Bool
is_terminated terminated = true
is_terminated _ = false

-- What the scan's state says of a process.
abbrev pub View : Type 0
View = Option ℕ × Bool × Bool × Bool

abbrev pub view : ℕ → ScanState → View
view pid s =
    (lookup pid s.last_activity, member pid s.hung, member pid s.killed, member pid s.removed)

module _ (config : WatchdogConfig) (terminate : ℕ → ProcessRecord → ℕ → Termination) (now : ℕ) where
  -- The last activity that the scan takes a process to have had.
  abbrev pub seen : ProcessRecord → Option ℕ → ℕ
  seen process last =
      normalize_activity process.activity_callback (or_started process.started_at last) now

  abbrev pub is_hung : ProcessRecord → Option ℕ → Bool
  is_hung process last =
      not (is_finished process)
      && ltb (config.process_timeout + config.extra_buffer) (now - seen process last)

  abbrev pub is_killed : ℕ → ProcessRecord → Option ℕ → Bool
  is_killed pid process last =
      is_hung process last
      && (config.auto_kill || ltb config.max_hang_time (now - seen process last))
      && is_terminated (terminate pid process (now - seen process last))

  -- The verdict on a process, from its record and the activity that the watchdog has stored.
  pub record Judged (pid : ℕ) (process : ProcessRecord) (last : Option ℕ) (s : ScanState)
      : Type 0 where
    pub hung : member pid s.hung ≡ is_hung process last
    pub killed : member pid s.killed ≡ is_killed pid process last
    pub removed : member pid s.removed ≡ (is_finished process || is_killed pid process last)
    pub activity : lookup pid s.last_activity ≡ (
        if is_finished process || is_killed pid process last
        then none
        else some (seen process last))

  pub lookup-drop_missing :
      (processes : List (ℕ × ProcessRecord)) (table : List (ℕ × ℕ)) (pid : ℕ)
      (process : ProcessRecord)
      → lookup pid processes ≡ some process
      → lookup pid (drop_missing config terminate now processes table) ≡ lookup pid table
  unfolding lookup drop_missing
  lookup-drop_missing processes [] pid process h = refl
  lookup-drop_missing processes ((j, t) ∷ rest) pid process h =
      ground (arith, lookup-drop_missing processes rest pid process h)

  pub lookup-drop_missing-none :
      (processes : List (ℕ × ProcessRecord)) (table : List (ℕ × ℕ)) (pid : ℕ)
      → lookup pid processes ≡ none
      → lookup pid (drop_missing config terminate now processes table) ≡ none
  unfolding lookup drop_missing
  lookup-drop_missing-none processes [] pid h = refl
  lookup-drop_missing-none processes ((j, t) ∷ rest) pid h =
      ground (arith, lookup-drop_missing-none processes rest pid h)

  abbrev pub outcome : Result ScanState ScanState → ScanState
  outcome (ok s) = s
  outcome (err s) = s

  pub scan_process-frame :
      (pid j : ℕ) (process : ProcessRecord) (s : ScanState)
      → nat_beq pid j ≡ false
      → view j (outcome (scan_process config terminate now pid process s)) ≡ view j s
  unfolding scan_process check_hang kill activity_of member
  scan_process-frame pid j process s h = ground (
    arith,
    lookup-insert pid j (seen process (lookup pid s.last_activity)) s.last_activity,
    lookup-without pid j s.last_activity,
    lookup-without pid j (insert pid (seen process (lookup pid s.last_activity)) s.last_activity),
    member-append j s.hung (pid ∷ []),
    member-append j s.killed (pid ∷ []),
    member-append j s.removed (pid ∷ []),
  )

  abbrev pub IsClean : ℕ → ScanState → Type 0
  IsClean pid s = view pid s ≡ (lookup pid s.last_activity, false, false, false)

  abbrev verdict : ℕ → ProcessRecord → Option ℕ → View
  verdict pid process last =
      let is_removed = is_finished process || is_killed pid process last in
      (
        if is_removed then none else some (seen process last),
        is_hung process last,
        is_killed pid process last,
        is_removed,
      )

  view-scan_process :
      (pid : ℕ) (process : ProcessRecord) (s : ScanState)
      → IsClean pid s
      → is_raised (terminate pid process (now - seen process (lookup pid s.last_activity))) ≡ false
      → view pid (outcome (scan_process config terminate now pid process s))
        ≡ verdict pid process (lookup pid s.last_activity)
  unfolding scan_process check_hang kill activity_of member
  view-scan_process pid process s h never = ground (
    arith,
    lookup-insert pid pid (seen process (lookup pid s.last_activity)) s.last_activity,
    lookup-without pid pid s.last_activity,
    lookup-without pid pid (insert pid (seen process (lookup pid s.last_activity)) s.last_activity),
    member-append pid s.hung (pid ∷ []),
    member-append pid s.killed (pid ∷ []),
    member-append pid s.removed (pid ∷ []),
  )

  pub scan_process-Judged :
      (pid : ℕ) (process : ProcessRecord) (s : ScanState)
      → IsClean pid s
      → is_raised (terminate pid process (now - seen process (lookup pid s.last_activity))) ≡ false
      → Judged pid process
          (lookup pid s.last_activity)
          (outcome (scan_process config terminate now pid process s))
  scan_process-Judged pid process s h never =
      let seen_as = view-scan_process pid process s h never in
      record {
        hung = ap (λ (v : View). v.1) seen_as;
        killed = ap (λ (v : View). v.2) seen_as;
        removed = ap (λ (v : View). v.3) seen_as;
        activity = ap (λ (v : View). v.0) seen_as;
      }

  pub scan_process-ok :
      (pid : ℕ) (process : ProcessRecord) (s : ScanState)
      → is_raised (terminate pid process (now - seen process (lookup pid s.last_activity))) ≡ false
      → scan_process config terminate now pid process s
        ≡ ok (outcome (scan_process config terminate now pid process s))
  unfolding scan_process check_hang kill activity_of
  scan_process-ok pid process s never = ground arith

  pub Judged-view :
      {pid : ℕ} {process : ProcessRecord} {last : Option ℕ} {s s' : ScanState}
      → view pid s' ≡ view pid s
      → Judged pid process last s
      → Judged pid process last s'
  Judged-view h k = record {
    hung = ap (λ (v : View). v.1) h ∙ k.hung;
    killed = ap (λ (v : View). v.2) h ∙ k.killed;
    removed = ap (λ (v : View). v.3) h ∙ k.removed;
    activity = ap (λ (v : View). v.0) h ∙ k.activity;
  }
