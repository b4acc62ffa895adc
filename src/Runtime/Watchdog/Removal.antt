-- ===== src/Runtime/Watchdog/Removal.antt =====
-- What a scan of the watchdog removes from the registry.
use mathlib.Core.Path.{subst}
use mcp_server_fuzzer.Prelude.{
  ℕ, ◌≡◌, refl, ap, ◌∙◌, Bool, true, false, List, [], ◌∷◌, Option, none, some, arith, nat_beq,
  if◌then◌else◌, Result, ok, err, Result-cases, Bool-cases, inl, inr,
}
use mcp_server_fuzzer.Runtime.Table.{
  lookup, without, member, lookup-insert, lookup-without, member-append,
}
use mcp_server_fuzzer.Runtime.Watchdog.{
  ProcessRecord, Registry, WatchdogConfig, Termination, ScanState, stopped, update_status,
  set_status, kill, check_hang, activity_of, scan_process, scan_all, unregister, drop_missing,
  unregister_all, finish, scan_once,
}

abbrev pub is_registered : ℕ → Registry → Bool
is_registered pid registry = elim (lookup pid registry) [ none ↦ false | some r ↦ true ]

is_registered-set_status :
    (j pid : ℕ) (found : Option ProcessRecord) (registry : Registry)
    → lookup pid registry ≡ found
    → is_registered j (set_status pid stopped found registry) ≡ is_registered j registry
is_registered-set_status j pid none registry h = refl
is_registered-set_status j pid (some r) registry h =
    ground (arith, lookup-insert pid j (record r { status = stopped }) registry)

is_registered-update_status :
    (j pid : ℕ) (registry : Registry)
    → is_registered j (update_status pid stopped registry) ≡ is_registered j registry
unfolding update_status
is_registered-update_status j pid registry =
    is_registered-set_status j pid (lookup pid registry) registry refl

lookup-set_status :
    (j pid : ℕ) (found : Option ProcessRecord) (registry : Registry)
    → nat_beq pid j ≡ false
    → lookup j (set_status pid stopped found registry) ≡ lookup j registry
lookup-set_status j pid none registry h = refl
lookup-set_status j pid (some r) registry h =
    ground (arith, lookup-insert pid j (record r { status = stopped }) registry)

lookup-update_status :
    (j pid : ℕ) (registry : Registry)
    → nat_beq pid j ≡ false
    → lookup j (update_status pid stopped registry) ≡ lookup j registry
unfolding update_status
lookup-update_status j pid registry = lookup-set_status j pid (lookup pid registry) registry

module _ (config : WatchdogConfig) (terminate : ℕ → ProcessRecord → ℕ → Termination) (now : ℕ) where
  -- What a step keeps: the registered pids, and the records that it does not remove.
  record Keeps (before after : ScanState) : Type 0 where
    registered : (j : ℕ) → is_registered j after.registry ≡ is_registered j before.registry
    grows : (j : ℕ) → member j before.removed ≡ true → member j after.removed ≡ true
    untouched :
        (j : ℕ)
        → member j after.removed ≡ false
        → lookup j after.registry ≡ lookup j before.registry

  Keeps-trans : {s s' s'' : ScanState} → Keeps s s' → Keeps s' s'' → Keeps s s''
  Keeps-trans {s} {s'} {s''} h k = record {
    registered = λ j. k.registered j ∙ h.registered j;
    grows = λ j m. k.grows j (h.grows j m);
    untouched = λ j m.
        k.untouched j m
        ∙ h.untouched j (elim (Bool-cases (member j s'.removed)) [
          | inl there ↦ absurd (ground (arith, k.grows j there))
          | inr not_there ↦ not_there
        ]);
  }

  abbrev outcome : Result ScanState ScanState → ScanState
  outcome (ok s) = s
  outcome (err s) = s

  scan_process-Keeps :
      (pid : ℕ) (process : ProcessRecord) (s : ScanState)
      → Keeps s (outcome (scan_process config terminate now pid process s))
  unfolding scan_process check_hang kill activity_of member
  scan_process-Keeps pid process s = record {
    registered = λ j. ground (arith, is_registered-update_status j pid s.registry);
    grows = λ j h. ground (arith, member-append j s.removed (pid ∷ []));
    untouched = λ j h.
        ground (arith, member-append j s.removed (pid ∷ []), lookup-update_status j pid s.registry);
  }

  scan_all-Keeps :
      (processes : List (ℕ × ProcessRecord)) (s : ScanState)
      → Keeps s (outcome (scan_all config terminate now processes s))
  unfolding scan_all
  scan_all-Keeps [] s = record { registered = λ j. refl; grows = λ j h. h; untouched = λ j h. refl }
  scan_all-Keeps ((pid, process) ∷ rest) s =
      let first = scan_process-Keeps pid process s in
      elim (Result-cases (scan_process config terminate now pid process s)) [
        | inl (s', ran) ↦
            rw (ran, scan_all) (Keeps-trans (rw ran at first) (scan_all-Keeps rest s'))
        | inr (s', ran) ↦ rw (ran, scan_all) (rw ran at first)
      ]

  lookup-unregister_all :
      (pids : List ℕ) (registry : Registry) (j : ℕ)
      → lookup j (unregister_all config terminate now pids registry)
        ≡ (if member j pids then none else lookup j registry)
  unfolding unregister_all unregister member
  lookup-unregister_all [] registry j = refl
  lookup-unregister_all (pid ∷ pids) registry j =
      ground
        (arith, lookup-unregister_all pids (without pid registry) j, lookup-without pid j registry)

  abbrev scan_start : List (ℕ × ProcessRecord) → List (ℕ × ℕ) → Registry → ScanState
  scan_start processes table registry = record {
    last_activity = drop_missing config terminate now processes table;
    registry = registry;
    hung = [];
    killed = [];
    removed = [];
    hang_reports = [];
  }

  finish-unregisters :
      (before : ScanState) (r : Result ScanState ScanState) (s : ScanState) (j : ℕ)
      → Keeps before (outcome r)
      → finish config terminate now r ≡ ok s
      → lookup j s.registry ≡ (if member j s.removed then none else lookup j before.registry)
  unfolding finish
  finish-unregisters before (ok s') s j kept h =
      subst
        (λ (x : ScanState).
          lookup j x.registry ≡ (if member j x.removed then none else lookup j before.registry))
        (ap outcome h)
        (lookup-unregister_all s'.removed s'.registry j ∙ ground (arith, kept.untouched j))
  finish-unregisters before (err s') s j kept h = absurd (cc)

  finish-raised :
      (before : ScanState) (r : Result ScanState ScanState) (s : ScanState) (j : ℕ)
      → Keeps before (outcome r)
      → finish config terminate now r ≡ err s
      → is_registered j s.registry ≡ is_registered j before.registry
  unfolding finish
  finish-raised before (ok s') s j kept h = absurd (cc)
  finish-raised before (err s') s j kept h =
      subst (λ (x : ScanState). is_registered j x.registry ≡ is_registered j before.registry)
        (ap outcome h) (kept.registered j)

  -- After a scan that completes, the registry has lost the removed processes, and has kept every
  -- other record as it was.
  pub scan_once-unregisters :
      (processes : List (ℕ × ProcessRecord)) (table : List (ℕ × ℕ)) (registry : Registry)
      (s : ScanState) (j : ℕ)
      → scan_once config terminate now processes table registry ≡ ok s
      → lookup j s.registry ≡ (if member j s.removed then none else lookup j registry)
  unfolding scan_once
  scan_once-unregisters processes table registry s j =
      let start = scan_start processes table registry in
      finish-unregisters start (scan_all config terminate now processes start) s j
        (scan_all-Keeps processes start)

  -- A termination that raises ends the scan before any process is unregistered: the registry has the
  -- same processes as before, the finished and the killed ones included.
  pub scan_once-raised_keeps :
      (processes : List (ℕ × ProcessRecord)) (table : List (ℕ × ℕ)) (registry : Registry)
      (s : ScanState) (j : ℕ)
      → scan_once config terminate now processes table registry ≡ err s
      → is_registered j s.registry ≡ is_registered j registry
  unfolding scan_once
  scan_once-raised_keeps processes table registry s j =
      let start = scan_start processes table registry in
      finish-raised start (scan_all config terminate now processes start) s j
        (scan_all-Keeps processes start)
