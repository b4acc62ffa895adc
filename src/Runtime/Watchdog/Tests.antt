-- ===== src/Runtime/Watchdog/Tests.antt =====
-- A scan of three processes: one that has finished, one that hangs, and one that has just been active.
use mcp_server_fuzzer.Prelude.{
  ℕ, ◌≡◌, refl, true, false, none, some, [], ◌∷◌, ok, err, if◌then◌else◌,
}
use mcp_server_fuzzer.Json.{pos}
use mcp_server_fuzzer.Runtime.Table.{lookup, member, without, insert}
use mcp_server_fuzzer.Runtime.Watchdog.{
  ProcessRecord, Registry, WatchdogConfig, Termination, terminated, raised, ScanState, finish,
  running, flag, scan_once,
}
use mcp_server_fuzzer.Runtime.Watchdog.Hangs.{scan_once-judges}
use mcp_server_fuzzer.Runtime.Watchdog.Verdicts.{Judged}
use mcp_server_fuzzer.Runtime.Watchdog.Strategies.{
  System, Step, Wait, exited, timed_out, send_force, kill_group, signal_terminate,
  signal_scan-judges,
}
use mcp_server_fuzzer.Runtime.Watchdog.Removal.{
  is_registered, scan_once-unregisters, scan_once-raised_keeps,
}

abbrev config : WatchdogConfig
config = record {
  process_timeout = 30000;
  extra_buffer = 5000;
  max_hang_time = 60000;
  auto_kill = true;
}

abbrev silent : ProcessRecord
silent = record { returncode = none; started_at = 1000; activity_callback = none; status = running }

abbrev finished : ProcessRecord
finished = record silent { returncode = some (pos 0) }

abbrev busy : ProcessRecord
busy = record silent { activity_callback = some (flag true) }

abbrev processes : Registry
processes = (10, finished) ∷ (11, silent) ∷ (12, busy) ∷ []

abbrev kills : ℕ → ProcessRecord → ℕ → Termination
kills pid process time_since = terminated

abbrev cannot_kill : ℕ → ProcessRecord → ℕ → Termination
cannot_kill pid process time_since = raised

scan_once-judges_example :
    (s : ScanState) × (scan_once config kills 90000 processes [] processes ≡ ok s)
    × ((pid : ℕ) (process : ProcessRecord)
        → lookup pid processes ≡ some process
        → Judged config kills 90000 pid process (lookup {V = ℕ} pid []) s)
    × ((pid : ℕ)
        → lookup pid processes ≡ none
        → (lookup pid s.last_activity ≡ none)
          × (member pid s.hung ≡ false)
          × (member pid s.killed ≡ false)
          × (member pid s.removed ≡ false))
unfolding lookup
scan_once-judges_example =
    scan_once-judges config kills 90000 processes [] processes (refl, (refl, (refl, tt)))
      (λ pid process t. refl)

-- The hung process is killed and removed with the finished one.
abbrev completed : ScanState
completed = record {
  last_activity = (12, 90000) ∷ [];
  registry = (12, busy) ∷ [];
  hung = 11 ∷ [];
  killed = 11 ∷ [];
  removed = 10 ∷ 11 ∷ [];
  hang_reports = (11, 89000) ∷ [];
}

scan_once-completes : scan_once config kills 90000 processes [] processes ≡ ok completed
unfolding scan_once finish lookup without insert
scan_once-completes = refl

scan_once-unregisters_example :
    lookup 11 completed.registry
    ≡ (if member 11 completed.removed then none else lookup 11 processes)
scan_once-unregisters_example =
    scan_once-unregisters config kills 90000 processes [] processes completed 11 scan_once-completes

-- The exception leaves the finished process registered, and the third one unseen.
abbrev broken_off : ScanState
broken_off = record {
  last_activity = (11, 1000) ∷ [];
  registry = processes;
  hung = 11 ∷ [];
  killed = [];
  removed = 10 ∷ [];
  hang_reports = (11, 89000) ∷ [];
}

scan_once-breaks_off : scan_once config cannot_kill 90000 processes [] processes ≡ err broken_off
unfolding scan_once finish lookup without insert
scan_once-breaks_off = refl

scan_once-raised_keeps_example : is_registered 10 broken_off.registry ≡ is_registered 10 processes
scan_once-raised_keeps_example =
    scan_once-raised_keeps config cannot_kill 90000 processes [] processes broken_off 10
      scan_once-breaks_off

-- The signals are sent, the first wait times out, and the second one sees the process gone.
abbrev after_force : Step → Wait
after_force send_force = exited
after_force kill_group = exited
after_force _ = timed_out

abbrev stubborn : System
stubborn = record { act = λ step. none; wait = after_force; is_windows = false }

abbrev systems : ℕ → ProcessRecord → ℕ → System
systems pid process t = stubborn

signal_scan-judges_example :
    (s : ScanState) × (scan_once config
        (λ pid process t. signal_terminate (systems pid process t))
        90000
        processes
        []
        processes
      ≡ ok s)
    × ((pid : ℕ) (process : ProcessRecord)
        → lookup pid processes ≡ some process
        → Judged config
            (λ pid process t. signal_terminate (systems pid process t))
            90000
            pid
            process
            (lookup {V = ℕ} pid [])
            s)
unfolding lookup
signal_scan-judges_example =
    signal_scan-judges config systems 90000 processes [] processes (refl, (refl, (refl, tt)))
