-- ===== src/Runtime/Watchdog.antt =====
-- mcp_fuzzer/fuzz_engine/runtime/registry.py and watchdog.py: the registry of processes, and one scan
-- of the watchdog. Times are whole milliseconds since some start, and thresholds are not negative.
pub mod Hangs
pub mod Removal
pub mod Strategies
pub mod Tests
pub mod Verdicts
use mcp_server_fuzzer.Prelude.{
  ℕ, zero, suc, ◌+◌, ◌-◌, Bool, true, false, not, ◌&&◌, ◌||◌, List, [], ◌∷◌, ◌++◌, Option, none,
  some, ltb, map, if◌then◌else◌, Result, ok, err,
}
use mcp_server_fuzzer.Json.{ℤ, pos, negsuc}
use mcp_server_fuzzer.Runtime.Table.{lookup, insert, without, member}

abbrev pub second : ℕ
second = 1000

-- What an activity callback does: it raises, or returns a flag, a timestamp, or something that is no
-- number. A timestamp is finite.
pub data Activity : Type 0 where
  raises : Activity
  flag : Bool → Activity
  timestamp : ℤ → Activity
  invalid : Activity

pub data Status : Type 0 where
  running stopped other_status : Status

-- The process as the scan sees it, with the configured callback's answer.
pub record ProcessRecord : Type 0 where
  pub returncode : Option ℤ
  pub started_at : ℕ
  pub activity_callback : Option Activity
  pub status : Status

abbrev pub Registry : Type 0
Registry = List (ℕ × ProcessRecord)

-- `register` with a start time of 0 or none takes the clock's.
abbrev or_clock : ℕ → Option ℕ → ℕ
or_clock now none = now
or_clock now (some zero) = now
or_clock now (some t) = t

pub register : ℕ → ℕ → Option ℤ → Option Activity → Option ℕ → Status → Registry → Registry
register now pid returncode callback started_at status = insert pid (record {
  returncode = returncode;
  started_at = or_clock now started_at;
  activity_callback = callback;
  status = status;
})

pub unregister : ℕ → Registry → Registry
unregister = without

abbrev pub set_status : ℕ → Status → Option ProcessRecord → Registry → Registry
set_status pid status none registry = registry
set_status pid status (some r) registry = insert pid (record r { status = status }) registry

pub update_status : ℕ → Status → Registry → Registry
update_status pid status registry = set_status pid status (lookup pid registry) registry

pub record WatchdogConfig : Type 0 where
  pub process_timeout : ℕ
  pub extra_buffer : ℕ
  pub max_hang_time : ℕ
  pub auto_kill : Bool

-- The result of the termination strategy: `terminate` returns a flag or raises.
pub data Termination : Type 0 where
  terminated failed raised : Termination

in_range : ℕ → ℕ → ℤ → ℕ
in_range last_activity now (pos t) = if ltb (now + second) t then last_activity else t
in_range last_activity now (negsuc t) = last_activity

pub normalize_activity : Option Activity → ℕ → ℕ → ℕ
unfolding in_range
normalize_activity none last_activity now = last_activity
normalize_activity (some raises) last_activity now = last_activity
normalize_activity (some (flag active)) last_activity now = if active then now else last_activity
normalize_activity (some (timestamp t)) last_activity now = in_range last_activity now t
normalize_activity (some invalid) last_activity now = last_activity

-- The watchdog's own table, and what the scan has collected.
pub record ScanState : Type 0 where
  pub last_activity : List (ℕ × ℕ)
  pub registry : Registry
  pub hung : List ℕ
  pub killed : List ℕ
  pub removed : List ℕ
  -- the calls of `on_hang`, with the hang's duration
  pub hang_reports : List (ℕ × ℕ)

abbrev pub or_started : ℕ → Option ℕ → ℕ
or_started started none = started
or_started started (some t) = t

module _ (config : WatchdogConfig) (terminate : ℕ → ProcessRecord → ℕ → Termination) (now : ℕ) where
  -- The table keeps the pids of the snapshot only.
  pub drop_missing : List (ℕ × ProcessRecord) → List (ℕ × ℕ) → List (ℕ × ℕ)
  drop_missing processes [] = []
  drop_missing processes ((pid, t) ∷ rest) =
      let kept = drop_missing processes rest in
      elim (lookup pid processes) [ none ↦ kept | some r ↦ (pid, t) ∷ kept ]

  -- A termination that raises ends the scan.
  pub kill : ℕ → ProcessRecord → ℕ → ScanState → Result ScanState ScanState
  unfolding update_status
  kill pid process time_since s = elim (terminate pid process time_since) [
    | terminated ↦ ok (record s {
      last_activity = without pid s.last_activity;
      registry = update_status pid stopped s.registry;
      killed = s.killed ++ pid ∷ [];
      removed = s.removed ++ pid ∷ [];
    })
    | failed ↦ ok s
    | raised ↦ err s
  ]

  abbrev pub report_hang : ℕ → ℕ → ScanState → ScanState
  report_hang pid time_since s = record s {
    hung = s.hung ++ pid ∷ [];
    hang_reports = s.hang_reports ++ (pid, time_since) ∷ [];
  }

  pub check_hang : ℕ → ProcessRecord → ℕ → ScanState → Result ScanState ScanState
  unfolding kill
  check_hang pid process time_since s =
      if ltb (config.process_timeout + config.extra_buffer) time_since
      then (if config.auto_kill || ltb config.max_hang_time time_since
          then kill pid process time_since (report_hang pid time_since s)
          else ok (report_hang pid time_since s))
      else ok s

  pub activity_of : ℕ → ProcessRecord → ScanState → ℕ
  unfolding normalize_activity
  activity_of pid process s =
      normalize_activity process.activity_callback
        (or_started process.started_at (lookup pid s.last_activity)) now

  -- One round of the loop over the snapshot.
  pub scan_process : ℕ → ProcessRecord → ScanState → Result ScanState ScanState
  unfolding check_hang activity_of
  scan_process pid process s = elim process.returncode [
    | some code ↦
        ok (record s {
          removed = s.removed ++ pid ∷ [];
          last_activity = without pid s.last_activity;
        })
    | none ↦
        check_hang pid process (now - activity_of pid process s)
          (record s { last_activity = insert pid (activity_of pid process s) s.last_activity })
  ]

  pub scan_all : List (ℕ × ProcessRecord) → ScanState → Result ScanState ScanState
  unfolding scan_process
  scan_all [] s = ok s
  scan_all ((pid, process) ∷ rest) s = elim (scan_process pid process s) [
    | ok s' ↦ scan_all rest s'
    | err s' ↦ err s'
  ]

  pub unregister_all : List ℕ → Registry → Registry
  unfolding unregister
  unregister_all [] registry = registry
  unregister_all (pid ∷ pids) registry = unregister_all pids (unregister pid registry)

  pub finish : Result ScanState ScanState → Result ScanState ScanState
  unfolding unregister_all
  finish (ok s) = ok (record s { registry = unregister_all s.removed s.registry })
  finish (err s) = err s

  -- `scan_once` on a snapshot of the registry; `err` where the termination raised, with the state
  -- that the exception leaves behind.
  pub scan_once : List (ℕ × ProcessRecord) → List (ℕ × ℕ) → Registry → Result ScanState ScanState
  unfolding drop_missing scan_all finish
  scan_once processes last_activity registry = finish (
      scan_all processes (record {
        last_activity = drop_missing processes last_activity;
        registry = registry;
        hung = [];
        killed = [];
        removed = [];
        hang_reports = [];
      }))
