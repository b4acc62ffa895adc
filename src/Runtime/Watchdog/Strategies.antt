-- ===== src/Runtime/Watchdog/Strategies.antt =====
-- mcp_fuzzer/fuzz_engine/runtime/watchdog.py: the two termination strategies.
use mcp_server_fuzzer.Prelude.{
  ℕ, ◌≡◌, ◌↔◌, ◌⊎◌, Bool, true, false, List, Option, none, some, arith, Result, ok, err, ◌>>=◌,
  ◌>>◌, if◌then◌else◌,
}
use mcp_server_fuzzer.Runtime.Table.{lookup}
use mcp_server_fuzzer.Runtime.Watchdog.{
  ProcessRecord, Registry, WatchdogConfig, Termination, terminated, failed, raised, ScanState,
  scan_once,
}
use mcp_server_fuzzer.Runtime.Watchdog.Hangs.{IsDistinct, scan_once-judges}
use mcp_server_fuzzer.Runtime.Watchdog.Verdicts.{Judged, is_raised}

-- An exception, as far as the strategies tell them apart.
pub data Fault : Type 0 where
  os_error other_error : Fault

-- What the strategies ask of the system: the dispatcher's two signals, those to the process group,
-- and those to the process, once on Windows and once where the group cannot be signalled.
pub data Step : Type 0 where
  send_timeout send_force : Step
  windows_terminate windows_kill : Step
  find_group terminate_group kill_group : Step
  terminate_process kill_process : Step

-- How the wait after a step ends.
pub data Wait : Type 0 where
  exited timed_out : Wait
  broken : Fault → Wait

-- `act step` is the exception that the step raises, if any.
pub record System : Type 0 where
  pub act : Step → Option Fault
  pub wait : Step → Wait
  pub is_windows : Bool

module _ (system : System) where
  do_step : Step → Result Fault (Unit {0})
  do_step step = elim (system.act step) [ none ↦ ok tt | some fault ↦ err fault ]

  -- `_await_exit`: only a timeout is caught.
  await_exit : Step → Result Fault Bool
  await_exit step = elim (system.wait step) [
    | exited ↦ ok true
    | timed_out ↦ ok false
    | broken fault ↦ err fault
  ]

  -- A first signal, and a second one if the process does not exit.
  escalate : Step → Step → Result Fault Bool
  unfolding do_step await_exit
  escalate first second = do
    do_step first
    gone ← await_exit first
    if gone then ok true else do do_step second; await_exit second

  -- `SignalTerminationStrategy.terminate`: every exception is caught.
  pub signal_terminate : Termination
  unfolding escalate
  signal_terminate = elim (escalate send_timeout send_force) [
    | ok gone ↦ if gone then terminated else failed
    | err fault ↦ failed
  ]

  on_windows : Result Fault Bool
  unfolding escalate
  on_windows = if system.is_windows then escalate windows_terminate windows_kill else ok false

  except_os_error : Result Fault Bool → Result Fault Bool → Result Fault Bool
  except_os_error (ok b) handler = ok b
  except_os_error (err os_error) handler = handler
  except_os_error (err other_error) handler = err other_error

  -- To the process group, and where that meets an OSError, to the process.
  to_group : Result Fault Bool
  unfolding escalate except_os_error
  to_group =
      except_os_error (do do_step find_group; escalate terminate_group kill_group)
        (escalate terminate_process kill_process)

  -- `BestEffortTerminationStrategy.terminate`
  pub best_effort_terminate : Termination
  unfolding on_windows to_group
  best_effort_terminate = elim (do gone ← on_windows; if gone then ok true else to_group) [
    | ok gone ↦ if gone then terminated else failed
    | err fault ↦ raised
  ]

  -- The process is gone after the first signal, or after the second one.
  abbrev pub Escalated : Step → Step → Type 0
  Escalated first second =
      (system.act first ≡ none)
      × ((system.wait first ≡ exited)
          ⊎ ((system.wait first ≡ timed_out)
              × (system.act second ≡ none)
              × (system.wait second ≡ exited)))

  escalate-eq-true_iff :
      (first second : Step) → (escalate first second ≡ ok true) ↔ Escalated first second
  unfolding escalate do_step await_exit
  escalate-eq-true_iff first second = ground arith

  -- The step or its wait meets an OSError before the process is seen gone.
  abbrev pub MeetsOsError : Step → Step → Type 0
  MeetsOsError first second =
      (system.act first ≡ some os_error)
      ⊎ ((system.act first ≡ none)
          × ((system.wait first ≡ broken os_error)
              ⊎ ((system.wait first ≡ timed_out)
                  × ((system.act second ≡ some os_error)
                      ⊎ ((system.act second ≡ none) × (system.wait second ≡ broken os_error))))))

  escalate-eq-os_error_iff :
      (first second : Step) → (escalate first second ≡ err os_error) ↔ MeetsOsError first second
  unfolding escalate do_step await_exit
  escalate-eq-os_error_iff first second = ground arith

  -- The signal strategy reports success exactly if the process is gone after the timeout signal, or
  -- was not and is gone after the force signal; it never raises.
  pub signal_terminate-eq-terminated_iff :
      ((signal_terminate ≡ terminated) ↔ Escalated send_timeout send_force)
      × (is_raised signal_terminate ≡ false)
  unfolding signal_terminate
  signal_terminate-eq-terminated_iff =
      (ground (arith, escalate-eq-true_iff send_timeout send_force), ground arith)

  to_group-eq-true_iff : (to_group ≡ ok true) ↔ (
      ((system.act find_group ≡ none) × Escalated terminate_group kill_group)
      ⊎ (((system.act find_group ≡ some os_error)
            ⊎ ((system.act find_group ≡ none) × MeetsOsError terminate_group kill_group))
          × Escalated terminate_process kill_process))
  unfolding to_group except_os_error do_step
  to_group-eq-true_iff = ground (
    arith,
    escalate-eq-true_iff terminate_group kill_group,
    escalate-eq-os_error_iff terminate_group kill_group,
    escalate-eq-true_iff terminate_process kill_process,
  )

  -- Outside Windows, the best-effort strategy reports success exactly if the process is gone after
  -- the signals to its group, or an OSError came up there and it is gone after those to itself.
  pub best_effort_terminate-eq-terminated_iff :
      system.is_windows ≡ false
      → (best_effort_terminate ≡ terminated) ↔ (
          ((system.act find_group ≡ none) × Escalated terminate_group kill_group)
          ⊎ (((system.act find_group ≡ some os_error)
                ⊎ ((system.act find_group ≡ none) × MeetsOsError terminate_group kill_group))
              × Escalated terminate_process kill_process))
  unfolding best_effort_terminate on_windows
  best_effort_terminate-eq-terminated_iff h = ground (arith, to_group-eq-true_iff)

-- With the signal strategy, a scan of distinct processes always completes, and judges every process
-- of the snapshot by its own record.
pub signal_scan-judges :
    (config : WatchdogConfig) (system : ℕ → ProcessRecord → ℕ → System) (now : ℕ)
    (processes : List (ℕ × ProcessRecord)) (table : List (ℕ × ℕ)) (registry : Registry)
    → IsDistinct processes
    → (s : ScanState) × (scan_once config
          (λ pid process t. signal_terminate (system pid process t))
          now
          processes
          table
          registry
        ≡ ok s)
      × ((pid : ℕ) (process : ProcessRecord)
          → lookup pid processes ≡ some process
          → Judged config
              (λ pid process t. signal_terminate (system pid process t))
              now
              pid
              process
              (lookup pid table)
              s)
signal_scan-judges config system now processes table registry d =
    let (s, ran, judged, others) =
      scan_once-judges config (λ pid process t. signal_terminate (system pid process t)) now
        processes table registry d
        (λ pid process t. (signal_terminate-eq-terminated_iff (system pid process t)).1) in
    (s, ran, judged)
