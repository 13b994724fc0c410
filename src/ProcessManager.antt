-- ===== src/ProcessManager.antt =====
-- cmd/dixmgr/process_manager_direct.go: `DirectManager`, which runs processes itself. The children
-- are its ring buffer of output lines (`Ring`), `Start`, what becomes of a process that exits
-- (`Restarts`), and `Kill`, `List` and `Close` (`Signals`). The operating system is given by its answers: whether the preparations of a start
-- succeed, the process identifier, the outcome of `Wait`. Files, pipes, error texts and metrics are left out.
pub mod Ring
pub mod Start
pub mod Restarts
pub mod Signals
mod Tests
use dotidx.Prelude.{
  ℕ, zero, suc, ◌+◌, Bool, true, false, not, ◌&&◌, ◌||◌, Option, none, some, List, [], ◌∷◌, ltb,
  ◌==◌, if◌then◌else◌, String, str_eq, Dict, lookup, insert,
}

pub data ProcessState : Type 0 where
  unknown stopped starting running stopping failed : ProcessState

pub data RestartPolicy : Type 0 where
  restart_always restart_on_failure restart_never : RestartPolicy

-- The exit code of a process; -1 is what Go gives for one that a signal ended.
pub data ExitCode : Type 0 where
  exited : ℕ → ExitCode
  signalled : ExitCode

abbrev pub is_zero : ExitCode → Bool
is_zero (exited n) = n == 0
is_zero signalled = false

pub record ProcessConfig : Type 0 where
  pub name : String
  pub restart_policy : RestartPolicy
  pub restart_delay : ℕ

pub record ManagedProcess : Type 0 where
  pub config : ProcessConfig
  pub state : ProcessState
  pub pid : ℕ
  pub start_time : ℕ
  pub restart_count : ℕ
  pub exit_code : ExitCode

-- `scheduled` are the restarts that `time.AfterFunc` will start, with their delays.
pub record DirectManager : Type 0 where
  pub max_restarts : ℕ
  pub processes : Dict ManagedProcess
  pub scheduled : List (ℕ × ProcessConfig)

-- `proc.State == StateRunning || proc.State == StateStarting`
abbrev pub is_up : ProcessState → Bool
is_up unknown = false
is_up starting = true
is_up running = true
is_up stopping = false
is_up stopped = false
is_up failed = false

abbrev pub is_running : Option ManagedProcess → Bool
is_running none = false
is_running (some proc) = is_up proc.state

-- `pid` is `none` where a preparation, or `cmd.Start`, gives an error. The second result tells
-- whether there was no error.
unfoldable pub start : ℕ → Option ℕ → ProcessConfig → DirectManager → DirectManager × Bool
start now pid config m =
    if is_running (lookup config.name m.processes) then (m, false) else elim pid [
      | none ↦ (m, false)
      | some pid ↦ (
        record m {
          processes =
              insert config.name
                (record {
                  config = config;
                  state = running;
                  pid = pid;
                  start_time = now;
                  restart_count = 0;
                  exit_code = exited 0;
                })
                m.processes;
        },
        true,
      )
    ]

-- The outcome of `proc.Cmd.Wait()`.
pub data Wait : Type 0 where
  finished wait_error : Wait
  exit_error : ExitCode → Wait

unfoldable pub record_exit : Wait → ManagedProcess → ManagedProcess
record_exit finished proc = record proc { exit_code = exited 0; state = stopped }
record_exit wait_error proc = record proc { state = failed }
record_exit (exit_error code) proc = record proc { exit_code = code; state = failed }

unfoldable pub should_restart : RestartPolicy → ExitCode → Bool
should_restart restart_always code = true
should_restart restart_on_failure code = not (is_zero code)
should_restart restart_never code = false

abbrev pub default_delay : ℕ
default_delay = 5_000_000_000

-- A write to the process object: it shows in the map where the object still stands there. An object
-- is told by its process identifier, which no other process has before `Wait` has returned.
unfoldable pub store : ManagedProcess → DirectManager → DirectManager
store proc m = elim (lookup proc.config.name m.processes) [
  | none ↦ m
  | some held ↦
      if held.pid == proc.pid
      then record m { processes = insert proc.config.name proc m.processes }
      else m
]

abbrev pub delay_of : ProcessConfig → ℕ
delay_of config = if config.restart_delay == 0 then default_delay else config.restart_delay

-- `monitorProcess` of a process, from its exit on.
unfoldable pub monitor_process : Wait → ManagedProcess → DirectManager → DirectManager
unfolding record_exit should_restart store
monitor_process outcome proc m =
    let ended = record_exit outcome proc in
    if should_restart ended.config.restart_policy ended.exit_code
      && (m.max_restarts == 0 || ltb ended.restart_count m.max_restarts)
    then record (store (record ended { restart_count = ended.restart_count + 1 }) m) {
      scheduled = (delay_of ended.config, ended.config) ∷ m.scheduled;
    }
    else store ended m

-- The timer of the restart that was scheduled last goes off.
unfoldable pub fire_restart : ℕ → Option ℕ → DirectManager → DirectManager
unfolding start
fire_restart now pid m = elim m.scheduled [
  | [] ↦ m
  | (delay, config) ∷ later ↦ (start now pid config (record m { scheduled = later })).0
]

-- `Stop` up to the signal, where `signalled_ok` tells whether SIGTERM can be sent. The exit of the
-- process is what `monitor_process` does; no other state is changed.
unfoldable pub stop : Bool → String → DirectManager → DirectManager × Bool
stop signalled_ok name m = elim (lookup name m.processes) [
  | none ↦ (m, false)
  | some proc ↦
      if is_up proc.state
      then (
        record m { processes = insert name (record proc { state = stopping }) m.processes },
        signalled_ok,
      )
      else (m, false)
]

-- `Restart`: the error of `Stop` is ignored. The exit of the process, if it happens while `Stop`
-- waits, is given as `exit`.
unfoldable pub restart :
    Bool
    → (DirectManager → DirectManager)
    → ℕ
    → Option ℕ
    → String
    → DirectManager
    → DirectManager × Bool
unfolding stop start
restart signalled_ok exit now pid name m =
    let m = exit (stop signalled_ok name m).0 in
    elim (lookup name m.processes) [ none ↦ (m, false) | some proc ↦ start now pid proc.config m ]

pub record ProcessStatus : Type 0 where
  pub name : String
  pub state : ProcessState
  pub pid : ℕ
  pub start_time : ℕ
  pub restart_count : ℕ
  pub exit_code : ExitCode
  pub healthy : Bool

abbrev pub is_healthy : ProcessState → Bool
is_healthy unknown = false
is_healthy running = true
is_healthy starting = false
is_healthy stopping = false
is_healthy stopped = false
is_healthy failed = false

unfoldable pub get_status : String → DirectManager → ProcessStatus
get_status name m = elim (lookup name m.processes) [
  | none ↦ record {
    name = name;
    state = stopped;
    pid = 0;
    start_time = 0;
    restart_count = 0;
    exit_code = exited 0;
    healthy = false;
  }
  | some proc ↦ record {
    name = name;
    state = proc.state;
    pid = proc.pid;
    start_time = proc.start_time;
    restart_count = proc.restart_count;
    exit_code = proc.exit_code;
    healthy = is_healthy proc.state;
  }
]
