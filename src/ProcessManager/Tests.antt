-- ===== src/ProcessManager/Tests.antt =====
-- A process manager and a ring buffer at concrete inputs.
use dotidx.Prelude.{ℕ, ◌≡◌, refl, true, false, some, [], ◌∷◌, arith, lookup, insert}
use dotidx.ProcessManager.{
  DirectManager, ProcessConfig, ManagedProcess, running, restart_always, restart_on_failure, exited,
  finished, wait_error, signalled, exit_error, monitor_process, store, record_exit, should_restart,
}
use dotidx.ProcessManager.Start.{Running}
use dotidx.ProcessManager.Restarts.{exits, restarts_unbounded}
use dotidx.ProcessManager.Signals.{kill, list, close}
use dotidx.ProcessManager.Ring.{RingBuffer, new_ring_buffer, get_lines}
use dotidx.ProcessManager.Ring.History.{add_all, get_lines-add_all}

get_lines-add_all_example :
    (rb : RingBuffer) × (add_all ("a" ∷ "b" ∷ "c" ∷ "d" ∷ []) (new_ring_buffer 3) ≡ some rb)
    × (get_lines 2 rb ≡ "c" ∷ "d" ∷ [])
get_lines-add_all_example =
    get_lines-add_all 3 2 ("a" ∷ "b" ∷ "c" ∷ "d" ∷ []) (omega arith)
      (refl, (refl, (refl, (refl, tt))))

abbrev config : ProcessConfig
config = record { name = "node"; restart_policy = restart_always; restart_delay = 0 }

abbrev manager : DirectManager
manager = record {
  max_restarts = 1;
  processes =
      (
        "node",
        record {
          config = config;
          state = running;
          pid = 41;
          start_time = 0;
          restart_count = 0;
          exit_code = exited 0;
        },
      )
      ∷ [];
  scheduled = [];
}

is_held : Running config 41 manager
unfolding lookup
is_held = (_, refl, refl, refl, refl, refl)

-- A maximum of one restart, and three restarts.
restarts_unbounded_example :
    let m' =
      exits
        ((1, 42, exit_error (exited 1)) ∷ (2, 43, finished) ∷ (3, 44, exit_error signalled) ∷ [])
        "node"
        manager in
    ((last : ℕ) × Running config last m') × (m'.max_restarts ≡ 1)
restarts_unbounded_example =
    restarts_unbounded config
      ((1, 42, exit_error (exited 1)) ∷ (2, 43, finished) ∷ (3, 44, exit_error signalled) ∷ []) 41
      manager refl is_held

-- A process whose `Wait` fails otherwise than by an exit code is not restarted on failure.
abbrev careful : ManagedProcess
careful = record {
  config = record { name = "node"; restart_policy = restart_on_failure; restart_delay = 0 };
  state = running;
  pid = 41;
  start_time = 0;
  restart_count = 0;
  exit_code = exited 0;
}

wait_error_test : (monitor_process wait_error careful manager).scheduled ≡ []
unfolding monitor_process record_exit should_restart store lookup insert
wait_error_test = refl

signals : (kill true "node" manager ≡ (41 ∷ [], true)) × (close manager.processes ≡ 41 ∷ [])
unfolding kill close lookup
signals = (refl, refl)

names : (list manager.processes ≡ "node" ∷ []) × (kill true "other" manager ≡ ([], false))
unfolding kill list lookup
names = (refl, refl)
