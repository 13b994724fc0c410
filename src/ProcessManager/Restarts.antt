-- ===== src/ProcessManager/Restarts.antt =====
-- cmd/dixmgr/process_manager_direct.go: what becomes of a process that exits.
use dotidx.Prelude.{
  ℕ, ◌+◌, ◌≡◌, refl, sym, ap, ◌∙◌, true, false, ◌||◌, none, some, List, [], ◌∷◌, ltb, ◌==◌, String,
  lookup, insert, lookup-insert_self, ==_iff, arith,
}
use dotidx.ProcessManager.{
  restart_always, ProcessConfig, ManagedProcess, DirectManager, is_up, is_running, Wait, finished,
  wait_error, exit_error, record_exit, should_restart, store, monitor_process, fire_restart, stop,
  delay_of,
}
use dotidx.ProcessManager.Start.{Running, start_runs}

-- What the exit of a process leaves of it.
record_exit_lem :
    (outcome : Wait) (proc : ManagedProcess)
    → let ended = record_exit outcome proc in
      (ended.config ≡ proc.config)
      × (ended.pid ≡ proc.pid)
      × (ended.restart_count ≡ proc.restart_count)
      × (is_up ended.state ≡ false)
unfolding record_exit
record_exit_lem finished proc = (refl, refl, refl, refl)
record_exit_lem wait_error proc = (refl, refl, refl, refl)
record_exit_lem (exit_error code) proc = (refl, refl, refl, refl)

store_lem :
    (proc held : ManagedProcess) (m : DirectManager)
    → lookup proc.config.name m.processes ≡ some held
    → held.pid ≡ proc.pid
    → store proc m ≡ record m { processes = insert proc.config.name proc m.processes }
unfolding store
store_lem proc held m l p = rw (l, store) (let e = (==_iff held.pid proc.pid).1 p in rw e refl)

-- A round: the process that stands under `name` exits with `outcome`, and then the timer goes off.
unfoldable pub exit_and_restart : ℕ → ℕ → Wait → String → DirectManager → DirectManager
exit_and_restart now pid outcome name m = elim (lookup name m.processes) [
  | none ↦ m
  | some proc ↦ fire_restart now (some pid) (monitor_process outcome proc m)
]

-- The process that stands under the name of `config` was started with it.
abbrev pub Held : ProcessConfig → DirectManager → Type 0
Held config m =
    (proc : ManagedProcess) × (lookup config.name m.processes ≡ some proc)
    × (proc.config ≡ config)
    × (proc.restart_count ≡ 0)

-- The manager when a process has exited, and its restart is scheduled.
abbrev scheduled_after : ProcessConfig → ManagedProcess → DirectManager → DirectManager
scheduled_after config ended m = record m {
  processes =
      insert config.name (record ended { restart_count = ended.restart_count + 1 }) m.processes;
  scheduled = (delay_of config, config) ∷ m.scheduled;
}

restarted :
    (config : ProcessConfig) (outcome : Wait) (proc : ManagedProcess) (m : DirectManager)
    → let ended = record_exit outcome proc in
      let again : ManagedProcess = record ended { restart_count = ended.restart_count + 1 } in
      should_restart ended.config.restart_policy ended.exit_code ≡ true
      → (m.max_restarts == 0 || ltb ended.restart_count m.max_restarts) ≡ true
      → store again m ≡ record m { processes = insert ended.config.name again m.processes }
      → ended.config ≡ config
      → monitor_process outcome proc m ≡ scheduled_after config ended m
unfolding monitor_process
restarted config outcome proc m ok room stored same =
    let ended = record_exit outcome proc in
    rw (ok, room, monitor_process)
      (ap
          (λ (x : DirectManager). record x {
            scheduled = (delay_of ended.config, ended.config) ∷ m.scheduled;
          })
          stored
        ∙ ap
            (λ c. record m {
              processes =
                  insert c.name (record ended { restart_count = ended.restart_count + 1 })
                    m.processes;
              scheduled = (delay_of c, c) ∷ m.scheduled;
            })
            same)

monitor_schedules :
    (config : ProcessConfig) (outcome : Wait) (proc : ManagedProcess) (m : DirectManager)
    → should_restart config.restart_policy (record_exit outcome proc).exit_code ≡ true
    → lookup config.name m.processes ≡ some proc
    → proc.config ≡ config
    → proc.restart_count ≡ 0
    → monitor_process outcome proc m ≡ scheduled_after config (record_exit outcome proc) m
unfolding monitor_process
monitor_schedules config outcome proc m a l c r =
    let (c', p', r', u) = record_exit_lem outcome proc in
    let ended = record_exit outcome proc in
    let same : ended.config ≡ config = c' ∙ c in
    let none_yet : ended.restart_count ≡ 0 = r' ∙ r in
    let ok : should_restart ended.config.restart_policy ended.exit_code ≡ true =
      ap (λ (x : ProcessConfig). should_restart x.restart_policy ended.exit_code) same ∙ a in
    let room : (m.max_restarts == 0 || ltb ended.restart_count m.max_restarts) ≡ true =
      ground arith in
    let held : lookup ended.config.name m.processes ≡ some proc =
      ap (λ x. lookup x.name m.processes) same ∙ l in
    let stored =
      store_lem (record ended { restart_count = ended.restart_count + 1 }) proc m held (sym p') in
    restarted config outcome proc m ok room stored same

fire_runs :
    (now pid : ℕ) (config : ProcessConfig) (ended : ManagedProcess) (m : DirectManager)
    → is_up ended.state ≡ false
    → let m' = fire_restart now (some pid) (scheduled_after config ended m) in
      Running config pid m' × (m'.scheduled ≡ m.scheduled) × (m'.max_restarts ≡ m.max_restarts)
unfolding fire_restart
fire_runs now pid config ended m u =
    start_runs now pid config (record (scheduled_after config ended m) { scheduled = m.scheduled })
      (ap is_running (lookup-insert_self config.name _ m.processes) ∙ u)

-- The policy has a process restarted that ends like this.
abbrev pub IsRestarted : ProcessConfig → Wait → Type 0
IsRestarted config outcome =
    (proc : ManagedProcess)
    → should_restart config.restart_policy (record_exit outcome proc).exit_code ≡ true

restart_always-IsRestarted :
    (config : ProcessConfig) (outcome : Wait)
    → config.restart_policy ≡ restart_always
    → IsRestarted config outcome
unfolding should_restart
restart_always-IsRestarted config outcome a proc =
    ap (λ policy. should_restart policy (record_exit outcome proc).exit_code) a

pub exit_round :
    (now pid : ℕ) (config : ProcessConfig) (outcome : Wait) (m : DirectManager)
    → IsRestarted config outcome
    → Held config m
    → let m' = exit_and_restart now pid outcome config.name m in
      Running config pid m' × (m'.max_restarts ≡ m.max_restarts)
unfolding exit_and_restart
exit_round now pid config outcome m a (proc, l, c, r) =
    let (c', p', r', u) = record_exit_lem outcome proc in
    let e = monitor_schedules config outcome proc m (a proc) l c r in
    let f = fire_runs now pid config (record_exit outcome proc) m u in
    rw (l, exit_and_restart) (rw e (f.0, f.2))

-- Exits one after another, each with its time, the identifier of the process that is started next,
-- and the outcome.
unfoldable pub exits : List (ℕ × ℕ × Wait) → String → DirectManager → DirectManager
exits [] name m = m
exits ((now, pid, outcome) ∷ later) name m =
    exits later name (exit_and_restart now pid outcome name m)

-- The maximum of restarts does not bound them: each restart makes a new process object, with no
-- restart counted. Under the policy to restart always, a process that exits any number of times,
-- however it exits, runs again after each exit, whatever the maximum, and the count is 0.
pub restarts_unbounded :
    (config : ProcessConfig) (es : List (ℕ × ℕ × Wait)) (pid : ℕ) (m : DirectManager)
    → config.restart_policy ≡ restart_always
    → Running config pid m
    → let m' = exits es config.name m in
      ((last : ℕ) × Running config last m') × (m'.max_restarts ≡ m.max_restarts)
unfolding exits
restarts_unbounded config [] pid m a run = ((pid, run), refl)
restarts_unbounded config ((now, next, outcome) ∷ es) pid m a (proc, l, c, s, p, r) =
    let (run, k) =
      exit_round now next config outcome m (restart_always-IsRestarted config outcome a)
        (proc, l, c, r) in
    let (e, k') =
      restarts_unbounded config es next (exit_and_restart now next outcome config.name m) a run in
    (e, k' ∙ k)

stop_holds :
    (config : ProcessConfig) (pid : ℕ) (m : DirectManager)
    → Running config pid m
    → let (m', ok) = stop true config.name m in
      Held config m' × (ok ≡ true) × (m'.max_restarts ≡ m.max_restarts)
unfolding stop
stop_holds config pid m (proc, l, c, s, p, r) =
    rw (l, stop)
      (rw (s, stop) ((_, lookup-insert_self config.name _ m.processes, c, r), refl, refl))

-- `Stop` does not keep a process stopped that is to be restarted always: when the process exits, as
-- the signal asks it to, its restart is scheduled, and after the delay it runs again.
stop_undone :
    (config : ProcessConfig) (now old pid : ℕ) (outcome : Wait) (m : DirectManager)
    → config.restart_policy ≡ restart_always
    → Running config old m
    → let (m', ok) = stop true config.name m in
      (ok ≡ true) × Running config pid (exit_and_restart now pid outcome config.name m')
stop_undone config now old pid outcome m a run =
    let (held, ok, k) = stop_holds config old m run in
    (
      ok,
      (exit_round now pid config outcome (stop true config.name m).0
          (restart_always-IsRestarted config outcome a) held).0,
    )
