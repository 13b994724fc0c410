-- ===== src/ProcessManager/Start.antt =====
-- cmd/dixmgr/process_manager_direct.go: `Start`.
use dotidx.Prelude.{
  ℕ, ◌≡◌, ◌≢◌, refl, sym, true, false, not, some, String, lookup, lookup-insert_self,
  lookup-insert_ne, true≢false, Bool-cases, inl, inr,
}
use dotidx.ProcessManager.{running, ProcessConfig, ManagedProcess, DirectManager, start, is_running}

-- The process that the last start left under its name.
abbrev pub Running : ProcessConfig → ℕ → DirectManager → Type 0
Running config pid m =
    (proc : ManagedProcess) × (lookup config.name m.processes ≡ some proc)
    × (proc.config ≡ config)
    × (proc.state ≡ running)
    × (proc.pid ≡ pid)
    × (proc.restart_count ≡ 0)

pub start_runs :
    (now pid : ℕ) (config : ProcessConfig) (m : DirectManager)
    → is_running (lookup config.name m.processes) ≡ false
    → let m' = (start now (some pid) config m).0 in
      Running config pid m' × (m'.scheduled ≡ m.scheduled) × (m'.max_restarts ≡ m.max_restarts)
unfolding start
start_runs now pid config m e =
    rw (e, start)
      ((_, lookup-insert_self config.name _ m.processes, refl, refl, refl, refl), refl, refl)

-- `Start` is refused, without any change, just where the process runs or starts; otherwise, where the
-- system gives a process, it runs under its name with no restart counted. No other name is touched.
start_lem :
    (now pid : ℕ) (config : ProcessConfig) (m : DirectManager)
    → let (m', ok) = start now (some pid) config m in
      let up = is_running (lookup config.name m.processes) in
      (ok ≡ not up)
      × (up ≡ true → m' ≡ m)
      × (up ≡ false → Running config pid m')
      × ((name : String) → config.name ≢ name → lookup name m'.processes ≡ lookup name m.processes)
unfolding start
start_lem now pid config m = elim (Bool-cases (is_running (lookup config.name m.processes))) [
  | inl e ↦ rw (e, start) (refl, (λ q. refl), (λ q. absurd (true≢false q)), (λ name h. refl))
  | inr e ↦
      rw (e, start)
        (
          refl,
          (λ q. absurd (true≢false (sym q))),
          (λ q. rw (e, start) at (start_runs now pid config m e).0),
          (λ name h. lookup-insert_ne config.name name _ m.processes h),
        )
]
