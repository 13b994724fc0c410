-- ===== src/ProcessManager/Signals.antt =====
-- cmd/dixmgr/process_manager_direct.go: `Kill`, `List` and `Close`, and the processes that they signal.
use mathlib.Core.List.{Mem, mem-cons_self, mem-cons_of_mem}
use mathlib.Core.Option.{some-injective, none-ne-some}
use dotidx.Prelude.{
  ℕ, Bool, List, false, none, if◌then◌else◌, ◌≡◌, ◌≢◌, refl, sym, ap, ◌∙◌, subst, inl, inr,
  Bool-cases, true, some, [], ◌∷◌, String, str_eq, Dict, lookup,
}
use dotidx.ProcessManager.{
  RestartPolicy, restart_always, restart_on_failure, restart_never, ProcessConfig, ManagedProcess,
  DirectManager, is_up, exit_error, signalled, should_restart, record_exit,
}
use dotidx.ProcessManager.Start.{Running}
use dotidx.ProcessManager.Restarts.{exit_and_restart, exit_round}

-- `Kill`, where `killed_ok` tells whether the signal can be sent: the processes that are sent one, and
-- whether there was no error. The manager is not changed: what the exit changes is `monitor_process`.
unfoldable pub kill : Bool → String → DirectManager → List ℕ × Bool
kill killed_ok name m = elim (lookup name m.processes) [
  | none ↦ ([], false)
  | some proc ↦ if killed_ok then (proc.pid ∷ [], true) else ([], false)
]

unfoldable pub list : Dict ManagedProcess → List String
list [] = []
list ((name, proc) ∷ processes) = name ∷ list processes

-- `Close`: the processes that are sent signals. Nothing is changed here either.
unfoldable pub close : Dict ManagedProcess → List ℕ
close [] = []
close ((name, proc) ∷ processes) =
    let rest = close processes in if is_up proc.state then proc.pid ∷ rest else rest

-- A process that is held and up is signalled by `Close`.
close_up :
    (name : String) (proc : ManagedProcess) (processes : Dict ManagedProcess)
    → lookup name processes ≡ some proc
    → is_up proc.state ≡ true
    → Mem proc.pid (close processes)
unfolding close lookup
close_up name proc [] e up = absurd (none-ne-some proc e)
close_up name proc ((first, p) ∷ processes) e up = elim (Bool-cases (str_eq first name)) [
  | inl same ↦
      let here : p ≡ proc = some-injective p proc (rw same at e) in
      let p_up : is_up p.state ≡ true = ap (λ (x : ManagedProcess). is_up x.state) here ∙ up in
      rw p_up (
        subst (λ (x : ManagedProcess). Mem proc.pid (x.pid ∷ close processes)) (sym here)
          mem-cons_self)
  | inr apart ↦
      let later = close_up name proc processes (rw apart at e) up in
      elim (Bool-cases (is_up p.state)) [
        | inl q ↦ rw q (mem-cons_of_mem _ later)
        | inr q ↦ rw q later
      ]
]

killed_restarts :
    (policy : RestartPolicy) → policy ≢ restart_never → should_restart policy signalled ≡ true
unfolding should_restart
killed_restarts restart_always h = refl
killed_restarts restart_on_failure h = refl
killed_restarts restart_never h = absurd (h refl)

-- `Close` and `Kill` end a process only until its restart: a process that runs, unless it is never to be
-- restarted, is signalled by both, and when the signal has ended it its restart is scheduled, and
-- it runs again.
close_undone :
    (config : ProcessConfig) (now old pid : ℕ) (m : DirectManager)
    → config.restart_policy ≢ restart_never
    → Running config old m
    → Mem old (close m.processes)
      × (kill true config.name m ≡ (old ∷ [], true))
      × Running config pid (exit_and_restart now pid (exit_error signalled) config.name m)
unfolding kill record_exit
close_undone config now old pid m policy (proc, l, c, s, p, r) = (
  subst (λ n. Mem n (close m.processes)) p (close_up config.name proc m.processes l (ap is_up s)),
  rw (l, kill) (ap (λ n. (n ∷ [], true)) p),
  (exit_round now pid config (exit_error signalled) m
      (λ ended. killed_restarts config.restart_policy policy) (proc, l, c, r)).0,
)
