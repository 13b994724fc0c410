-- ===== src/Orchestrator.antt =====
-- dix/orchestrator.go: the manager that starts the services of a tree and watches each of them.
-- `tick` is one turn of the loop of `watchService`; `Systemd` are its calls of systemd, `Watch` what
-- it does over time, and `Tree` the traversal of the tree of services.
pub mod Systemd
pub mod Watch
pub mod Tree
mod Tests
use dotidx.Prelude.{
  ℕ, suc, ◌+◌, ◌-◌, ◌*◌, Bool, true, false, ◌&&◌, Option, none, some, List, [], ◌∷◌, ◌++◌, ltb,
  if◌then◌else◌,
}
use dotidx.Orchestrator.Systemd.{
  OrchestratorConfig, Properties, not_read, absent, not_text, active_state, read_active, Job,
  systemd_operation,
}

pub data ServiceHealthStatus : Type 0 where
  status_unknown status_ok status_ko : ServiceHealthStatus

-- The state of a watched service.
pub record ServiceState : Type 0 where
  pub current_status : ServiceHealthStatus
  pub restart_count : ℕ

-- What a turn of the loop meets: the properties, the end of the context during a pause, and what
-- becomes of a restart.
pub record Tick : Type 0 where
  pub properties : Properties
  pub ctx_done : Bool
  pub restart : Job

-- A pause, and a restart with its success.
pub data Event : Type 0 where
  pause : ℕ → Event
  restart_unit : Bool → Event

-- The result of the first check.
unfoldable pub initial_state : Option Bool → ServiceState
initial_state none = record { current_status = status_ko; restart_count = 0 }
initial_state (some active) = record {
  current_status = if active then status_ok else status_ko;
  restart_count = 0;
}

unfoldable pub observe : Properties → ServiceState → ServiceState
unfolding read_active
observe properties s = elim (read_active properties) [
  | some true ↦ record { current_status = status_ok; restart_count = 0 }
  | _ ↦ record s { current_status = status_ko }
]

abbrev pub is_ko : ServiceHealthStatus → Bool
is_ko status_unknown = false
is_ko status_ok = false
is_ko status_ko = true

-- The restart number `attempt`; whether the loop goes on.
unfoldable pub attempt_restart : OrchestratorConfig → Tick → ℕ → List Event × Bool
unfolding systemd_operation
attempt_restart config t attempt =
    let outcome = restart_unit (systemd_operation config.operation_timeout t.restart) in
    let backoff = (attempt - 1) * config.restart_backoff in
    if ltb 1 attempt && ltb 0 config.restart_backoff
    then if t.ctx_done then (pause backoff ∷ [], false) else (pause backoff ∷ outcome ∷ [], true)
    else (outcome ∷ [], true)

-- A turn of the loop.
unfoldable pub tick : OrchestratorConfig → Tick → ServiceState → ServiceState × List Event × Bool
unfolding observe attempt_restart
tick config t s =
    let seen = observe t.properties s in
    let attempt = seen.restart_count + 1 in
    if is_ko seen.current_status && ltb seen.restart_count config.max_restarts
    then (let (events, goes_on) = attempt_restart config t attempt in
        (record seen { restart_count = attempt }, events, goes_on))
    else (seen, [], true)

-- The turns until the context ends or the list is over.
unfoldable pub watch : OrchestratorConfig → List Tick → ServiceState → ServiceState × List Event
unfolding tick
watch config [] s = (s, [])
watch config (t ∷ ts) s =
    let (s', events, goes_on) = tick config t s in
    let (s'', later) = watch config ts s' in
    if goes_on then (s'', events ++ later) else (s', events)
