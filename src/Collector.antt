-- ===== src/Collector.antt =====
-- cmd/dixmgr/metrics.go: the state of services that `MetricsCollector` keeps beside its Prometheus metrics,
-- with the clock as an argument. The metrics themselves are passed on to the library and left out.
pub mod Downtime
pub mod Restarts
mod Tests
use dotidx.Prelude.{
  ℕ, suc, ◌+◌, ◌-◌, Bool, true, false, Option, none, some, List, [], ◌∷◌, ltb, String, Dict, lookup,
  insert, if◌then◌else◌,
}

-- A time is `none` where it is zero.
pub record ServiceMetricState : Type 0 where
  pub last_healthy : Option ℕ
  pub last_unhealthy : Option ℕ
  pub restart_count : ℕ
  pub total_downtime : ℕ

abbrev pub no_state : ServiceMetricState
no_state = record {
  last_healthy = none;
  last_unhealthy = none;
  restart_count = 0;
  total_downtime = 0;
}

-- `states[service]`, which is the zero state where there is none.
abbrev pub or_zero : Option ServiceMetricState → ServiceMetricState
or_zero none = no_state
or_zero (some s) = s

-- `a.Before(b)`, where the zero time is before all others.
abbrev pub before : Option ℕ → ℕ → Bool
before none b = true
before (some a) b = ltb a b

-- What is added to the downtime when a service is found healthy.
unfoldable pub downtime : ℕ → ServiceMetricState → ℕ
downtime now s = elim s.last_unhealthy [
  | none ↦ 0
  | some since ↦ if before s.last_healthy since then now - since else 0
]

unfoldable pub with_health : ℕ → Bool → ServiceMetricState → ServiceMetricState
unfolding downtime
with_health now healthy s =
    if healthy
    then record s { total_downtime = s.total_downtime + downtime now s; last_healthy = some now }
    else record s { last_unhealthy = some now }

unfoldable pub get_service_state : String → Dict ServiceMetricState → Option ServiceMetricState
unfolding lookup
get_service_state service states = lookup service states

unfoldable pub record_service_health :
    ℕ → String → Bool → Dict ServiceMetricState → Dict ServiceMetricState
unfolding with_health lookup insert
record_service_health now service healthy states =
    insert service (with_health now healthy (or_zero (lookup service states))) states

unfoldable pub record_service_restart : String → Dict ServiceMetricState → Dict ServiceMetricState
unfolding lookup insert
record_service_restart service states =
    let s = or_zero (lookup service states) in
    insert service (record s { restart_count = s.restart_count + 1 }) states

-- Checks that find a service unhealthy, one after another.
unfoldable pub record_unhealthy :
    List ℕ → String → Dict ServiceMetricState → Dict ServiceMetricState
unfolding record_service_health
record_unhealthy [] service states = states
record_unhealthy (now ∷ times) service states =
    record_unhealthy times service (record_service_health now service false states)
