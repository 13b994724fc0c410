-- ===== src/Collector/Restarts.antt =====
-- cmd/dixmgr/metrics.go: the restarts that the metrics have counted.
use dotidx.Prelude.{
  ℕ, ◌+◌, ◌≡◌, refl, ap, ◌∙◌, inl, inr, Bool, Bool-cases, true, false, List, [], ◌∷◌, String,
  str_eq, eq_iff, Dict, insert, lookup-insert, if◌then◌else◌, arith,
}
use dotidx.Collector.{
  ServiceMetricState, with_health, record_service_health, record_service_restart, get_service_state,
}
use dotidx.Collector.Downtime.{state_of}

-- What is reported to the metrics of services.
pub data Report : Type 0 where
  restart : String → Report
  check : ℕ → String → Bool → Report

unfoldable pub record_report : Report → Dict ServiceMetricState → Dict ServiceMetricState
unfolding record_service_restart record_service_health
record_report (restart service) states = record_service_restart service states
record_report (check now service healthy) states = record_service_health now service healthy states

unfoldable pub record_reports : List Report → Dict ServiceMetricState → Dict ServiceMetricState
unfolding record_report
record_reports [] states = states
record_reports (r ∷ reports) states = record_reports reports (record_report r states)

abbrev pub restart_in : String → Report → ℕ
restart_in service (restart other) = if str_eq other service then 1 else 0
restart_in service (check now other healthy) = 0

unfoldable pub restarts_of : String → List Report → ℕ
restarts_of service [] = 0
restarts_of service (r ∷ reports) = restart_in service r + restarts_of service reports

with_health-count :
    (now : ℕ) (healthy : Bool) (s : ServiceMetricState)
    → (with_health now healthy s).restart_count ≡ s.restart_count
unfolding with_health
with_health-count now true s = refl
with_health-count now false s = refl

-- A state that counts `more` restarts than the one it replaces.
state_of-insert :
    (service other : String) (s : ServiceMetricState) (more : ℕ) (states : Dict ServiceMetricState)
    → s.restart_count ≡ (state_of other states).restart_count + more
    → (state_of service (insert other s states)).restart_count
      ≡ (state_of service states).restart_count + (if str_eq other service then more else 0)
unfolding get_service_state
state_of-insert service other s more states e = elim (Bool-cases (str_eq other service)) [
  | inl same ↦
      rw (lookup-insert other service s states, same)
        (e ∙ ap (λ n. (state_of n states).restart_count + more) ((eq_iff other service).0 same))
  | inr apart ↦ rw (lookup-insert other service s states, apart) (omega arith)
]

record_report-count :
    (r : Report) (service : String) (states : Dict ServiceMetricState)
    → (state_of service (record_report r states)).restart_count
      ≡ (state_of service states).restart_count + restart_in service r
unfolding record_report record_service_restart record_service_health get_service_state
record_report-count (restart other) service states =
    let s = state_of other states in
    state_of-insert service other (record s { restart_count = s.restart_count + 1 }) 1 states refl
record_report-count (check now other healthy) service states =
    let s = state_of other states in
    state_of-insert service other (with_health now healthy s) 0 states
      (with_health-count now healthy s ∙ omega arith)
    ∙ ground arith

pub record_reports-count :
    (reports : List Report) (service : String) (states : Dict ServiceMetricState)
    → (state_of service (record_reports reports states)).restart_count
      ≡ (state_of service states).restart_count + restarts_of service reports
unfolding record_reports restarts_of
record_reports-count [] service states = omega arith
record_reports-count (r ∷ reports) service states =
    let ih = record_reports-count reports service (record_report r states) in
    let one = record_report-count r service states in omega (arith, ih, one)
