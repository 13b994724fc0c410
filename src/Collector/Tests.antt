-- ===== src/Collector/Tests.antt =====
-- An outage of three checks, 10 apart.
use dotidx.Prelude.{◌+◌, ◌-◌, ◌≡◌, ◌≢◌, refl, true, some, [], ◌∷◌, String, Dict, arith}
use dotidx.Collector.{
  ServiceMetricState, no_state, record_service_health, record_service_restart, record_unhealthy,
  get_service_state,
}
use dotidx.Collector.Downtime.{state_of, outage-downtime}

abbrev no_states : Dict ServiceMetricState
no_states = []

counted :
    get_service_state "node"
      (record_service_health 40 "node" true (record_unhealthy (10 ∷ 20 ∷ 30 ∷ []) "node" no_states))
    ≡ some (record {
      last_healthy = some 40;
      last_unhealthy = some 30;
      restart_count = 0;
      total_downtime = 10;
    })
unfolding record_service_health record_unhealthy get_service_state
counted = refl

restarts :
    get_service_state "node"
      (record_service_restart "node" (record_service_restart "node" no_states))
    ≡ some (record no_state { restart_count = 2 })
unfolding record_service_restart get_service_state
restarts = refl

outage-downtime_example :
    let after =
      record_service_health 40 "node" true
        (record_unhealthy (10 ∷ 20 ∷ 30 ∷ []) "node" no_states) in
    ((state_of "node" after).total_downtime + (30 - 10)
      ≡ (state_of "node" no_states).total_downtime + (40 - 10))
    × ((state_of "node" after).restart_count ≡ (state_of "node" no_states).restart_count)
    × ((other : String)
        → "node" ≢ other
        → get_service_state other after ≡ get_service_state other no_states)
unfolding get_service_state
outage-downtime_example =
    outage-downtime 10 30 40 (20 ∷ []) "node" no_states (omega arith) (omega arith) refl
