-- ===== src/Collector/Downtime.antt =====
-- cmd/dixmgr/metrics.go: the downtime that is recorded for an outage.
use dotidx.Prelude.{
  ℕ, ◌+◌, ◌-◌, ◌≤◌, ◌≡◌, ◌≢◌, refl, ap, ◌∙◌, Bool, true, false, List, [], ◌∷◌, ◌++◌, String, Dict,
  lookup, lookup-insert_self, lookup-insert_ne, arith,
}
use dotidx.Collector.{
  ServiceMetricState, or_zero, before, with_health, record_service_health, record_unhealthy,
  get_service_state,
}

abbrev pub state_of : String → Dict ServiceMetricState → ServiceMetricState
state_of service states = or_zero (get_service_state service states)

record_service_health-state :
    (now : ℕ) (service : String) (healthy : Bool) (states : Dict ServiceMetricState)
    → state_of service (record_service_health now service healthy states)
      ≡ with_health now healthy (state_of service states)
unfolding record_service_health get_service_state
record_service_health-state now service healthy states =
    ap or_zero (
      lookup-insert_self service (with_health now healthy (or_zero (lookup service states))) states)

record_service_health-other :
    (now : ℕ) (service other : String) (healthy : Bool) (states : Dict ServiceMetricState)
    → service ≢ other
    → get_service_state other (record_service_health now service healthy states)
      ≡ get_service_state other states
unfolding record_service_health get_service_state
record_service_health-other now service other healthy states apart =
    lookup-insert_ne service other _ states apart

-- After unhealthy checks the last of them is noted, and nothing else of the state.
record_unhealthy-state :
    (times : List ℕ) (last : ℕ) (service : String) (states : Dict ServiceMetricState)
    → state_of service (record_unhealthy (times ++ last ∷ []) service states)
      ≡ with_health last false (state_of service states)
unfolding record_unhealthy with_health
record_unhealthy-state [] last service states =
    record_service_health-state last service false states
record_unhealthy-state (now ∷ times) last service states =
    record_unhealthy-state times last service (record_service_health now service false states)
    ∙ ap (with_health last false) (record_service_health-state now service false states)

record_unhealthy-other :
    (times : List ℕ) (service other : String) (states : Dict ServiceMetricState)
    → service ≢ other
    → get_service_state other (record_unhealthy times service states)
      ≡ get_service_state other states
unfolding record_unhealthy
record_unhealthy-other [] service other states apart = refl
record_unhealthy-other (now ∷ times) service other states apart =
    record_unhealthy-other times service other (record_service_health now service false states)
      apart
    ∙ record_service_health-other now service other false states apart

-- The downtime of an outage is counted from its last unhealthy check and not from its first: where a
-- service that was last healthy before `last`, or never, is found unhealthy at `first`, any number of
-- times in between, and at `last`, no earlier, and then healthy at `now`, no earlier, its downtime
-- grows by `now - last`, which is `last - first` less than the outage; its count of restarts and the state of every other service stay as they were.
pub outage-downtime :
    (first last now : ℕ) (times : List ℕ) (service : String) (states : Dict ServiceMetricState)
    → first ≤ last
    → last ≤ now
    → before (state_of service states).last_healthy last ≡ true
    → let after =
        record_service_health now service true
          (record_unhealthy (first ∷ times ++ last ∷ []) service states) in
      ((state_of service after).total_downtime + (last - first)
        ≡ (state_of service states).total_downtime + (now - first))
      × ((state_of service after).restart_count ≡ (state_of service states).restart_count)
      × ((other : String)
          → service ≢ other
          → get_service_state other after ≡ get_service_state other states)
unfolding with_health
outage-downtime first last now times service states low high was_healthy =
    let unhealthy = record_unhealthy (first ∷ times ++ last ∷ []) service states in
    let s = state_of service states in
    let e : state_of service (record_service_health now service true unhealthy)
        ≡ with_health now true (with_health last false s) =
      record_service_health-state now service true unhealthy
      ∙ ap (with_health now true) (record_unhealthy-state (first ∷ times) last service states) in
    (
      rw e (rw was_healthy (omega arith)),
      ap (λ r. r.restart_count) e,
      λ other apart.
          record_service_health-other now service other true unhealthy apart
          ∙ record_unhealthy-other (first ∷ times ++ last ∷ []) service other states apart,
    )
