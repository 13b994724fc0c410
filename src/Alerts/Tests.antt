-- ===== src/Alerts/Tests.antt =====
-- Alerts at concrete inputs.
use dotidx.Prelude.{
  ◌<◌, ◌++◌, String, true, ◌≡◌, ◌≢◌, refl, some, List, [], ◌∷◌, All, arith, eq_iff, lookup,
}
use dotidx.Alerts.{
  Alert, AlertManager, Event, fire, resolve, run, generate_fingerprint, is_duplicate,
}
use dotidx.Alerts.Active.{IsActive}
use dotidx.Alerts.Dedupe.{run-deduplicates}
use dotidx.Alerts.Defaults.{
  Reading, resource_usage, health_check, get_cpu_usage, default_rules, memory_and_disk_rules,
  restart_loop, status_rules,
}
use dotidx.Alerts.Defaults.Fires.{
  restart_fingerprint, restart_loop-IsActive, evaluate-get_cpu_usage,
}
use dotidx.Alerts.Gauges.{run_gauges, run_gauges-IsStuck}
use dotidx.Alerts.Rules.{evaluate}
use dotidx.Collector.Restarts.{Report, restart, check, record_reports, restarts_of}

abbrev down : Alert
down = record {
  type = "service_down";
  severity = "critical";
  service = "node";
  message = "gone";
  timestamp = 100;
}

abbrev slow : Alert
slow = record {
  type = "high_cpu";
  severity = "warning";
  service = "node";
  message = "90%";
  timestamp = 0;
}

-- A history of two alerts.
abbrev manager : AlertManager
manager = record {
  channels = [];
  active_alerts = ("service_down:node:critical", down) ∷ [];
  alert_history = down ∷ [];
  dedupe_window = 60;
  max_history_size = 2;
}

abbrev events : List Event
events = fire 120 down ∷ fire 130 slow ∷ resolve slow ∷ fire 140 slow ∷ fire 150 down ∷ []

slow_apart : generate_fingerprint slow ≢ "service_down:node:critical"
unfolding generate_fingerprint
slow_apart = λ e. ground (arith, eq_iff (generate_fingerprint slow) "service_down:node:critical")

run-deduplicates_example :
    let (am', sent) = run events manager in
    All (λ alert. generate_fingerprint alert ≢ "service_down:node:critical") sent
    × (lookup "service_down:node:critical" am'.active_alerts ≡ some down)
unfolding lookup
run-deduplicates_example =
    run-deduplicates events manager "service_down:node:critical" down refl
      (omega arith, (omega arith, (slow_apart, (omega arith, (omega arith, tt)))))

run_gauges-IsStuck_example :
    0
    < (run_gauges (fire 130 slow ∷ resolve slow ∷ []) (manager, λ type severity. 0)).1 "high_cpu"
        "warning"
unfolding is_duplicate generate_fingerprint lookup
run_gauges-IsStuck_example =
    run_gauges-IsStuck 130 slow manager (λ type severity. 0) (resolve slow ∷ []) refl

abbrev quiet : String → Reading → String
quiet name reading = name

-- Three restarts, hours apart, and a healthy check after them.
abbrev reports : List Report
reports =
    restart "node"
    ∷ check 3_600 "node" true
    ∷ restart "node"
    ∷ restart "other"
    ∷ restart "node"
    ∷ check 86_400 "node" true
    ∷ []

restart_loop-IsActive_example : IsActive (restart_fingerprint "node") (
    evaluate 90_000 "node"
      (health_check true)
      (default_rules quiet (record_reports reports []))
      manager)
unfolding restarts_of
restart_loop-IsActive_example =
    restart_loop-IsActive quiet 90_000 "node" (health_check true) reports [] manager (omega arith)

-- Eight cores that are used fully.
evaluate-get_cpu_usage_example :
    let usage =
      resource_usage
        (get_cpu_usage (record { utime = 100; stime = 20 }) (record { utime = 160; stime = 40 }))
        1_000
        0
        0 in
    evaluate 90_000 "node" usage (default_rules quiet []) manager
    ≡ evaluate 90_000 "node" usage
        (memory_and_disk_rules quiet [] ++ restart_loop quiet [] ∷ status_rules quiet [])
        manager
evaluate-get_cpu_usage_example =
    evaluate-get_cpu_usage quiet 90_000 "node" (record { utime = 100; stime = 20 })
      (record { utime = 160; stime = 40 }) 8 1_000 0 0 [] manager (omega arith) (omega arith)
      (omega arith) (omega arith)

used_fully :
    get_cpu_usage (record { utime = 100; stime = 20 }) (record { utime = 160; stime = 40 }) ≡ 80
unfolding get_cpu_usage
used_fully = refl
