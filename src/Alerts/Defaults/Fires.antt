-- ===== src/Alerts/Defaults/Fires.antt =====
-- cmd/dixmgr/alert_rules.go, metrics.go and activities_resources.go: when the default rules on restarts and
-- on CPU usage fire.
use dotidx.Prelude.{
  ℕ, ◌+◌, ◌*◌, ◌≤◌, ◌<◌, ◌≡◌, refl, ◌∙◌, inl, inr, Bool-cases, true, false, Option, none, some,
  List, ◌∷◌, ◌++◌, String, Dict, ltb, arith,
}
use dotidx.Alerts.{AlertManager, generate_fingerprint}
use dotidx.Alerts.Rules.{AlertRule, alert_of, evaluate}
use dotidx.Alerts.Defaults.{
  ProcStat, Reading, resource_usage, get_cpu_usage, restarted_often, cpu_above, rule_of,
  restart_loop, cpu_rules, memory_and_disk_rules, status_rules, default_rules,
}
use dotidx.Collector.{ServiceMetricState, or_zero, get_service_state}
use dotidx.Collector.Restarts.{Report, record_reports, restarts_of, record_reports-count}
use dotidx.Alerts.Active.{IsActive, evaluate-IsActive}

abbrev pub restart_fingerprint : String → String
restart_fingerprint service = generate_fingerprint (record {
  type = "restart_loop";
  severity = "critical";
  service = service;
  message = "";
  timestamp = 0;
})

restarted_often-or_zero :
    (state : Option ServiceMetricState)
    → 3 ≤ (or_zero state).restart_count
    → restarted_often state ≡ true
restarted_often-or_zero none h = ground (arith, h)
restarted_often-or_zero (some s) h = ground (arith, h)

get_cpu_usage-small :
    (stat1 stat2 : ProcStat) (cores : ℕ)
    → stat1.utime + stat1.stime ≤ stat2.utime + stat2.stime
    → stat2.utime + stat2.stime < 18_446_744_073_709_551_616
    → stat2.utime + stat2.stime ≤ stat1.utime + stat1.stime + 10 * cores
    → cores ≤ 80
    → get_cpu_usage stat1 stat2 ≤ 800
unfolding get_cpu_usage
get_cpu_usage-small stat1 stat2 cores up fits busy few = omega arith

-- A rule whose test is not met is passed over.
evaluate-quiet :
    (rule : AlertRule Reading) (now : ℕ) (service : String) (reading : Reading)
    (rules : List (AlertRule Reading)) (am : AlertManager)
    → rule.evaluator service reading ≡ none
    → evaluate now service reading (rule ∷ rules) am ≡ evaluate now service reading rules am
unfolding evaluate
evaluate-quiet rule now service reading rules am e = elim (Bool-cases rule.enabled) [
  | inl on ↦ rw (on, e, evaluate, alert_of) refl
  | inr off ↦ rw (off, evaluate, alert_of) refl
]

module _ (message : String → Reading → String) where
  -- A service that has been restarted three times or more, at any times and with any checks of any services
  -- before, in between and after, has its restart loop alert active after every evaluation of the
  -- default rules for it, whatever the reading is of.
  pub restart_loop-IsActive :
      (now : ℕ) (service : String) (reading : Reading) (reports : List Report)
      (states : Dict ServiceMetricState) (am : AlertManager)
      → 3 ≤ restarts_of service reports
      → IsActive
          (restart_fingerprint service)
          (evaluate now service reading (default_rules message (record_reports reports states)) am)
  unfolding default_rules generate_fingerprint alert_of
  restart_loop-IsActive now service reading reports states am h =
      let later = record_reports reports states in
      let often : restarted_often (get_service_state service later) ≡ true =
        restarted_often-or_zero (get_service_state service later)
          (omega (arith, h, record_reports-count reports service states)) in
      evaluate-IsActive now service reading
        (cpu_rules message later ++ memory_and_disk_rules message later)
        (status_rules message later) (restart_loop message later)
        (record {
          type = "restart_loop";
          severity = "critical";
          service = service;
          message = message "RestartLoop" reading;
          timestamp = now;
        })
        am (rw often refl)

  -- Where the ticks of a process do not fall between two readings, stay below 2 ^ 64 and grow by at
  -- most 10 a core, which is all that a core has in the 100 ms between them, on at most 80 cores,
  -- the default rules do what they do without the two rules on CPU usage.
  pub evaluate-get_cpu_usage :
      (now : ℕ) (service : String) (stat1 stat2 : ProcStat) (cores memory disk_read disk_write : ℕ)
      (states : Dict ServiceMetricState) (am : AlertManager)
      → stat1.utime + stat1.stime ≤ stat2.utime + stat2.stime
      → stat2.utime + stat2.stime < 18_446_744_073_709_551_616
      → stat2.utime + stat2.stime ≤ stat1.utime + stat1.stime + 10 * cores
      → cores ≤ 80
      → let usage = resource_usage (get_cpu_usage stat1 stat2) memory disk_read disk_write in
        evaluate now service usage (default_rules message states) am
        ≡ evaluate now service usage
            (memory_and_disk_rules message states
              ++ restart_loop message states ∷ status_rules message states)
            am
  unfolding default_rules
  evaluate-get_cpu_usage now service stat1 stat2 cores memory disk_read disk_write states am up fits
        busy few =
      let usage = resource_usage (get_cpu_usage stat1 stat2) memory disk_read disk_write in
      let small = get_cpu_usage-small stat1 stat2 cores up fits busy few in
      let warn : ltb 800 (get_cpu_usage stat1 stat2) ≡ false = ground (arith, small) in
      let too : ltb 950 (get_cpu_usage stat1 stat2) ≡ false = ground (arith, small) in
      let high =
        rule_of message states "HighCPUUsage" "high_cpu" "warning" (λ service. cpu_above 800) in
      let critical =
        rule_of message states "CriticalCPUUsage" "high_cpu" "critical"
          (λ service. cpu_above 950) in
      let rest =
        memory_and_disk_rules message states
        ++ restart_loop message states ∷ status_rules message states in
      evaluate-quiet high now service usage (critical ∷ rest) am (rw warn refl)
      ∙ evaluate-quiet critical now service usage rest am (rw too refl)
