-- ===== src/Alerts/Defaults.antt =====
-- cmd/dixmgr/alert_rules.go: the default rules, and the CPU usage of activities_resources.go that two of
-- them read. CPU usage is in tenths of a percent, which it is a whole number of, and rates are whole
-- numbers of bytes; `message` gives the texts, and `states` are the states of services in the metrics.
pub mod Fires
use dotidx.Prelude.{
  ℕ, ◌+◌, ◌-◌, ◌%◌, Dict, Bool, true, false, not, Option, none, some, List, [], ◌∷◌, ◌++◌, String,
  ltb, leb, if◌then◌else◌,
}
use dotidx.Alerts.Rules.{AlertRule}
use dotidx.Collector.{ServiceMetricState, get_service_state}

pub record ProcStat : Type 0 where
  pub utime : ℕ
  pub stime : ℕ

-- The sums and the difference wrap around at 64 bits; `float64(elapsed) / 100.0 * 10.0` is then as many
-- tenths as `elapsed` has ticks.
unfoldable pub get_cpu_usage : ProcStat → ProcStat → ℕ
get_cpu_usage stat1 stat2 =
    let total_time1 = (stat1.utime + stat1.stime) % 18_446_744_073_709_551_616 in
    let total_time2 = (stat2.utime + stat2.stime) % 18_446_744_073_709_551_616 in
    (total_time2 + 18_446_744_073_709_551_616 - total_time1) % 18_446_744_073_709_551_616

pub data Reading : Type 0 where
  -- CPU, memory, and the rates of reading and writing
  resource_usage : ℕ → ℕ → ℕ → ℕ → Reading
  service_status : Bool → Reading
  health_check : Bool → Reading

abbrev pub cpu_above : ℕ → Reading → Bool
cpu_above limit (resource_usage cpu memory disk_read disk_write) = ltb limit cpu
cpu_above limit _ = false

abbrev pub memory_above : ℕ → Reading → Bool
memory_above limit (resource_usage cpu memory disk_read disk_write) = ltb limit memory
memory_above limit _ = false

abbrev pub disk_above : ℕ → Reading → Bool
disk_above limit (resource_usage cpu memory disk_read disk_write) =
    ltb limit (disk_read + disk_write)
disk_above limit _ = false

abbrev pub is_down : Reading → Bool
is_down (service_status active) = not active
is_down _ = false

abbrev pub is_unhealthy : Reading → Bool
is_unhealthy (health_check healthy) = not healthy
is_unhealthy _ = false

-- `state.RestartCount >= 3`, where the service has a state.
abbrev pub restarted_often : Option ServiceMetricState → Bool
restarted_often none = false
restarted_often (some state) = leb 3 state.restart_count

module _ (message : String → Reading → String) (states : Dict ServiceMetricState) where
  -- A rule that is enabled, over a test.
  abbrev pub rule_of : String → String → String → (String → Reading → Bool) → AlertRule Reading
  rule_of name type severity test = record {
    name = name;
    type = type;
    severity = severity;
    evaluator = λ service r. if test service r then some (message name r) else none;
    enabled = true;
  }

  abbrev pub cpu_rules : List (AlertRule Reading)
  cpu_rules =
      rule_of "HighCPUUsage" "high_cpu" "warning" (λ service. cpu_above 800)
      ∷ rule_of "CriticalCPUUsage" "high_cpu" "critical" (λ service. cpu_above 950)
      ∷ []

  abbrev pub memory_and_disk_rules : List (AlertRule Reading)
  memory_and_disk_rules =
      rule_of "HighMemoryUsage" "high_memory" "warning" (λ service. memory_above 2_147_483_648)
      ∷ rule_of "CriticalMemoryUsage" "high_memory" "critical"
          (λ service. memory_above 4_294_967_296)
      ∷ rule_of "HighDiskIO" "high_disk_io" "warning" (λ service. disk_above 104_857_600)
      ∷ []

  abbrev pub restart_loop : AlertRule Reading
  restart_loop =
      rule_of "RestartLoop" "restart_loop" "critical"
        (λ service r. restarted_often (get_service_state service states))

  abbrev pub status_rules : List (AlertRule Reading)
  status_rules =
      rule_of "LowPeerCount" "low_peer_count" "warning" (λ service r. false)
      ∷ rule_of "ServiceDown" "service_down" "critical" (λ service. is_down)
      ∷ rule_of "HealthCheckFailed" "health_check_failed" "warning" (λ service. is_unhealthy)
      ∷ []

  -- `registerDefaultRules`, in its order.
  unfoldable pub default_rules : List (AlertRule Reading)
  unfolding get_service_state
  default_rules = cpu_rules ++ memory_and_disk_rules ++ restart_loop ∷ status_rules
