-- ===== src/DynamicConfig.antt =====
-- cmd/dixmgr/dynamic_config.go: settings that can be changed at run time. A float64 is its shortest
-- decimal text, since nothing is computed with it. `Key` are the cases of the two `switch` statements,
-- of which `key_of` is the comparison of texts.
pub mod Settings
pub mod GetSet
pub mod Saved
pub mod Server
pub mod Blocked
mod Tests
use dotidx.Prelude.{
  ℕ, ◌*◌, Bool, true, false, Option, none, some, ◌>>=◌, String, List, [], ◌∷◌, Dict, lookup,
}

-- A value of `interface{}`, by its dynamic type.
pub data Value : Type 0 where
  bool_value : Bool → Value
  float64_value : String → Value
  int64_value : ℕ → Value
  int_value : ℕ → Value
  duration_value : ℕ → Value
  string_value : String → Value
  other_value : Value

pub record DynamicConfig : Type 0 where
  pub metrics_enabled : Bool
  pub alerts_enabled : Bool
  pub resource_monitoring_enabled : Bool
  pub health_history_enabled : Bool
  pub cpu_warning_threshold : String
  pub cpu_critical_threshold : String
  pub memory_warning_threshold : ℕ
  pub memory_critical_threshold : ℕ
  pub disk_io_warning_threshold : String
  pub circuit_breaker_max_failures : ℕ
  pub circuit_breaker_timeout : ℕ
  pub alert_dedupe_window : ℕ
  pub metrics_port : ℕ
  pub metrics_namespace : String
  pub health_history_db_path : String
  pub health_history_retention_days : ℕ
  -- the registered callbacks, by number
  pub on_change : ℕ

pub data Key : Type 0 where
  key_metrics_enabled key_alerts_enabled key_resource_monitoring_enabled key_health_history_enabled
        key_cpu_warning_threshold key_cpu_critical_threshold key_memory_warning_threshold
        key_memory_critical_threshold key_disk_io_warning_threshold key_circuit_breaker_max_failures
        key_circuit_breaker_timeout key_alert_dedupe_window key_metrics_port key_metrics_namespace
        key_health_history_db_path key_health_history_retention_days :
      Key

unfoldable pub new_dynamic_config : DynamicConfig
new_dynamic_config = record {
  metrics_enabled = true;
  alerts_enabled = true;
  resource_monitoring_enabled = true;
  health_history_enabled = false;
  cpu_warning_threshold = "80";
  cpu_critical_threshold = "95";
  memory_warning_threshold = 2 * 1024 * 1024 * 1024;
  memory_critical_threshold = 4 * 1024 * 1024 * 1024;
  disk_io_warning_threshold = "104857600";
  circuit_breaker_max_failures = 5;
  circuit_breaker_timeout = 60 * 1_000_000_000;
  alert_dedupe_window = 5 * 60 * 1_000_000_000;
  metrics_port = 9090;
  metrics_namespace = "dixmgr";
  health_history_db_path = "/var/lib/dixmgr/health.db";
  health_history_retention_days = 30;
  on_change = 0;
}

-- The type assertions, each `none` where it panics.
abbrev pub as_bool : Value → Option Bool
as_bool (bool_value x) = some x
as_bool _ = none

abbrev pub as_float64 : Value → Option String
as_float64 (float64_value x) = some x
as_float64 _ = none

abbrev pub as_int64 : Value → Option ℕ
as_int64 (int64_value x) = some x
as_int64 _ = none

abbrev pub as_int : Value → Option ℕ
as_int (int_value x) = some x
as_int _ = none

abbrev pub as_duration : Value → Option ℕ
as_duration (duration_value x) = some x
as_duration _ = none

abbrev pub as_string : Value → Option String
as_string (string_value x) = some x
as_string _ = none

-- The cases of the `switch`, in their order.
abbrev pub cases : Dict Key
cases =
    ("metrics_enabled", key_metrics_enabled)
    ∷ ("alerts_enabled", key_alerts_enabled)
    ∷ ("resource_monitoring_enabled", key_resource_monitoring_enabled)
    ∷ ("health_history_enabled", key_health_history_enabled)
    ∷ ("cpu_warning_threshold", key_cpu_warning_threshold)
    ∷ ("cpu_critical_threshold", key_cpu_critical_threshold)
    ∷ ("memory_warning_threshold", key_memory_warning_threshold)
    ∷ ("memory_critical_threshold", key_memory_critical_threshold)
    ∷ ("disk_io_warning_threshold", key_disk_io_warning_threshold)
    ∷ ("circuit_breaker_max_failures", key_circuit_breaker_max_failures)
    ∷ ("circuit_breaker_timeout", key_circuit_breaker_timeout)
    ∷ ("alert_dedupe_window", key_alert_dedupe_window)
    ∷ ("metrics_port", key_metrics_port)
    ∷ ("metrics_namespace", key_metrics_namespace)
    ∷ ("health_history_db_path", key_health_history_db_path)
    ∷ ("health_history_retention_days", key_health_history_retention_days)
    ∷ []

unfoldable pub key_of : String → Option Key
unfolding lookup
key_of key = lookup key cases

-- An assignment of `set`; `none` is a panic, which leaves the settings as they were.
unfoldable pub set_key : Key → Value → DynamicConfig → Option DynamicConfig
set_key key_metrics_enabled v c = as_bool v >>= λ x. some (record c { metrics_enabled = x })
set_key key_alerts_enabled v c = as_bool v >>= λ x. some (record c { alerts_enabled = x })
set_key key_resource_monitoring_enabled v c =
    as_bool v >>= λ x. some (record c { resource_monitoring_enabled = x })
set_key key_health_history_enabled v c =
    as_bool v >>= λ x. some (record c { health_history_enabled = x })
set_key key_cpu_warning_threshold v c =
    as_float64 v >>= λ x. some (record c { cpu_warning_threshold = x })
set_key key_cpu_critical_threshold v c =
    as_float64 v >>= λ x. some (record c { cpu_critical_threshold = x })
set_key key_memory_warning_threshold v c =
    as_int64 v >>= λ x. some (record c { memory_warning_threshold = x })
set_key key_memory_critical_threshold v c =
    as_int64 v >>= λ x. some (record c { memory_critical_threshold = x })
set_key key_disk_io_warning_threshold v c =
    as_float64 v >>= λ x. some (record c { disk_io_warning_threshold = x })
set_key key_circuit_breaker_max_failures v c =
    as_int v >>= λ x. some (record c { circuit_breaker_max_failures = x })
set_key key_circuit_breaker_timeout v c =
    as_duration v >>= λ x. some (record c { circuit_breaker_timeout = x })
set_key key_alert_dedupe_window v c =
    as_duration v >>= λ x. some (record c { alert_dedupe_window = x })
set_key key_metrics_port v c = as_int v >>= λ x. some (record c { metrics_port = x })
set_key key_metrics_namespace v c = as_string v >>= λ x. some (record c { metrics_namespace = x })
set_key key_health_history_db_path v c =
    as_string v >>= λ x. some (record c { health_history_db_path = x })
set_key key_health_history_retention_days v c =
    as_int v >>= λ x. some (record c { health_history_retention_days = x })

unfoldable pub get_key : Key → DynamicConfig → Value
get_key key_metrics_enabled c = bool_value c.metrics_enabled
get_key key_alerts_enabled c = bool_value c.alerts_enabled
get_key key_resource_monitoring_enabled c = bool_value c.resource_monitoring_enabled
get_key key_health_history_enabled c = bool_value c.health_history_enabled
get_key key_cpu_warning_threshold c = float64_value c.cpu_warning_threshold
get_key key_cpu_critical_threshold c = float64_value c.cpu_critical_threshold
get_key key_memory_warning_threshold c = int64_value c.memory_warning_threshold
get_key key_memory_critical_threshold c = int64_value c.memory_critical_threshold
get_key key_disk_io_warning_threshold c = float64_value c.disk_io_warning_threshold
get_key key_circuit_breaker_max_failures c = int_value c.circuit_breaker_max_failures
get_key key_circuit_breaker_timeout c = duration_value c.circuit_breaker_timeout
get_key key_alert_dedupe_window c = duration_value c.alert_dedupe_window
get_key key_metrics_port c = int_value c.metrics_port
get_key key_metrics_namespace c = string_value c.metrics_namespace
get_key key_health_history_db_path c = string_value c.health_history_db_path
get_key key_health_history_retention_days c = int_value c.health_history_retention_days

-- What `set` comes to.
pub data SetResult : Type 0 where
  updated : DynamicConfig → SetResult
  unknown_key panicked : SetResult

unfoldable pub set : String → Value → DynamicConfig → SetResult
unfolding key_of set_key
set key v c = elim (key_of key) [
  | none ↦ unknown_key
  | some k ↦ elim (set_key k v c) [ none ↦ panicked | some c' ↦ updated c' ]
]

unfoldable pub get : String → DynamicConfig → Option Value
unfolding key_of get_key
get key c = elim (key_of key) [ none ↦ none | some k ↦ some (get_key k c) ]
