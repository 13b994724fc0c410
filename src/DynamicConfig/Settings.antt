-- ===== src/DynamicConfig/Settings.antt =====
-- cmd/dixmgr/dynamic_config.go: what each key of `set` and `Get` stands for.
use dotidx.Prelude.{
  ℕ, zero, suc, ◌≡◌, refl, sym, ap, Bool, some, bind-some, List, [], ◌∷◌, String, get_elem?,
}
use mathlib.Core.Option.{some-injective, none-ne-some}
use dotidx.DynamicConfig.{
  Value, DynamicConfig, Key, key_metrics_enabled, key_alerts_enabled,
  key_resource_monitoring_enabled, key_health_history_enabled, key_cpu_warning_threshold,
  key_cpu_critical_threshold, key_memory_warning_threshold, key_memory_critical_threshold,
  key_disk_io_warning_threshold, key_circuit_breaker_max_failures, key_circuit_breaker_timeout,
  key_alert_dedupe_window, key_metrics_port, key_metrics_namespace, key_health_history_db_path,
  key_health_history_retention_days, bool_value, float64_value, int64_value, int_value,
  duration_value, string_value, other_value, as_bool, as_float64, as_int64, as_int, as_duration,
  as_string, set_key, get_key,
}

-- The settings in the order of the keys.
unfoldable pub settings : DynamicConfig → List Value
settings c =
    bool_value c.metrics_enabled
    ∷ bool_value c.alerts_enabled
    ∷ bool_value c.resource_monitoring_enabled
    ∷ bool_value c.health_history_enabled
    ∷ float64_value c.cpu_warning_threshold
    ∷ float64_value c.cpu_critical_threshold
    ∷ int64_value c.memory_warning_threshold
    ∷ int64_value c.memory_critical_threshold
    ∷ float64_value c.disk_io_warning_threshold
    ∷ int_value c.circuit_breaker_max_failures
    ∷ duration_value c.circuit_breaker_timeout
    ∷ duration_value c.alert_dedupe_window
    ∷ int_value c.metrics_port
    ∷ string_value c.metrics_namespace
    ∷ string_value c.health_history_db_path
    ∷ int_value c.health_history_retention_days
    ∷ []

abbrev pub index : Key → ℕ
index key_metrics_enabled = 0
index key_alerts_enabled = 1
index key_resource_monitoring_enabled = 2
index key_health_history_enabled = 3
index key_cpu_warning_threshold = 4
index key_cpu_critical_threshold = 5
index key_memory_warning_threshold = 6
index key_memory_critical_threshold = 7
index key_disk_io_warning_threshold = 8
index key_circuit_breaker_max_failures = 9
index key_circuit_breaker_timeout = 10
index key_alert_dedupe_window = 11
index key_metrics_port = 12
index key_metrics_namespace = 13
index key_health_history_db_path = 14
index key_health_history_retention_days = 15

abbrev pub replace : ℕ → Value → List Value → List Value
replace i v [] = []
replace zero v (w ∷ ws) = v ∷ ws
replace (suc i) v (w ∷ ws) = w ∷ replace i v ws

pub get_key-settings :
    (k : Key) (c : DynamicConfig) → get_elem? (settings c) (index k) ≡ some (get_key k c)
unfolding settings get_key
get_key-settings key_metrics_enabled c = refl
get_key-settings key_alerts_enabled c = refl
get_key-settings key_resource_monitoring_enabled c = refl
get_key-settings key_health_history_enabled c = refl
get_key-settings key_cpu_warning_threshold c = refl
get_key-settings key_cpu_critical_threshold c = refl
get_key-settings key_memory_warning_threshold c = refl
get_key-settings key_memory_critical_threshold c = refl
get_key-settings key_disk_io_warning_threshold c = refl
get_key-settings key_circuit_breaker_max_failures c = refl
get_key-settings key_circuit_breaker_timeout c = refl
get_key-settings key_alert_dedupe_window c = refl
get_key-settings key_metrics_port c = refl
get_key-settings key_metrics_namespace c = refl
get_key-settings key_health_history_db_path c = refl
get_key-settings key_health_history_retention_days c = refl

as_bool-some : (v : Value) (x : Bool) → as_bool v ≡ some x → v ≡ bool_value x
as_bool-some (bool_value y) x e = ap bool_value (some-injective y x e)
as_bool-some (float64_value y) x e = elim (none-ne-some x e) [ ]
as_bool-some (int64_value y) x e = elim (none-ne-some x e) [ ]
as_bool-some (int_value y) x e = elim (none-ne-some x e) [ ]
as_bool-some (duration_value y) x e = elim (none-ne-some x e) [ ]
as_bool-some (string_value y) x e = elim (none-ne-some x e) [ ]
as_bool-some other_value x e = elim (none-ne-some x e) [ ]

as_float64-some : (v : Value) (x : String) → as_float64 v ≡ some x → v ≡ float64_value x
as_float64-some (float64_value y) x e = ap float64_value (some-injective y x e)
as_float64-some (bool_value y) x e = elim (none-ne-some x e) [ ]
as_float64-some (int64_value y) x e = elim (none-ne-some x e) [ ]
as_float64-some (int_value y) x e = elim (none-ne-some x e) [ ]
as_float64-some (duration_value y) x e = elim (none-ne-some x e) [ ]
as_float64-some (string_value y) x e = elim (none-ne-some x e) [ ]
as_float64-some other_value x e = elim (none-ne-some x e) [ ]

as_int64-some : (v : Value) (x : ℕ) → as_int64 v ≡ some x → v ≡ int64_value x
as_int64-some (int64_value y) x e = ap int64_value (some-injective y x e)
as_int64-some (bool_value y) x e = elim (none-ne-some x e) [ ]
as_int64-some (float64_value y) x e = elim (none-ne-some x e) [ ]
as_int64-some (int_value y) x e = elim (none-ne-some x e) [ ]
as_int64-some (duration_value y) x e = elim (none-ne-some x e) [ ]
as_int64-some (string_value y) x e = elim (none-ne-some x e) [ ]
as_int64-some other_value x e = elim (none-ne-some x e) [ ]

as_int-some : (v : Value) (x : ℕ) → as_int v ≡ some x → v ≡ int_value x
as_int-some (int_value y) x e = ap int_value (some-injective y x e)
as_int-some (bool_value y) x e = elim (none-ne-some x e) [ ]
as_int-some (float64_value y) x e = elim (none-ne-some x e) [ ]
as_int-some (int64_value y) x e = elim (none-ne-some x e) [ ]
as_int-some (duration_value y) x e = elim (none-ne-some x e) [ ]
as_int-some (string_value y) x e = elim (none-ne-some x e) [ ]
as_int-some other_value x e = elim (none-ne-some x e) [ ]

as_duration-some : (v : Value) (x : ℕ) → as_duration v ≡ some x → v ≡ duration_value x
as_duration-some (duration_value y) x e = ap duration_value (some-injective y x e)
as_duration-some (bool_value y) x e = elim (none-ne-some x e) [ ]
as_duration-some (float64_value y) x e = elim (none-ne-some x e) [ ]
as_duration-some (int64_value y) x e = elim (none-ne-some x e) [ ]
as_duration-some (int_value y) x e = elim (none-ne-some x e) [ ]
as_duration-some (string_value y) x e = elim (none-ne-some x e) [ ]
as_duration-some other_value x e = elim (none-ne-some x e) [ ]

as_string-some : (v : Value) (x : String) → as_string v ≡ some x → v ≡ string_value x
as_string-some (string_value y) x e = ap string_value (some-injective y x e)
as_string-some (bool_value y) x e = elim (none-ne-some x e) [ ]
as_string-some (float64_value y) x e = elim (none-ne-some x e) [ ]
as_string-some (int64_value y) x e = elim (none-ne-some x e) [ ]
as_string-some (int_value y) x e = elim (none-ne-some x e) [ ]
as_string-some (duration_value y) x e = elim (none-ne-some x e) [ ]
as_string-some other_value x e = elim (none-ne-some x e) [ ]

pub set_key-settings :
    (k : Key) (v : Value) (c c' : DynamicConfig)
    → set_key k v c ≡ some c'
    → settings c' ≡ replace (index k) v (settings c)
unfolding settings set_key
set_key-settings key_metrics_enabled v c c' e =
    let (x, read, same) = bind-some (as_bool v) _ c' e in
    rw (as_bool-some v x read) (ap settings (sym (some-injective _ c' same)))
set_key-settings key_alerts_enabled v c c' e =
    let (x, read, same) = bind-some (as_bool v) _ c' e in
    rw (as_bool-some v x read) (ap settings (sym (some-injective _ c' same)))
set_key-settings key_resource_monitoring_enabled v c c' e =
    let (x, read, same) = bind-some (as_bool v) _ c' e in
    rw (as_bool-some v x read) (ap settings (sym (some-injective _ c' same)))
set_key-settings key_health_history_enabled v c c' e =
    let (x, read, same) = bind-some (as_bool v) _ c' e in
    rw (as_bool-some v x read) (ap settings (sym (some-injective _ c' same)))
set_key-settings key_cpu_warning_threshold v c c' e =
    let (x, read, same) = bind-some (as_float64 v) _ c' e in
    rw (as_float64-some v x read) (ap settings (sym (some-injective _ c' same)))
set_key-settings key_cpu_critical_threshold v c c' e =
    let (x, read, same) = bind-some (as_float64 v) _ c' e in
    rw (as_float64-some v x read) (ap settings (sym (some-injective _ c' same)))
set_key-settings key_memory_warning_threshold v c c' e =
    let (x, read, same) = bind-some (as_int64 v) _ c' e in
    rw (as_int64-some v x read) (ap settings (sym (some-injective _ c' same)))
set_key-settings key_memory_critical_threshold v c c' e =
    let (x, read, same) = bind-some (as_int64 v) _ c' e in
    rw (as_int64-some v x read) (ap settings (sym (some-injective _ c' same)))
set_key-settings key_disk_io_warning_threshold v c c' e =
    let (x, read, same) = bind-some (as_float64 v) _ c' e in
    rw (as_float64-some v x read) (ap settings (sym (some-injective _ c' same)))
set_key-settings key_circuit_breaker_max_failures v c c' e =
    let (x, read, same) = bind-some (as_int v) _ c' e in
    rw (as_int-some v x read) (ap settings (sym (some-injective _ c' same)))
set_key-settings key_circuit_breaker_timeout v c c' e =
    let (x, read, same) = bind-some (as_duration v) _ c' e in
    rw (as_duration-some v x read) (ap settings (sym (some-injective _ c' same)))
set_key-settings key_alert_dedupe_window v c c' e =
    let (x, read, same) = bind-some (as_duration v) _ c' e in
    rw (as_duration-some v x read) (ap settings (sym (some-injective _ c' same)))
set_key-settings key_metrics_port v c c' e =
    let (x, read, same) = bind-some (as_int v) _ c' e in
    rw (as_int-some v x read) (ap settings (sym (some-injective _ c' same)))
set_key-settings key_metrics_namespace v c c' e =
    let (x, read, same) = bind-some (as_string v) _ c' e in
    rw (as_string-some v x read) (ap settings (sym (some-injective _ c' same)))
set_key-settings key_health_history_db_path v c c' e =
    let (x, read, same) = bind-some (as_string v) _ c' e in
    rw (as_string-some v x read) (ap settings (sym (some-injective _ c' same)))
set_key-settings key_health_history_retention_days v c c' e =
    let (x, read, same) = bind-some (as_int v) _ c' e in
    rw (as_int-some v x read) (ap settings (sym (some-injective _ c' same)))
