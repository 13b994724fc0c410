-- ===== src/DynamicConfig/Saved.antt =====
-- cmd/dixmgr/dynamic_config.go: the settings as they are written by `SaveToFile` and `ToJSON`.
-- `duration_string` is `Duration.String`, and `read_back` what a value is after it is written to TOML and
-- parsed.
use dotidx.Prelude.{ℕ, ◌≡◌, refl, [], ◌∷◌, All, some, String, Dict, lookup}
use dotidx.DynamicConfig.{
  Value, bool_value, float64_value, int64_value, int_value, string_value, DynamicConfig, key_of,
  set_key, set, panicked,
}

module _ (duration_string : ℕ → String) where
  unfoldable pub saved : DynamicConfig → Dict Value
  saved c =
      ("metrics_enabled", bool_value c.metrics_enabled)
      ∷ ("alerts_enabled", bool_value c.alerts_enabled)
      ∷ ("resource_monitoring_enabled", bool_value c.resource_monitoring_enabled)
      ∷ ("health_history_enabled", bool_value c.health_history_enabled)
      ∷ ("cpu_warning_threshold", float64_value c.cpu_warning_threshold)
      ∷ ("cpu_critical_threshold", float64_value c.cpu_critical_threshold)
      ∷ ("memory_warning_threshold", int64_value c.memory_warning_threshold)
      ∷ ("memory_critical_threshold", int64_value c.memory_critical_threshold)
      ∷ ("disk_io_warning_threshold", float64_value c.disk_io_warning_threshold)
      ∷ ("circuit_breaker_max_failures", int_value c.circuit_breaker_max_failures)
      ∷ ("circuit_breaker_timeout", string_value (duration_string c.circuit_breaker_timeout))
      ∷ ("alert_dedupe_window", string_value (duration_string c.alert_dedupe_window))
      ∷ ("metrics_port", int_value c.metrics_port)
      ∷ ("metrics_namespace", string_value c.metrics_namespace)
      ∷ ("health_history_db_path", string_value c.health_history_db_path)
      ∷ ("health_history_retention_days", int_value c.health_history_retention_days)
      ∷ []

  -- A saved value whose assignment panics, once it has been read back.
  pub IsLost : (Value → Value) → DynamicConfig → DynamicConfig → String → Type 0
  IsLost read_back c now key =
      (v : Value) × (lookup key (saved c) ≡ some v) × (set key (read_back v) now ≡ panicked)

  -- Where TOML gives integers back as int64 and texts as texts, what is saved of five settings cannot be
  -- set again: `set` panics on the values that are read back for both durations and for all three
  -- settings of type int, whatever the settings are.
  pub saved-IsLost :
      (read_back : Value → Value) (c now : DynamicConfig)
      → ((n : ℕ) → read_back (int_value n) ≡ int64_value n)
      → ((s : String) → read_back (string_value s) ≡ string_value s)
      → All (IsLost read_back c now) (
          "circuit_breaker_max_failures" ∷ "circuit_breaker_timeout" ∷ "alert_dedupe_window"
          ∷ "metrics_port" ∷ "health_history_retention_days" ∷ [])
  unfolding IsLost saved set key_of set_key lookup
  saved-IsLost read_back c now ints strings = (
    (int_value c.circuit_breaker_max_failures, refl, rw (ints c.circuit_breaker_max_failures) refl),
    (
      (
        string_value (duration_string c.circuit_breaker_timeout),
        refl,
        rw (strings (duration_string c.circuit_breaker_timeout)) refl,
      ),
      (
        (
          string_value (duration_string c.alert_dedupe_window),
          refl,
          rw (strings (duration_string c.alert_dedupe_window)) refl,
        ),
        (
          (int_value c.metrics_port, refl, rw (ints c.metrics_port) refl),
          (
            (
              int_value c.health_history_retention_days,
              refl,
              rw (ints c.health_history_retention_days) refl,
            ),
            tt,
          ),
        ),
      ),
    ),
  )
