-- ===== src/DynamicConfig/Tests.antt =====
-- The settings that a manager starts with.
use dotidx.Prelude.{ℕ, ◌≡◌, ◌≢◌, refl, false, some, [], ◌∷◌, All, String, Dict}
use dotidx.DynamicConfig.{
  Value, bool_value, int64_value, int_value, new_dynamic_config, set, get, key_of, set_key,
}
use dotidx.DynamicConfig.GetSet.{get-set}
use dotidx.DynamicConfig.Saved.{IsLost, saved-IsLost}
use dotidx.DynamicConfig.Server.{World, update_config, get_config, serve}
use dotidx.DynamicConfig.Blocked.{NoSuccess, serve-NoSuccess}

abbrev port : String
port = "metrics_port"

abbrev namespace : String
namespace = "metrics_namespace"

get-set_example :
    (get port (record new_dynamic_config { metrics_port = 8080 }) ≡ some (int_value 8080))
    × (port ≢ namespace
        → get namespace (record new_dynamic_config { metrics_port = 8080 })
          ≡ get namespace new_dynamic_config)
unfolding set key_of set_key
get-set_example = get-set port namespace (int_value 8080) new_dynamic_config _ refl

abbrev toml : Value → Value
toml (int_value n) = int64_value n
toml v = v

abbrev seconds : ℕ → String
seconds d = "1m0s"

saved-IsLost_example : All (IsLost seconds toml new_dynamic_config new_dynamic_config) (
    "circuit_breaker_max_failures" ∷ "circuit_breaker_timeout" ∷ "alert_dedupe_window"
    ∷ "metrics_port" ∷ "health_history_retention_days" ∷ [])
saved-IsLost_example =
    saved-IsLost seconds toml new_dynamic_config new_dynamic_config (λ n. refl) (λ s. refl)

abbrev idle : World
idle = record { mu = record { writer = false; readers = 0 }; config = new_dynamic_config }

abbrev updates : Dict Value
updates = ("alerts_enabled", bool_value false) ∷ []

serve-NoSuccess_example :
    All NoSuccess
      (serve seconds (update_config "POST" (some (some updates)) ∷ get_config "GET" ∷ []) idle)
serve-NoSuccess_example = serve-NoSuccess seconds updates (get_config "GET" ∷ []) idle refl
