-- ===== src/HealthHistory/Tests.antt =====
-- A store with one old event and one old restart.
use dotidx.Prelude.{◌-◌, ◌≡◌, refl, Bool, true, false, some, [], ◌∷◌}
use dotidx.HealthHistory.{HealthEvent, HealthHistoryStore, seconds_between, pos, neg}
use dotidx.HealthHistory.Queries.{get_service_history, events_since, newest_first, insert_event}
use dotidx.HealthHistory.Purge.{
  Table, table_health_events, purge_old_data, recent_events, purge_old_data_fails,
}

abbrev event : HealthEvent
event = record {
  id = 1;
  timestamp = 10;
  service = "relay";
  service_type = "node";
  chain = "polkadot";
  is_healthy = true;
  active_state = "active";
  sub_state = "running";
  memory_bytes = 512;
  peer_count = 20;
  is_synced = true;
  restart_count = 0;
  error_message = "";
}

abbrev history : HealthHistoryStore
history = record {
  enabled = true;
  health_events = event ∷ [];
  service_downtime = [];
  restart_events =
      record { timestamp = 5; service = "relay"; reason = "down"; success = true } ∷ [];
  alert_history = [];
  last_event = 1;
  last_downtime = 0;
  last_alert = 0;
}

abbrev works : Table → Bool
works table = true

purge_old_data_fails_example :
    let (success, purged) = purge_old_data works 1000 100 history in
    (success ≡ false)
    × (purged.restart_events ≡ history.restart_events)
    × (purged.alert_history ≡ history.alert_history)
    × (purged.service_downtime ≡ history.service_downtime)
    × (works table_health_events ≡ true
        → purged.health_events ≡ recent_events (1000 - 100) history.health_events)
purge_old_data_fails_example = purge_old_data_fails works 1000 100 history refl

asked : get_service_history true "relay" 0 0 history ≡ some (event ∷ [])
unfolding get_service_history events_since newest_first insert_event
asked = refl

whole_seconds :
    (seconds_between 100 5_000_000_100 ≡ pos 5) × (seconds_between 5_000_000_100 100 ≡ neg 5)
unfolding seconds_between
whole_seconds = (refl, refl)
