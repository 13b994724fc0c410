-- ===== src/HealthHistory/Purge.antt =====
-- cmd/dixmgr/healthhistory.go: `PurgeOldData`, which deletes by a column that one table does not have.
use dotidx.Prelude.{
  ℕ, ◌-◌, ◌≡◌, refl, sym, inl, inr, Bool-cases, Bool, true, false, true≢false, ◌||◌, not, List, [],
  ◌∷◌, String, str_eq, ltb, if◌then◌else◌,
}
use dotidx.HealthHistory.{HealthEvent, RestartEvent, AlertRow, HealthHistoryStore}

pub data Table : Type 0 where
  table_health_events table_service_downtime table_restart_events table_alert_history : Table

-- The columns of `initSchema`.
unfoldable pub columns : Table → List String
columns table_health_events =
    "id" ∷ "timestamp" ∷ "service" ∷ "service_type" ∷ "chain" ∷ "is_healthy" ∷ "active_state"
    ∷ "sub_state" ∷ "cpu_percent" ∷ "memory_bytes" ∷ "disk_read_bps" ∷ "disk_write_bps"
    ∷ "peer_count" ∷ "is_synced" ∷ "restart_count" ∷ "error_message" ∷ "metadata" ∷ []
columns table_service_downtime =
    "id" ∷ "service" ∷ "start_time" ∷ "end_time" ∷ "duration_seconds" ∷ "reason" ∷ "resolved" ∷ []
columns table_restart_events = "id" ∷ "timestamp" ∷ "service" ∷ "reason" ∷ "success" ∷ []
columns table_alert_history =
    "id" ∷ "timestamp" ∷ "alert_type" ∷ "severity" ∷ "service" ∷ "message" ∷ "resolved"
    ∷ "resolved_at" ∷ []

unfoldable pub has_column : String → List String → Bool
has_column column [] = false
has_column column (name ∷ names) = str_eq name column || has_column column names

unfoldable pub recent_events : ℕ → List HealthEvent → List HealthEvent
recent_events cutoff [] = []
recent_events cutoff (e ∷ events) =
    let rest = recent_events cutoff events in if ltb e.timestamp cutoff then rest else e ∷ rest

unfoldable pub recent_restarts : ℕ → List RestartEvent → List RestartEvent
recent_restarts cutoff [] = []
recent_restarts cutoff (e ∷ events) =
    let rest = recent_restarts cutoff events in if ltb e.timestamp cutoff then rest else e ∷ rest

unfoldable pub recent_alerts : ℕ → List AlertRow → List AlertRow
recent_alerts cutoff [] = []
recent_alerts cutoff (a ∷ alerts) =
    let rest = recent_alerts cutoff alerts in if ltb a.timestamp cutoff then rest else a ∷ rest

-- The rows that a statement on a table with the column leaves.
unfoldable pub delete_old : ℕ → Table → HealthHistoryStore → HealthHistoryStore
unfolding recent_events recent_restarts recent_alerts
delete_old cutoff table_health_events h = record h {
  health_events = recent_events cutoff h.health_events;
}
delete_old cutoff table_service_downtime h = h
delete_old cutoff table_restart_events h = record h {
  restart_events = recent_restarts cutoff h.restart_events;
}
delete_old cutoff table_alert_history h = record h {
  alert_history = recent_alerts cutoff h.alert_history;
}

-- The loop over the tables, up to the first statement that is an error: one that the driver does not
-- carry out, or on a column that is not there.
unfoldable pub purge_tables :
    (Table → Bool) → ℕ → List Table → HealthHistoryStore → Bool × HealthHistoryStore
unfolding columns has_column delete_old
purge_tables ok cutoff [] h = (true, h)
purge_tables ok cutoff (table ∷ tables) h =
    let rest = purge_tables ok cutoff tables (delete_old cutoff table h) in
    if not (has_column "timestamp" (columns table))
    then (false, h)
    else if ok table
    then rest
    else (false, h)

-- At the time `now`; whether it succeeds.
unfoldable pub purge_old_data :
    (Table → Bool) → ℕ → ℕ → HealthHistoryStore → Bool × HealthHistoryStore
unfolding purge_tables
purge_old_data ok now older_than h =
    if h.enabled
    then purge_tables ok (now - older_than)
        (table_health_events ∷ table_service_downtime ∷ table_restart_events ∷ table_alert_history
          ∷ [])
        h
    else (true, h)

-- On a store that is enabled, purging old data always ends with an error, and leaves all restarts,
-- alerts and downtimes, however old they are; with a driver that works it deletes the old health events
-- only.
pub purge_old_data_fails :
    (ok : Table → Bool) (now older_than : ℕ) (h : HealthHistoryStore)
    → h.enabled ≡ true
    → let (success, purged) = purge_old_data ok now older_than h in
      (success ≡ false)
      × (purged.restart_events ≡ h.restart_events)
      × (purged.alert_history ≡ h.alert_history)
      × (purged.service_downtime ≡ h.service_downtime)
      × (ok table_health_events ≡ true
          → purged.health_events ≡ recent_events (now - older_than) h.health_events)
unfolding purge_old_data
purge_old_data_fails ok now older_than h e =
    rw (e, purge_old_data)
      (elim (Bool-cases (ok table_health_events)) [
        | inl done ↦ rw done (refl, refl, refl, refl, λ x. refl)
        | inr failed ↦ rw failed (refl, refl, refl, refl, λ x. elim (true≢false (sym x)) [ ])
      ])
