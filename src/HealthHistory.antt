-- ===== src/HealthHistory.antt =====
-- cmd/dixmgr/healthhistory.go: the history of health events, downtimes, restarts and alerts. A table is
-- the list of its rows in the order of insertion, with the last number that AUTOINCREMENT gave; `ok` is
-- whether the driver carries a statement out, and an error is `none`.
pub mod Queries
pub mod Downtimes
pub mod Purge
pub mod History
mod Tests
use dotidx.Prelude.{
  ℕ, ◌+◌, ◌-◌, ◌/◌, Bool, true, false, ◌&&◌, Option, none, some, ◌>>=◌, List, [], ◌∷◌, ◌++◌, String,
  leb, ◌==◌, if◌then◌else◌,
}

-- The three rates, which are floats, and the metadata are not kept.
pub record HealthEvent : Type 0 where
  pub id : ℕ
  pub timestamp : ℕ
  pub service : String
  pub service_type : String
  pub chain : String
  pub is_healthy : Bool
  pub active_state : String
  pub sub_state : String
  pub memory_bytes : ℕ
  pub peer_count : ℕ
  pub is_synced : Bool
  pub restart_count : ℕ
  pub error_message : String

-- A signed number of seconds: `negsuc n` is `-(n + 1)`.
pub data ℤ : Type 0 where
  pos negsuc : ℕ → ℤ

abbrev pub neg : ℕ → ℤ
neg n = if n == 0 then pos 0 else negsuc (n - 1)

pub record Downtime : Type 0 where
  pub id : ℕ
  pub service : String
  pub start_time : ℕ
  pub end_time : Option ℕ
  pub duration_seconds : Option ℤ
  pub reason : String
  pub resolved : Bool

pub record RestartEvent : Type 0 where
  pub timestamp : ℕ
  pub service : String
  pub reason : String
  pub success : Bool

pub record AlertRow : Type 0 where
  pub id : ℕ
  pub timestamp : ℕ
  pub alert_type : String
  pub severity : String
  pub service : String
  pub message : String
  pub resolved : Bool
  pub resolved_at : Option ℕ

pub record HealthHistoryStore : Type 0 where
  pub enabled : Bool
  pub health_events : List HealthEvent
  pub service_downtime : List Downtime
  pub restart_events : List RestartEvent
  pub alert_history : List AlertRow
  pub last_event : ℕ
  pub last_downtime : ℕ
  pub last_alert : ℕ

-- `marshals` is whether the metadata can be written as JSON.
unfoldable pub record_health_event :
    Bool → Bool → ℕ → HealthEvent → HealthHistoryStore → Option HealthHistoryStore
record_health_event marshals ok now event h =
    if h.enabled
    then if marshals && ok
      then some (record h {
        health_events =
            h.health_events ++ record event { id = h.last_event + 1; timestamp = now } ∷ [];
        last_event = h.last_event + 1;
      })
      else none
    else some h

-- The number of the row, and 0 where the store is disabled.
unfoldable pub record_downtime :
    Bool → String → String → ℕ → HealthHistoryStore → Option (ℕ × HealthHistoryStore)
record_downtime ok service reason start_time h =
    if h.enabled
    then if ok
      then some (
        h.last_downtime + 1,
        record h {
          service_downtime =
              h.service_downtime
              ++ record {
                id = h.last_downtime + 1;
                service = service;
                start_time = start_time;
                end_time = none;
                duration_seconds = none;
                reason = reason;
                resolved = false;
              }
                ∷ [];
          last_downtime = h.last_downtime + 1;
        },
      )
      else none
    else some (0, h)

-- `SELECT start_time FROM service_downtime WHERE id = ?`
unfoldable pub start_time_of : ℕ → List Downtime → Option ℕ
start_time_of id [] = none
start_time_of id (d ∷ ds) =
    let rest = start_time_of id ds in if d.id == id then some d.start_time else rest

-- `UPDATE service_downtime SET ... WHERE id = ?`
unfoldable pub update_downtime : ℕ → ℕ → ℤ → List Downtime → List Downtime
update_downtime id end_time duration [] = []
update_downtime id end_time duration (d ∷ ds) =
    (if d.id == id
      then record d { end_time = some end_time; duration_seconds = some duration; resolved = true }
      else d)
    ∷ update_downtime id end_time duration ds

-- `int(endTime.Sub(startTime).Seconds())`, over times in nanoseconds: rounded towards 0, and negative where
-- the end is before the start by a second or more.
unfoldable pub seconds_between : ℕ → ℕ → ℤ
seconds_between start_time end_time =
    if leb start_time end_time
    then pos ((end_time - start_time) / 1_000_000_000)
    else neg ((start_time - end_time) / 1_000_000_000)

unfoldable pub resolve_downtime : Bool → ℕ → ℕ → HealthHistoryStore → Option HealthHistoryStore
unfolding start_time_of update_downtime seconds_between
resolve_downtime ok id end_time h =
    if h.enabled
    then (start_time_of id h.service_downtime >>= λ start_time.
        if ok
        then some (record h {
          service_downtime =
              update_downtime id end_time (seconds_between start_time end_time) h.service_downtime;
        })
        else none)
    else some h

unfoldable pub record_restart :
    Bool → ℕ → String → String → Bool → HealthHistoryStore → Option HealthHistoryStore
record_restart ok now service reason success h =
    if h.enabled
    then if ok
      then some (record h {
        restart_events =
            h.restart_events
            ++ record { timestamp = now; service = service; reason = reason; success = success }
              ∷ [];
      })
      else none
    else some h

unfoldable pub record_alert :
    Bool
    → ℕ
    → String
    → String
    → String
    → String
    → HealthHistoryStore
    → Option (ℕ × HealthHistoryStore)
record_alert ok now alert_type severity service message h =
    if h.enabled
    then if ok
      then some (
        h.last_alert + 1,
        record h {
          alert_history =
              h.alert_history
              ++ record {
                id = h.last_alert + 1;
                timestamp = now;
                alert_type = alert_type;
                severity = severity;
                service = service;
                message = message;
                resolved = false;
                resolved_at = none;
              }
                ∷ [];
          last_alert = h.last_alert + 1;
        },
      )
      else none
    else some (0, h)

unfoldable pub update_alert : ℕ → ℕ → List AlertRow → List AlertRow
update_alert now id [] = []
update_alert now id (a ∷ alerts) =
    (if a.id == id then record a { resolved = true; resolved_at = some now } else a)
    ∷ update_alert now id alerts

unfoldable pub resolve_alert : Bool → ℕ → ℕ → HealthHistoryStore → Option HealthHistoryStore
unfolding update_alert
resolve_alert ok now id h =
    if h.enabled
    then if ok
      then some (record h { alert_history = update_alert now id h.alert_history })
      else none
    else some h
