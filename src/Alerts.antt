-- ===== src/Alerts.antt =====
-- cmd/dixmgr/alerting.go: `AlertManager`, with the clock as an argument. A channel is the result of
-- its `Send`; labels and annotations are left out, and so are the metrics but for the gauges of active
-- alerts (`Gauges`). A limit is not negative.
pub mod Dedupe
pub mod History
pub mod Rules
pub mod Gauges
pub mod Defaults
pub mod Active
mod Tests
use Prim.Native.String.{◌++◌ as str_append}
use dotidx.Prelude.{
  ℕ, zero, suc, ◌-◌, Bool, true, false, ◌&&◌, Option, none, some, List, [], ◌∷◌, ◌++◌, ltb, ◌==◌,
  ◌||◌, length, drop, since, if◌then◌else◌, String, Dict, lookup, insert, delete,
}

pub record Alert : Type 0 where
  pub type : String
  pub severity : String
  pub service : String
  pub message : String
  pub timestamp : ℕ

pub record AlertManager : Type 0 where
  pub channels : List (Alert → Bool)
  pub active_alerts : Dict Alert
  pub alert_history : List Alert
  pub dedupe_window : ℕ
  pub max_history_size : ℕ

unfoldable pub new_alert_manager : ℕ → AlertManager
new_alert_manager dedupe_window = record {
  channels = [];
  active_alerts = [];
  alert_history = [];
  dedupe_window = dedupe_window;
  max_history_size = 1_000;
}

unfoldable pub register_channel : (Alert → Bool) → AlertManager → AlertManager
register_channel channel am = record am { channels = am.channels ++ channel ∷ [] }

unfoldable pub generate_fingerprint : Alert → String
generate_fingerprint alert =
    str_append alert.type
      (str_append ":" (str_append alert.service (str_append ":" alert.severity)))

-- Whether an alert with the fingerprint is active and was fired within the window.
unfoldable pub is_duplicate : ℕ → String → AlertManager → Bool
is_duplicate now fingerprint am = elim (lookup fingerprint am.active_alerts) [
  | none ↦ false
  | some existing ↦ ltb (since now existing.timestamp) am.dedupe_window
]

-- The history with an alert more, cut to its size.
unfoldable pub extend_history : ℕ → List Alert → Alert → List Alert
extend_history size history alert =
    let longer = history ++ alert ∷ [] in
    if ltb size (length longer) then drop (length longer - size) longer else longer

-- Every channel is sent the alert; the result is whether none of them gave an error.
unfoldable pub send_all : List (Alert → Bool) → Alert → Bool
send_all [] alert = true
send_all (channel ∷ channels) alert =
    let rest = send_all channels alert in if channel alert then rest else false

-- `FireAlert`: the manager, the alert that went out to the channels, if any, and the result.
unfoldable pub fire_alert : ℕ → Alert → AlertManager → AlertManager × Option Alert × Bool
unfolding generate_fingerprint is_duplicate extend_history send_all
fire_alert now alert am =
    let stamped : Alert = record alert { timestamp = now } in
    if is_duplicate now (generate_fingerprint stamped) am then (am, none, true) else (
      record am {
        active_alerts = insert (generate_fingerprint stamped) stamped am.active_alerts;
        alert_history = extend_history am.max_history_size am.alert_history stamped;
      },
      some stamped,
      send_all am.channels stamped,
    )

unfoldable pub resolve_alert : Alert → AlertManager → AlertManager
unfolding generate_fingerprint
resolve_alert alert am = record am {
  active_alerts = delete (generate_fingerprint alert) am.active_alerts;
}

unfoldable pub get_alert_history : ℕ → AlertManager → List Alert
get_alert_history limit am =
    let all = length am.alert_history in
    if limit == 0 || ltb all limit
    then drop (all - all) am.alert_history
    else drop (all - limit) am.alert_history

pub data Event : Type 0 where
  fire : ℕ → Alert → Event
  resolve : Alert → Event

abbrev pub cons_sent : Option Alert → List Alert → List Alert
cons_sent none sent = sent
cons_sent (some alert) sent = alert ∷ sent

-- Events one after another: the manager, and the alerts that went out.
unfoldable pub run : List Event → AlertManager → AlertManager × List Alert
run [] am = (am, [])
run (fire now alert ∷ es) am =
    let r = fire_alert now alert am in let later = run es r.0 in (later.0, cons_sent r.1 later.1)
run (resolve alert ∷ es) am = run es (resolve_alert alert am)
