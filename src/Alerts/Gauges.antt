-- ===== src/Alerts/Gauges.antt =====
-- cmd/dixmgr/alerting.go: `updateActiveAlertMetrics`, which sets the gauges of active alerts, and the
-- alerts that stay active.
use dotidx.Prelude.{
  ℕ, ◌+◌, ◌<◌, ◌≡◌, refl, sym, Bool, false, ◌&&◌, Option, none, some, List, [], ◌∷◌, String, str_eq,
  eq_iff, ◌==◌, Dict, insert, if◌then◌else◌, arith, subst,
}
use dotidx.Alerts.{
  Alert, AlertManager, Event, fire, resolve, generate_fingerprint, is_duplicate, fire_alert,
  resolve_alert, extend_history, send_all,
}

-- The value of each gauge, by the type and the severity.
abbrev pub Gauges : Type 0
Gauges = String → String → ℕ

-- `counts[type][severity]`
unfoldable pub count_active : String → String → Dict Alert → ℕ
count_active type severity [] = 0
count_active type severity ((fingerprint, alert) ∷ alerts) =
    (if str_eq alert.type type && str_eq alert.severity severity then 1 else 0)
    + count_active type severity alerts

-- `counts` has entries for the pairs of active alerts only, and only these gauges are set.
unfoldable pub update_active_alert_metrics : Dict Alert → Gauges → Gauges
unfolding count_active
update_active_alert_metrics active gauges type severity =
    let count = count_active type severity active in
    if count == 0 then gauges type severity else count

-- The gauges after `FireAlert`: a duplicate, which is not sent, makes no update.
unfoldable pub after_fire : AlertManager × Option Alert × Bool → Gauges → AlertManager × Gauges
unfolding update_active_alert_metrics
after_fire (am, none, ok) gauges = (am, gauges)
after_fire (am, some sent, ok) gauges = (am, update_active_alert_metrics am.active_alerts gauges)

unfoldable pub step_gauges : Event → AlertManager × Gauges → AlertManager × Gauges
unfolding fire_alert resolve_alert update_active_alert_metrics after_fire
step_gauges (fire now alert) (am, gauges) = after_fire (fire_alert now alert am) gauges
step_gauges (resolve alert) (am, gauges) =
    let am' = resolve_alert alert am in (am', update_active_alert_metrics am'.active_alerts gauges)

unfoldable pub run_gauges : List Event → AlertManager × Gauges → AlertManager × Gauges
unfolding step_gauges
run_gauges [] s = s
run_gauges (e ∷ events) s = run_gauges events (step_gauges e s)

-- An update leaves a gauge that counts alerts above 0.
update-pos :
    (active : Dict Alert) (gauges : Gauges) (type severity : String)
    → 0 < gauges type severity
    → 0 < update_active_alert_metrics active gauges type severity
unfolding update_active_alert_metrics
update-pos active gauges type severity h = ground arith

after_fire-pos :
    (r : AlertManager × Option Alert × Bool) (gauges : Gauges) (type severity : String)
    → 0 < gauges type severity
    → 0 < (after_fire r gauges).1 type severity
unfolding after_fire
after_fire-pos (am, none, ok) gauges type severity h = h
after_fire-pos (am, some sent, ok) gauges type severity h =
    update-pos am.active_alerts gauges type severity h

step_gauges-pos :
    (e : Event) (am : AlertManager) (gauges : Gauges) (type severity : String)
    → 0 < gauges type severity
    → 0 < (step_gauges e (am, gauges)).1 type severity
unfolding step_gauges
step_gauges-pos (fire now alert) am gauges type severity h =
    after_fire-pos (fire_alert now alert am) gauges type severity h
step_gauges-pos (resolve alert) am gauges type severity h =
    update-pos (resolve_alert alert am).active_alerts gauges type severity h

run_gauges-pos :
    (events : List Event) (am : AlertManager) (gauges : Gauges) (type severity : String)
    → 0 < gauges type severity
    → 0 < (run_gauges events (am, gauges)).1 type severity
unfolding run_gauges
run_gauges-pos [] am gauges type severity h = h
run_gauges-pos (e ∷ events) am gauges type severity h =
    let s = step_gauges e (am, gauges) in
    run_gauges-pos events s.0 s.1 type severity (step_gauges-pos e am gauges type severity h)

count-insert :
    (fingerprint : String) (alert : Alert) (alerts : Dict Alert)
    → 0 < count_active alert.type alert.severity (insert fingerprint alert alerts)
unfolding count_active insert
count-insert fingerprint alert [] =
    ground (arith, eq_iff alert.type alert.type, eq_iff alert.severity alert.severity)
count-insert fingerprint alert ((f, old) ∷ alerts) = ground (
  arith,
  count-insert fingerprint alert alerts,
  eq_iff alert.type alert.type,
  eq_iff alert.severity alert.severity,
)

update-counts :
    (active : Dict Alert) (gauges : Gauges) (type severity : String)
    → 0 < count_active type severity active
    → 0 < update_active_alert_metrics active gauges type severity
unfolding update_active_alert_metrics
update-counts active gauges type severity h = ground arith

fire_alert-fresh :
    (now : ℕ) (alert : Alert) (am : AlertManager)
    → let stamped : Alert = record alert { timestamp = now } in
      is_duplicate now (generate_fingerprint stamped) am ≡ false
      → fire_alert now alert am ≡ (
        record am {
          active_alerts = insert (generate_fingerprint stamped) stamped am.active_alerts;
          alert_history = extend_history am.max_history_size am.alert_history stamped;
        },
        some stamped,
        send_all am.channels stamped,
      )
unfolding fire_alert
fire_alert-fresh now alert am fresh = rw (fresh, is_duplicate) refl

first_pos :
    (now : ℕ) (alert : Alert) (am : AlertManager) (gauges : Gauges)
    → is_duplicate now (generate_fingerprint (record alert { timestamp = now })) am ≡ false
    → 0 < (step_gauges (fire now alert) (am, gauges)).1 alert.type alert.severity
unfolding step_gauges
first_pos now alert am gauges fresh =
    let stamped : Alert = record alert { timestamp = now } in
    subst (λ r. 0 < (after_fire r gauges).1 alert.type alert.severity)
      (sym (fire_alert-fresh now alert am fresh))
      (update-counts (insert (generate_fingerprint stamped) stamped am.active_alerts) gauges
        alert.type alert.severity
        (count-insert (generate_fingerprint stamped) stamped am.active_alerts))

-- Once an alert has been sent, the gauge of its type and severity stays above 0 for ever: whatever is
-- fired and resolved afterwards, it does not go back to 0, also where all alerts have been resolved.
pub run_gauges-IsStuck :
    (now : ℕ) (alert : Alert) (am : AlertManager) (gauges : Gauges) (events : List Event)
    → is_duplicate now (generate_fingerprint (record alert { timestamp = now })) am ≡ false
    → 0 < (run_gauges (fire now alert ∷ events) (am, gauges)).1 alert.type alert.severity
unfolding run_gauges
run_gauges-IsStuck now alert am gauges events fresh =
    let s = step_gauges (fire now alert) (am, gauges) in
    run_gauges-pos events s.0 s.1 alert.type alert.severity (first_pos now alert am gauges fresh)
