-- ===== src/Alerts/Dedupe.antt =====
-- cmd/dixmgr/alerting.go: alerts that are held back.
use dotidx.Prelude.{
  ℕ, ◌<◌, ◌≡◌, ◌≢◌, refl, sym, ap, ◌∙◌, true, false, some, List, [], ◌∷◌, lt→ltb, since, All,
  Bool-cases, inl, inr, String, lookup, lookup-insert_ne, lookup-delete_ne, true≢false,
}
use dotidx.Alerts.{
  Alert, AlertManager, Event, fire, resolve, generate_fingerprint, is_duplicate, fire_alert,
  resolve_alert, run, cons_sent,
}

-- The events in which an alert fired at `fired` is not resolved, and within the window.
abbrev pub Within : ℕ → ℕ → String → Event → Type 0
Within window fired fingerprint (fire now alert) = since now fired < window
Within window fired fingerprint (resolve alert) = generate_fingerprint alert ≢ fingerprint

duplicate_apart :
    (now : ℕ) (fired : String) (am : AlertManager) (fingerprint : String) (active : Alert)
    → lookup fingerprint am.active_alerts ≡ some active
    → since now active.timestamp < am.dedupe_window
    → is_duplicate now fired am ≡ false
    → fired ≢ fingerprint
unfolding is_duplicate
duplicate_apart now fired am fingerprint active l w d e =
    let same : is_duplicate now fingerprint am ≡ true =
      rw (l, is_duplicate) (lt→ltb (since now active.timestamp) am.dedupe_window w) in
    true≢false (sym same ∙ ap (λ x. is_duplicate now x am) (sym e) ∙ d)

-- Within the window of an active alert a fired one leaves it as it is, and is held back if it has the
-- same fingerprint.
fire_keeps :
    (now : ℕ) (alert : Alert) (am : AlertManager) (fingerprint : String) (active : Alert)
    → lookup fingerprint am.active_alerts ≡ some active
    → since now active.timestamp < am.dedupe_window
    → let r = fire_alert now alert am in
      (lookup fingerprint r.0.active_alerts ≡ some active)
      × (r.0.dedupe_window ≡ am.dedupe_window)
      × ((sent : List Alert)
          → All (λ a. generate_fingerprint a ≢ fingerprint) sent
          → All (λ a. generate_fingerprint a ≢ fingerprint) (cons_sent r.1 sent))
unfolding fire_alert
fire_keeps now alert am fingerprint active l w =
    let stamped : Alert = record alert { timestamp = now } in
    elim (Bool-cases (is_duplicate now (generate_fingerprint stamped) am)) [
      | inl d ↦ rw (d, fire_alert) (l, refl, λ sent h. h)
      | inr d ↦
          let apart =
            duplicate_apart now (generate_fingerprint stamped) am fingerprint active l w d in
          rw (d, fire_alert)
            (
              lookup-insert_ne (generate_fingerprint stamped) fingerprint stamped am.active_alerts
                    apart
                  ∙ l,
              refl,
              λ sent h. (apart, h),
            )
    ]

resolve_keeps :
    (alert : Alert) (am : AlertManager) (fingerprint : String) (active : Alert)
    → lookup fingerprint am.active_alerts ≡ some active
    → generate_fingerprint alert ≢ fingerprint
    → lookup fingerprint (resolve_alert alert am).active_alerts ≡ some active
unfolding resolve_alert
resolve_keeps alert am fingerprint active l apart =
    lookup-delete_ne (generate_fingerprint alert) fingerprint am.active_alerts apart ∙ l

-- An alert is not sent again within the window: while an alert with a fingerprint is active and not
-- resolved, of the alerts that are fired within the window from its time none with that fingerprint
-- goes out, whatever else is fired or resolved in between; and it stays active with its old time.
pub run-deduplicates :
    (es : List Event) (am : AlertManager) (fingerprint : String) (active : Alert)
    → lookup fingerprint am.active_alerts ≡ some active
    → All (Within am.dedupe_window active.timestamp fingerprint) es
    → let (am', sent) = run es am in
      All (λ alert. generate_fingerprint alert ≢ fingerprint) sent
      × (lookup fingerprint am'.active_alerts ≡ some active)
unfolding run resolve_alert
run-deduplicates [] am fingerprint active l w = (tt, l)
run-deduplicates (fire now alert ∷ es) am fingerprint active l w =
    let (l', k, go) = fire_keeps now alert am fingerprint active l w.0 in
    let (h, l'') =
      run-deduplicates es (fire_alert now alert am).0 fingerprint active l' (rw k w.1) in
    (go _ h, l'')
run-deduplicates (resolve alert ∷ es) am fingerprint active l w =
    run-deduplicates es (resolve_alert alert am) fingerprint active
      (resolve_keeps alert am fingerprint active l w.0) w.1
