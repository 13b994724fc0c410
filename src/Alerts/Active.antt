-- ===== src/Alerts/Active.antt =====
-- cmd/dixmgr/alert_rules.go and alerting.go: the alerts that an evaluation of rules leaves active.
use dotidx.Prelude.{
  ℕ, ◌≡◌, refl, ◌∙◌, inl, inr, ◌⊎◌, subst, lookup-insert_self, Bool-cases, Option-cases, true, some,
  List, [], ◌∷◌, ◌++◌, String, str_eq, Dict, lookup, insert, lookup-insert, arith,
}
use dotidx.Alerts.{Alert, AlertManager, generate_fingerprint, is_duplicate, fire_alert}
use dotidx.Alerts.Rules.{AlertRule, alert_of, evaluate}

-- An alert is active under a fingerprint.
abbrev pub IsActive : String → AlertManager → Type 0
IsActive fingerprint am = (a : Alert) × (lookup fingerprint am.active_alerts ≡ some a)

-- An alert is active if it is inserted, or if it was active before.
insert-IsActive :
    (fingerprint other : String) (alert : Alert) (alerts : Dict Alert)
    → (other ≡ fingerprint) ⊎ ((a : Alert) × (lookup fingerprint alerts ≡ some a))
    → (a : Alert) × (lookup fingerprint (insert other alert alerts) ≡ some a)
insert-IsActive fingerprint other alert alerts (inl e) = (
  alert,
  subst (λ f. lookup f (insert other alert alerts) ≡ some alert) e
      (lookup-insert_self other alert alerts),
)
insert-IsActive fingerprint other alert alerts (inr (a, there)) =
    elim (Bool-cases (str_eq other fingerprint)) [
      | inl e ↦ (alert, lookup-insert other fingerprint alert alerts ∙ rw e refl)
      | inr e ↦ (a, lookup-insert other fingerprint alert alerts ∙ rw e there)
    ]

fire_alert-keeps :
    (fingerprint : String) (now : ℕ) (alert : Alert) (am : AlertManager)
    → IsActive fingerprint am
    → IsActive fingerprint (fire_alert now alert am).0
unfolding fire_alert
fire_alert-keeps fingerprint now alert am h =
    let stamped : Alert = record alert { timestamp = now } in
    elim (Bool-cases (is_duplicate now (generate_fingerprint stamped) am)) [
      | inl e ↦ rw (e, is_duplicate) h
      | inr e ↦
          rw (e, is_duplicate)
            (insert-IsActive fingerprint (generate_fingerprint stamped) stamped am.active_alerts
              (inr h))
    ]

is_duplicate-IsActive :
    (now : ℕ) (fingerprint : String) (am : AlertManager)
    → is_duplicate now fingerprint am ≡ true
    → IsActive fingerprint am
unfolding is_duplicate
is_duplicate-IsActive now fingerprint am e =
    elim (Option-cases (lookup fingerprint am.active_alerts)) [
      | inl q ↦ ground (arith, q, e)
      | inr there ↦ there
    ]

fire_alert-IsActive :
    (now : ℕ) (alert : Alert) (am : AlertManager)
    → IsActive (generate_fingerprint alert) (fire_alert now alert am).0
unfolding fire_alert
fire_alert-IsActive now alert am =
    let stamped : Alert = record alert { timestamp = now } in
    elim (Bool-cases (is_duplicate now (generate_fingerprint stamped) am)) [
      | inl e ↦ rw (e, is_duplicate) (is_duplicate-IsActive now (generate_fingerprint stamped) am e)
      | inr e ↦
          rw (e, is_duplicate)
            (insert-IsActive (generate_fingerprint stamped) (generate_fingerprint stamped) stamped
              am.active_alerts (inl refl))
    ]

module _ {D : Type 0} (now : ℕ) (service : String) (reading : D) where
  evaluate-keeps :
      (fingerprint : String) (rules : List (AlertRule D)) (am : AlertManager)
      → IsActive fingerprint am
      → IsActive fingerprint (evaluate now service reading rules am)
  unfolding evaluate
  evaluate-keeps fingerprint [] am h = h
  evaluate-keeps fingerprint (rule ∷ rules) am h =
      elim (Option-cases (alert_of now service reading rule)) [
        | inl quiet ↦ rw (quiet, evaluate) (evaluate-keeps fingerprint rules am h)
        | inr (alert, fires) ↦
            rw (fires, evaluate)
              (evaluate-keeps fingerprint rules (fire_alert now alert am).0
                (fire_alert-keeps fingerprint now alert am h))
      ]

  -- A rule of the list that is triggered makes its alert active.
  pub evaluate-IsActive :
      (front back : List (AlertRule D)) (rule : AlertRule D) (alert : Alert) (am : AlertManager)
      → alert_of now service reading rule ≡ some alert
      → IsActive
          (generate_fingerprint alert)
          (evaluate now service reading (front ++ rule ∷ back) am)
  unfolding evaluate
  evaluate-IsActive [] back rule alert am e =
      rw (e, evaluate)
        (evaluate-keeps (generate_fingerprint alert) back (fire_alert now alert am).0
          (fire_alert-IsActive now alert am))
  evaluate-IsActive (r ∷ front) back rule alert am e =
      elim (Option-cases (alert_of now service reading r)) [
        | inl quiet ↦ rw (quiet, evaluate) (evaluate-IsActive front back rule alert am e)
        | inr (other, fires) ↦
            rw (fires, evaluate)
              (evaluate-IsActive front back rule alert (fire_alert now other am).0 e)
      ]
