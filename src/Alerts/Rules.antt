-- ===== src/Alerts/Rules.antt =====
-- cmd/dixmgr/alert_rules.go: `AlertRuleEngine` over rules whose evaluators are parameters; the
-- evaluators of the default rules compare floats, and are left out. An evaluation reads the clock once.
use dotidx.Prelude.{
  subst, ℕ, ◌≡◌, refl, ap, Bool, false, Option, none, some, List, [], ◌∷◌, ◌++◌, All, arith,
  Bool-cases, Option-cases, inl, inr, String, str_eq, eq_iff, if◌then◌else◌,
}
use dotidx.Alerts.{Alert, AlertManager, fire_alert}

-- `evaluator` gives a message where the rule is triggered.
pub record AlertRule (D : Type 0) : Type 0 where
  pub name : String
  pub type : String
  pub severity : String
  pub evaluator : String → D → Option String
  pub enabled : Bool

module _ {D : Type 0} where
  unfoldable pub add_rule : AlertRule D → List (AlertRule D) → List (AlertRule D)
  add_rule rule rules = rules ++ rule ∷ []

  -- The alert of a rule, where it is enabled and triggered.
  unfoldable pub alert_of : ℕ → String → D → AlertRule D → Option Alert
  alert_of now service reading rule =
      if rule.enabled
      then elim (rule.evaluator service reading) [
        | none ↦ none
        | some message ↦ some (record {
          type = rule.type;
          severity = rule.severity;
          service = service;
          message = message;
          timestamp = now;
        })
      ]
      else none

  unfoldable pub evaluate : ℕ → String → D → List (AlertRule D) → AlertManager → AlertManager
  unfolding alert_of
  evaluate now service reading [] am = am
  evaluate now service reading (rule ∷ rules) am = elim (alert_of now service reading rule) [
    | none ↦ evaluate now service reading rules am
    | some alert ↦ evaluate now service reading rules (fire_alert now alert am).0
  ]

  -- `DisableRule` and `EnableRule`: the first rule of the name.
  unfoldable pub set_enabled : Bool → String → List (AlertRule D) → List (AlertRule D)
  set_enabled enabled name [] = []
  set_enabled enabled name (rule ∷ rules) =
      let rest = set_enabled enabled name rules in
      if str_eq rule.name name then record rule { enabled = enabled } ∷ rules else rule ∷ rest

  -- The rules without those of a name, and rules with no two of one name.
  abbrev pub without : String → List (AlertRule D) → List (AlertRule D)
  without name [] = []
  without name (rule ∷ rules) =
      let rest = without name rules in if str_eq rule.name name then rest else rule ∷ rest

  abbrev pub Distinct : List (AlertRule D) → Type 0
  Distinct [] = Unit
  Distinct (rule ∷ rules) = All (λ r. str_eq r.name rule.name ≡ false) rules × Distinct rules

  without_absent :
      (name : String) (rules : List (AlertRule D))
      → All (λ r. str_eq r.name name ≡ false) rules
      → without name rules ≡ rules
  without_absent name [] a = refl
  without_absent name (rule ∷ rules) a = rw a.0 (ap (◌∷◌ rule) (without_absent name rules a.1))

  -- Where no two rules have one name, evaluating the rules after one of them is disabled leaves the
  -- manager as evaluating the rules without it does: the others are evaluated as before, in their
  -- order, and the disabled rule fires nothing.
  evaluate-set_enabled :
      (now : ℕ) (service : String) (reading : D) (name : String) (rules : List (AlertRule D))
      (am : AlertManager)
      → Distinct rules
      → evaluate now service reading (set_enabled false name rules) am
        ≡ evaluate now service reading (without name rules) am
  unfolding evaluate set_enabled
  evaluate-set_enabled now service reading name [] am d = refl
  evaluate-set_enabled now service reading name (rule ∷ rules) am d =
      elim (Bool-cases (str_eq rule.name name)) [
        | inl e ↦
            let same : rule.name ≡ name = ground (arith, eq_iff rule.name name) in
            let w : without name rules ≡ rules =
              without_absent name rules
                (subst (λ n. All (λ r. str_eq r.name n ≡ false) rules) same d.0) in
            rw (e, w) refl
        | inr e ↦ rw e (elim (Option-cases (alert_of now service reading rule)) [
          | inl q ↦ rw (q, evaluate) (evaluate-set_enabled now service reading name rules am d.1)
          | inr (alert, q) ↦
              rw (q, evaluate)
                (evaluate-set_enabled now service reading name rules (fire_alert now alert am).0
                  d.1)
        ])
      ]
