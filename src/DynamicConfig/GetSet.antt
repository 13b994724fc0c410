-- ===== src/DynamicConfig/GetSet.antt =====
-- cmd/dixmgr/dynamic_config.go: `set` and `Get` together.
use dotidx.Prelude.{
  ℕ, zero, suc, ◌≡◌, ◌≢◌, refl, sym, ap, ◌∙◌, Option, none, some, ◌>>=◌, bind-some, Option-cases,
  List, [], ◌∷◌, String, get_elem?, Dict, lookup, All, str_eq, eq_iff, Bool-cases, inl, inr, subst,
}
use mathlib.Core.Option.{some-injective, none-ne-some}
use dotidx.DynamicConfig.{
  Value, DynamicConfig, Key, key_metrics_enabled, key_alerts_enabled,
  key_resource_monitoring_enabled, key_health_history_enabled, key_cpu_warning_threshold,
  key_cpu_critical_threshold, key_memory_warning_threshold, key_memory_critical_threshold,
  key_disk_io_warning_threshold, key_circuit_breaker_max_failures, key_circuit_breaker_timeout,
  key_alert_dedupe_window, key_metrics_port, key_metrics_namespace, key_health_history_db_path,
  key_health_history_retention_days, set_key, get_key, key_of, cases, set, get, SetResult, updated,
}
use dotidx.DynamicConfig.Settings.{settings, index, replace, get_key-settings, set_key-settings}

get_elem?-replace_self :
    (i : ℕ) (v w : Value) (ws : List Value)
    → get_elem? ws i ≡ some w
    → get_elem? (replace i v ws) i ≡ some v
get_elem?-replace_self i v w [] e = elim (none-ne-some w e) [ ]
get_elem?-replace_self zero v w (x ∷ ws) e = refl
get_elem?-replace_self (suc i) v w (x ∷ ws) e = get_elem?-replace_self i v w ws e

get_elem?-replace_other :
    (i j : ℕ) (v : Value) (ws : List Value) → i ≢ j → get_elem? (replace i v ws) j ≡ get_elem? ws j
get_elem?-replace_other i j v [] ne = refl
get_elem?-replace_other zero zero v (x ∷ ws) ne = elim (ne refl) [ ]
get_elem?-replace_other zero (suc j) v (x ∷ ws) ne = refl
get_elem?-replace_other (suc i) zero v (x ∷ ws) ne = refl
get_elem?-replace_other (suc i) (suc j) v (x ∷ ws) ne =
    get_elem?-replace_other i j v ws (λ e. ne (ap suc e))

abbrev name_of : Key → String
name_of key_metrics_enabled = "metrics_enabled"
name_of key_alerts_enabled = "alerts_enabled"
name_of key_resource_monitoring_enabled = "resource_monitoring_enabled"
name_of key_health_history_enabled = "health_history_enabled"
name_of key_cpu_warning_threshold = "cpu_warning_threshold"
name_of key_cpu_critical_threshold = "cpu_critical_threshold"
name_of key_memory_warning_threshold = "memory_warning_threshold"
name_of key_memory_critical_threshold = "memory_critical_threshold"
name_of key_disk_io_warning_threshold = "disk_io_warning_threshold"
name_of key_circuit_breaker_max_failures = "circuit_breaker_max_failures"
name_of key_circuit_breaker_timeout = "circuit_breaker_timeout"
name_of key_alert_dedupe_window = "alert_dedupe_window"
name_of key_metrics_port = "metrics_port"
name_of key_metrics_namespace = "metrics_namespace"
name_of key_health_history_db_path = "health_history_db_path"
name_of key_health_history_retention_days = "health_history_retention_days"

case_at : (k : Key) → get_elem? cases (index k) ≡ some (name_of k, k)
case_at key_metrics_enabled = refl
case_at key_alerts_enabled = refl
case_at key_resource_monitoring_enabled = refl
case_at key_health_history_enabled = refl
case_at key_cpu_warning_threshold = refl
case_at key_cpu_critical_threshold = refl
case_at key_memory_warning_threshold = refl
case_at key_memory_critical_threshold = refl
case_at key_disk_io_warning_threshold = refl
case_at key_circuit_breaker_max_failures = refl
case_at key_circuit_breaker_timeout = refl
case_at key_alert_dedupe_window = refl
case_at key_metrics_port = refl
case_at key_metrics_namespace = refl
case_at key_health_history_db_path = refl
case_at key_health_history_retention_days = refl

index_injective : (k other : Key) → index k ≡ index other → k ≡ other
index_injective k other e =
    ap (λ entry. entry.1)
      (some-injective _ _ (sym (case_at k) ∙ ap (get_elem? cases) e ∙ case_at other))

lookup-All :
    (P : String → Key → Type 0) (entries : Dict Key) (name : String) (k : Key)
    → All (λ entry. P entry.0 entry.1) entries
    → lookup name entries ≡ some k
    → P name k
unfolding lookup
lookup-All P [] name k all e = elim (none-ne-some k e) [ ]
lookup-All P ((first, value) ∷ entries) name k (p, all) e = elim (Bool-cases (str_eq first name)) [
  | inl same ↦
      let here : value ≡ k = some-injective value k (rw same at e) in
      subst (λ n. P n k) ((eq_iff first name).0 same) (subst (P first) here p)
  | inr other ↦ lookup-All P entries name k all (rw other at e)
]

key_of_name : (name : String) (k : Key) → key_of name ≡ some k → name ≡ name_of k
unfolding key_of
key_of_name name k e =
    lookup-All (λ n k. n ≡ name_of k) cases name k
      (
        refl,
        (
          refl,
          (
            refl,
            (
              refl,
              (
                refl,
                (
                  refl,
                  (
                    refl,
                    (refl, (refl, (refl, (refl, (refl, (refl, (refl, (refl, (refl, tt))))))))),
                  ),
                ),
              ),
            ),
          ),
        ),
      )
      e

abbrev updated_of : SetResult → Option DynamicConfig
updated_of (updated c) = some c
updated_of _ = none

updated_of-set :
    (key : String) (v : Value) (c : DynamicConfig)
    → updated_of (set key v c) ≡ (key_of key >>= λ k. set_key k v c)
unfolding set
updated_of-set key v c = elim (Option-cases (key_of key)) [
  | inl e ↦ rw (e, set) refl
  | inr (k, e) ↦
      rw (e, set)
        (elim (Option-cases (set_key k v c)) [
          | inl none_set ↦ rw none_set refl
          | inr (c', done) ↦ rw done refl
        ])
]

set-updated :
    (key : String) (v : Value) (c c' : DynamicConfig)
    → set key v c ≡ updated c'
    → (k : Key) × (key_of key ≡ some k) × (set_key k v c ≡ some c')
set-updated key v c c' e =
    bind-some (key_of key) _ c' (sym (updated_of-set key v c) ∙ ap updated_of e)

get-key_of :
    (key : String) (k : Key) (c : DynamicConfig)
    → key_of key ≡ some k
    → get key c ≡ some (get_key k c)
unfolding get
get-key_of key k c e = rw (e, get) refl

get_missing : (key : String) (c : DynamicConfig) → key_of key ≡ none → get key c ≡ none
unfolding get
get_missing key c e = rw (e, get) refl

get_key-set_key :
    (k : Key) (v : Value) (c c' : DynamicConfig) → set_key k v c ≡ some c' → get_key k c' ≡ v
get_key-set_key k v c c' e = some-injective _ _ (
    sym (get_key-settings k c')
    ∙ ap (λ ws. get_elem? ws (index k)) (set_key-settings k v c c' e)
    ∙ get_elem?-replace_self (index k) v _ (settings c) (get_key-settings k c))

get_key-set_key_other :
    (k other : Key) (v : Value) (c c' : DynamicConfig)
    → k ≢ other
    → set_key k v c ≡ some c'
    → get_key other c' ≡ get_key other c
get_key-set_key_other k other v c c' ne e = some-injective _ _ (
    sym (get_key-settings other c')
    ∙ ap (λ ws. get_elem? ws (index other)) (set_key-settings k v c c' e)
    ∙ get_elem?-replace_other (index k) (index other) v (settings c)
        (λ i. ne (index_injective k other i))
    ∙ get_key-settings other c)

-- After a setting is set under a key, getting that key gives the value, and getting any other text gives
-- what it gave before.
pub get-set :
    (key other : String) (v : Value) (c c' : DynamicConfig)
    → set key v c ≡ updated c'
    → (get key c' ≡ some v) × (key ≢ other → get other c' ≡ get other c)
get-set key other v c c' e =
    let (k, found, done) = set-updated key v c c' e in
    (
      get-key_of key k c' found ∙ ap some (get_key-set_key k v c c' done),
      λ ne. elim (Option-cases (key_of other)) [
        | inl missing ↦ get_missing other c' missing ∙ sym (get_missing other c missing)
        | inr (l, at_other) ↦
            get-key_of other l c' at_other
            ∙ ap some (
                get_key-set_key_other k l v c c'
                  (λ same. ne (
                    key_of_name key k found ∙ ap name_of same ∙ sym (key_of_name other l at_other)))
                  done)
            ∙ sym (get-key_of other l c at_other)
      ],
    )
