-- ===== src/Activities/Healthy.antt =====
-- cmd/dixmgr/activities_healthcheck.go: when an endpoint is healthy.
use dotidx.Prelude.{
  ◌||◌, ◌>>=◌, List, [], ◌∷◌, Option-cases, ℕ, ◌≡◌, ◌≢◌, refl, sym, ap, inl, inr, ◌⊎◌, ◌↔◌, Bool,
  Bool-cases, true, false, true≢false, not, ◌&&◌, Option, none, some, String, str_eq, eq_iff, ◌==◌,
  if◌then◌else◌, arith,
}
use mathlib.Core.Option.{some-injective, none-ne-some}
use dotidx.Filter.{Value, null, bool, number, text, array, object}
use dotidx.Activities.Health.{
  contains, HttpHealthCheckConfig, HttpAnswer, no_request, no_answer, answered, set_defaults,
  status_passes, check_json_path, find_field, traverse, split_dots, health_of, is_true, body_passes,
  check_http_endpoint,
}

-- The status that is expected: 200 where none is configured.
abbrev pub IsExpected : ℕ → ℕ → Type 0
IsExpected expected status =
    ((expected ≡ 0) × (status ≡ 200)) ⊎ ((expected ≢ 0) × (status ≡ expected))

status_passes-IsExpected :
    (config : HttpHealthCheckConfig) (status : ℕ)
    → (status_passes (set_defaults config).expected_status status ≡ true)
      ↔ IsExpected config.expected_status status
unfolding status_passes set_defaults
status_passes-IsExpected config status = (
  λ h. elim (Bool-cases (config.expected_status == 0)) [
    | inl unset ↦ inl (ground arith, ground arith)
    | inr is_set ↦ inr (ground arith, ground arith)
  ],
  λ h. elim h [ inl (unset, same) ↦ ground arith | inr (is_set, same) ↦ ground arith ],
)

or-map : {A B C : Type 0} → (A → B) → A ⊎ C → B ⊎ C
or-map f (inl a) = inl (f a)
or-map f (inr c) = inr c

either : {A B C D : Type 0} → (A → B) → (C → D) → A ⊎ C → B ⊎ D
either f g (inl a) = inl (f a)
either f g (inr c) = inr (g c)

abbrev pub IsHealthyText : String → Type 0
IsHealthyText t = (t ≡ "healthy") ⊎ (t ≡ "ok") ⊎ (t ≡ "up") ⊎ (t ≡ "ready") ⊎ (t ≡ "true")

or_iff :
    {C : Type 0} (t u : String) (b : Bool)
    → (b ≡ true) ↔ C
    → ((str_eq t u || b) ≡ true) ↔ ((t ≡ u) ⊎ C)
or_iff t u b (to, from) = elim (Bool-cases (str_eq t u)) [
  | inl e ↦ (λ h. inl ((eq_iff t u).0 e), λ h. rw e refl)
  | inr e ↦ (
    λ h. inr (to (rw e at h)),
    λ h. elim h [ inl same ↦ rw ((eq_iff t u).1 same) refl | inr c ↦ rw e (from c) ],
  )
]

IsHealthyText-iff :
    (t : String)
    → ((str_eq t "healthy"
          || (str_eq t "ok" || (str_eq t "up" || (str_eq t "ready" || str_eq t "true"))))
        ≡ true)
      ↔ IsHealthyText t
IsHealthyText-iff t =
    or_iff t "healthy" _ (or_iff t "ok" _ (or_iff t "up" _ (or_iff t "ready" _ (eq_iff t "true"))))

-- The two tests of a body.
tests_iff :
    (no_text has no_path : Bool) (o : Option Bool)
    → ((if not no_text && not has then false else if no_path then true else is_true o) ≡ true)
      ↔ (((no_text ≡ true) ⊎ (has ≡ true)) × ((no_path ≡ true) ⊎ (o ≡ some true)))
tests_iff true has true o = (λ h. (inl refl, inl refl), λ h. refl)
tests_iff false true true o = (λ h. (inr refl, inl refl), λ h. refl)
tests_iff false false no_path o = (λ h. cc, λ h. elim h.0 [ inl e ↦ cc | inr e ↦ cc ])
tests_iff true has false none = (λ h. cc, λ h. elim h.1 [ inl e ↦ cc | inr e ↦ cc ])
tests_iff true has false (some b) =
    (λ h. (inl refl, inr (ap some h)), λ h. elim h.1 [ inl e ↦ cc | inr e ↦ cc ])
tests_iff false true false none = (λ h. cc, λ h. elim h.1 [ inl e ↦ cc | inr e ↦ cc ])
tests_iff false true false (some b) =
    (λ h. (inr refl, inr (ap some h)), λ h. elim h.1 [ inl e ↦ cc | inr e ↦ cc ])

module _ (unmarshal : String → Option Value) (positive : String → Bool)
    (limit_reader : ℕ → String → String) where
  -- What stands at a path, through the fields of objects, says that the endpoint is healthy.
  abbrev pub IsHealthyAt : List String → Value → Type 0
  IsHealthyAt [] (bool b) = b ≡ true
  IsHealthyAt [] (text t) = IsHealthyText t
  IsHealthyAt [] (number n) = positive n ≡ true
  IsHealthyAt [] _ = ⊥
  IsHealthyAt (part ∷ parts) (object fs) =
      (v : Value) × (find_field fs part ≡ some v) × IsHealthyAt parts v
  IsHealthyAt (part ∷ parts) _ = ⊥

  abbrev pub HasHealthyValue : String → String → Type 0
  HasHealthyValue body path =
      (v : Value) × (unmarshal body ≡ some v) × IsHealthyAt (split_dots path) v

  traverse-IsHealthyAt :
      (parts : List String) (v : Value)
      → ((traverse parts v >>= health_of unmarshal positive) ≡ some true) ↔ IsHealthyAt parts v
  unfolding traverse health_of
  traverse-IsHealthyAt [] (bool b) = (λ h. some-injective b true h, λ h. ap some h)
  traverse-IsHealthyAt [] (text t) =
      let word = IsHealthyText-iff t in
      (λ h. word.0 (some-injective _ true h), λ h. ap some (word.1 h))
  traverse-IsHealthyAt [] (number n) = (λ h. some-injective (positive n) true h, λ h. ap some h)
  traverse-IsHealthyAt [] null = (λ h. none-ne-some true h, λ h. absurd h)
  traverse-IsHealthyAt [] (array vs) = (λ h. none-ne-some true h, λ h. absurd h)
  traverse-IsHealthyAt [] (object fs) = (λ h. none-ne-some true h, λ h. absurd h)
  traverse-IsHealthyAt (part ∷ parts) (object fs) = (
    λ h. elim (Option-cases (find_field fs part)) [
      | inl e ↦ absurd (none-ne-some true (rw e at h))
      | inr (v, e) ↦ (v, e, (traverse-IsHealthyAt parts v).0 (rw e at h))
    ],
    λ (v, e, w). rw e ((traverse-IsHealthyAt parts v).1 w),
  )
  traverse-IsHealthyAt (part ∷ parts) null = (λ h. none-ne-some true h, λ h. absurd h)
  traverse-IsHealthyAt (part ∷ parts) (bool b) = (λ h. none-ne-some true h, λ h. absurd h)
  traverse-IsHealthyAt (part ∷ parts) (number n) = (λ h. none-ne-some true h, λ h. absurd h)
  traverse-IsHealthyAt (part ∷ parts) (text t) = (λ h. none-ne-some true h, λ h. absurd h)
  traverse-IsHealthyAt (part ∷ parts) (array vs) = (λ h. none-ne-some true h, λ h. absurd h)

  check_json_path-HasHealthyValue :
      (body path : String)
      → (check_json_path unmarshal positive body path ≡ some true) ↔ HasHealthyValue body path
  unfolding check_json_path
  check_json_path-HasHealthyValue body path = (
    λ h. elim (Option-cases (unmarshal body)) [
      | inl e ↦ absurd (none-ne-some true (rw e at h))
      | inr (v, e) ↦ (v, e, (traverse-IsHealthyAt (split_dots path) v).0 (rw e at h))
    ],
    λ (v, e, w). rw e ((traverse-IsHealthyAt (split_dots path) v).1 w),
  )

  -- An answer with the expected status, whose first 1,024 bytes have the text and the JSON value that are
  -- asked for.
  pub data IsHealthy (config : HttpHealthCheckConfig) : HttpAnswer → Type 0 where
    is_healthy :
        {status : ℕ} {body : String}
        → IsExpected config.expected_status status
        → (config.response_contains ≡ "")
          ⊎ (contains (limit_reader 1_024 body) config.response_contains ≡ true)
        → (config.json_path ≡ "") ⊎ HasHealthyValue (limit_reader 1_024 body) config.json_path
        → IsHealthy config (answered status (some body))

  abbrev Passes : HttpHealthCheckConfig → String → Type 0
  Passes config kept =
      ((config.response_contains ≡ "") ⊎ (contains kept config.response_contains ≡ true))
      × ((config.json_path ≡ "") ⊎ HasHealthyValue kept config.json_path)

  body_passes-Passes :
      (config : HttpHealthCheckConfig) (kept : String)
      → (body_passes unmarshal positive config kept ≡ true) ↔ Passes config kept
  unfolding body_passes
  body_passes-Passes config kept =
      let (to, from) =
        tests_iff (str_eq config.response_contains "") (contains kept config.response_contains)
          (str_eq config.json_path "") (check_json_path unmarshal positive kept config.json_path) in
      let no_text = eq_iff config.response_contains "" in
      let no_path = eq_iff config.json_path "" in
      let value_is = check_json_path-HasHealthyValue kept config.json_path in
      (
        λ h.
            let (has_text, has_json) = to h in
            (or-map no_text.0 has_text, either no_path.0 value_is.0 has_json),
        λ h. from (or-map no_text.1 h.0, either no_path.1 value_is.1 h.1),
      )

  -- A check finds an endpoint healthy just where the request is answered with the expected status,
  -- which is 200 and not any of 2xx where none is configured, and the first 1,024 bytes of the body contain
  -- the text that is asked for, if any, and are a JSON value that has at the JSON path, if any, true, one
  -- of the texts healthy, ok, up, ready and true, or a number above 0.
  pub check_http_endpoint-IsHealthy :
      (config : HttpHealthCheckConfig) (answer : HttpAnswer)
      → ((check_http_endpoint unmarshal positive limit_reader config answer).healthy ≡ true)
        ↔ IsHealthy config answer
  unfolding check_http_endpoint
  check_http_endpoint-IsHealthy config no_request = (λ h. cc, λ h. elim h [ ])
  check_http_endpoint-IsHealthy config no_answer = (λ h. cc, λ h. elim h [ ])
  check_http_endpoint-IsHealthy config (answered status none) = (λ h. cc, λ h. elim h [ ])
  check_http_endpoint-IsHealthy config (answered status (some body)) =
      let kept = limit_reader 1_024 body in
      let test = status_passes (set_defaults config).expected_status status in
      let status_is = status_passes-IsExpected config status in
      let body_is = body_passes-Passes config kept in
      (
        λ h. elim (Bool-cases test) [
          | inl ok ↦
              let (has_text, has_json) = body_is.0 (rw ok at h) in
              is_healthy (status_is.0 ok) has_text has_json
          | inr bad ↦ elim (true≢false (sym (rw bad at h))) [ ]
        ],
        λ h. elim h [
          | is_healthy expected has_text has_json ↦
              rw (status_is.1 expected) (body_is.1 (has_text, has_json))
        ],
      )
