-- ===== src/Alerts/History.antt =====
-- cmd/dixmgr/alerting.go: the history of alerts against the list of all that went out.
use mathlib.Core.List.{append_assoc, append-nil}
use dotidx.Prelude.{
  ◌⊎◌, ℕ, zero, suc, ◌+◌, ◌-◌, ◌≤◌, ◌≡◌, refl, sym, ap, ◌∙◌, none, some, List, [], ◌∷◌, ◌++◌, ltb,
  length, length-append, length-drop, drop, arith, Bool-cases, inl, inr,
}
use dotidx.Alerts.{
  Alert, AlertManager, Event, fire, resolve, extend_history, generate_fingerprint, is_duplicate,
  fire_alert, resolve_alert, run,
}

-- The last `size` elements.
abbrev pub last_of : ℕ → List Alert → List Alert
last_of size alerts = drop (length alerts - size) alerts

extend_history_lem :
    (size : ℕ) (history : List Alert) (alert : Alert)
    → extend_history size history alert ≡ last_of size (history ++ alert ∷ [])
unfolding extend_history
extend_history_lem size history alert =
    elim (Bool-cases (ltb size (length (history ++ alert ∷ [])))) [
      | inl e ↦ rw e refl
      | inr e ↦ let z : length (history ++ alert ∷ []) - size ≡ 0 = ground arith in rw (e, z) refl
    ]

-- Dropping commutes with what is appended.
drop-append : (n : ℕ) (xs ys : List Alert) → n ≤ length xs → drop n (xs ++ ys) ≡ drop n xs ++ ys
drop-append zero xs ys h = refl
drop-append (suc n) [] ys h = absurd (omega arith)
drop-append (suc n) (x ∷ xs) ys h = drop-append n xs ys (omega arith)

drop-nil : (n : ℕ) → drop {A = Alert} n [] ≡ []
drop-nil zero = refl
drop-nil (suc n) = refl

drop-drop : (n m : ℕ) (xs : List Alert) → drop n (drop m xs) ≡ drop (m + n) xs
drop-drop n zero xs = let e : 0 + n ≡ n = omega arith in rw e refl
drop-drop n (suc m) [] = drop-nil n ∙ sym (drop-nil (suc m + n))
drop-drop n (suc m) (x ∷ xs) =
    let e : suc m + n ≡ suc (m + n) = omega arith in rw e (drop-drop n m xs)

last_of-append :
    (size : ℕ) (xs ys : List Alert) → last_of size (last_of size xs ++ ys) ≡ last_of size (xs ++ ys)
last_of-append size xs ys =
    let d = length xs - size in
    let n : length (drop d xs ++ ys) - size + d ≡ length (xs ++ ys) - size =
      omega (arith, length-append (drop d xs) ys, length-drop d xs, length-append xs ys) in
    ap (drop (length (drop d xs ++ ys) - size)) (sym (drop-append d xs ys (omega arith)))
    ∙ drop-drop (length (drop d xs ++ ys) - size) d (xs ++ ys)
    ∙ ap (λ k. drop k (xs ++ ys)) (omega (arith, n))

-- An alert is held back, and nothing changes, or it goes out with its time.
fire_cases :
    (now : ℕ) (alert : Alert) (am : AlertManager)
    → let r = fire_alert now alert am in
      let stamped : Alert = record alert { timestamp = now } in
      ((r.0 ≡ am) × (r.1 ≡ none))
      ⊎ ((r.1 ≡ some stamped)
          × (r.0.alert_history ≡ last_of am.max_history_size (am.alert_history ++ stamped ∷ []))
          × (r.0.max_history_size ≡ am.max_history_size))
unfolding fire_alert
fire_cases now alert am =
    elim (Bool-cases
      (is_duplicate now (generate_fingerprint (record alert { timestamp = now })) am)) [
        | inl d ↦ rw (d, fire_alert) (inl (refl, refl))
        | inr d ↦
            rw (d, fire_alert)
              (inr (
                refl,
                extend_history_lem am.max_history_size am.alert_history
                    (record alert { timestamp = now }),
                refl,
              ))
      ]

length-last_of : (size : ℕ) (xs : List Alert) → length (last_of size xs) ≤ size
length-last_of size xs = omega (arith, length-drop (length xs - size) xs)

-- The history is the last of the alerts that went out, in their order, after those that it held
-- before: as many as its size, and none is lost below that.
run-history :
    (es : List Event) (am : AlertManager)
    → length am.alert_history ≤ am.max_history_size
    → let (am', sent) = run es am in
      (am'.alert_history ≡ last_of am.max_history_size (am.alert_history ++ sent))
      × (length am'.alert_history ≤ am.max_history_size)
unfolding run resolve_alert
run-history [] am h =
    let z : length am.alert_history - am.max_history_size ≡ 0 = omega arith in
    (rw (append-nil am.alert_history, z) refl, h)
run-history (resolve alert ∷ es) am h = run-history es (resolve_alert alert am) h
run-history (fire now alert ∷ es) am h = elim (fire_cases now alert am) [
  | inl (e, n) ↦ rw (e, n) (run-history es am h)
  | inr (s, l, k) ↦
      let am' = (fire_alert now alert am).0 in
      let stamped : Alert = record alert { timestamp = now } in
      let (a, b) =
        run-history es am'
          (rw (l, k) (length-last_of am.max_history_size (am.alert_history ++ stamped ∷ []))) in
      let later = (run es am').1 in
      let max = am.max_history_size in
      rw s (
        a
            ∙ ap (λ m. last_of m (am'.alert_history ++ later)) k
            ∙ ap (λ x. last_of max (x ++ later)) l
            ∙ last_of-append max (am.alert_history ++ stamped ∷ []) later
            ∙ ap (last_of max) (append_assoc am.alert_history (stamped ∷ []) later),
        omega (arith, b, k),
      )
]
