-- ===== src/Orchestrator/Watch.antt =====
-- dix/orchestrator.go: the restarts and the pauses of `watchService` while a service is not active.
use dotidx.Prelude.{
  ℕ, suc, ◌+◌, ◌-◌, ◌*◌, ◌≤◌, min, ◌≡◌, ◌≢◌, refl, sym, ap, ◌∙◌, subst, inl, inr, Bool-cases, Bool,
  true, false, some, List, [], ◌∷◌, ◌++◌, ltb, length, All, arith,
}
use dotidx.Orchestrator.Systemd.{OrchestratorConfig, read_active}
use dotidx.Orchestrator.{
  status_ko, ServiceState, Tick, Event, pause, restart_unit, observe, attempt_restart, tick, watch,
}

unfoldable pub restarts : List Event → ℕ
restarts [] = 0
restarts (pause d ∷ events) = restarts events
restarts (restart_unit b ∷ events) = suc (restarts events)

unfoldable pub paused : List Event → ℕ
paused [] = 0
paused (pause d ∷ events) = d + paused events
paused (restart_unit b ∷ events) = paused events

restarts-append :
    (done events : List Event) → restarts (done ++ events) ≡ restarts done + restarts events
unfolding restarts
restarts-append [] events = omega arith
restarts-append (pause d ∷ done) events = restarts-append done events
restarts-append (restart_unit b ∷ done) events = omega (arith, restarts-append done events)

paused-append : (done events : List Event) → paused (done ++ events) ≡ paused done + paused events
unfolding paused
paused-append [] events = omega arith
paused-append (pause d ∷ done) events = omega (arith, paused-append done events)
paused-append (restart_unit b ∷ done) events = paused-append done events

-- The service is not active, and the manager is not stopped.
pub record IsDown (t : Tick) : Type 0 where
  pub inactive : read_active t.properties ≢ some true
  pub running : t.ctx_done ≡ false

observe_down :
    (t : Tick) (s : ServiceState)
    → IsDown t
    → observe t.properties s ≡ record s { current_status = status_ko }
unfolding observe
observe_down t s d = let ne = d.inactive in ground arith

record IsAttempt (config : OrchestratorConfig) (attempt : ℕ) (result : List Event × Bool)
    : Type 0 where
  once : restarts result.0 ≡ 1
  backoff : paused result.0 ≡ (attempt - 1) * config.restart_backoff
  continues : result.1 ≡ true

attempt_restart-IsAttempt :
    (config : OrchestratorConfig) (t : Tick) (attempt : ℕ)
    → IsDown t
    → IsAttempt config attempt (attempt_restart config t attempt)
unfolding attempt_restart restarts paused
attempt_restart-IsAttempt config t attempt d =
    let e = d.running in
    record { once = ground arith; backoff = ground arith; continues = ground arith }

-- The outcome of an outage from a count of restarts on, for `n` restarts.
pub record IsOutage (config : OrchestratorConfig) (count n : ℕ) (result : ServiceState × List Event)
    : Type 0 where
  pub restarted : restarts result.1 ≡ n
  pub counted : result.0.restart_count ≡ count + n
  pub pauses :
      2 * paused result.1 + n * config.restart_backoff
      ≡ config.restart_backoff * (n * (2 * count + n))

grows :
    (b c n x rest : ℕ)
    → x ≡ c * b
    → 2 * rest + n * b ≡ b * (n * (2 * (c + 1) + n))
    → 2 * (x + rest) + suc n * b ≡ b * (suc n * (2 * c + suc n))
grows b c n x rest e h = grind arith

tick_full :
    (config : OrchestratorConfig) (t : Tick) (s : ServiceState)
    → IsDown t
    → config.max_restarts ≤ s.restart_count
    → tick config t s ≡ (record s { current_status = status_ko }, [], true)
unfolding tick
tick_full config t s d full =
    let e : ltb s.restart_count config.max_restarts ≡ false = ground arith in
    rw (observe_down t s d, tick) (rw (e, tick) refl)

tick_room :
    (config : OrchestratorConfig) (t : Tick) (s : ServiceState)
    → IsDown t
    → suc s.restart_count ≤ config.max_restarts
    → tick config t s ≡ (
      record { current_status = status_ko; restart_count = s.restart_count + 1 },
      (attempt_restart config t (s.restart_count + 1)).0,
      true,
    )
unfolding tick
tick_room config t s d room =
    let e : ltb s.restart_count config.max_restarts ≡ true = ground arith in
    let goes_on = (attempt_restart-IsAttempt config t (s.restart_count + 1) d).continues in
    rw (observe_down t s d, tick) (rw (e, tick) (rw (goes_on, tick) refl))

watch_goes_on :
    (config : OrchestratorConfig) (t : Tick) (ts : List Tick) (s s' : ServiceState)
    (events : List Event)
    → tick config t s ≡ (s', events, true)
    → watch config (t ∷ ts) s ≡ ((watch config ts s').0, events ++ (watch config ts s').1)
unfolding watch
watch_goes_on config t ts s s' events e = rw (e, watch) refl

no-IsOutage :
    (config : OrchestratorConfig) (s : ServiceState) (n : ℕ)
    → n ≡ 0
    → IsOutage config s.restart_count n (s, [])
unfolding restarts paused
no-IsOutage config s n e =
    rw e record { restarted = refl; counted = omega arith; pauses = omega arith }

same-IsOutage :
    (config : OrchestratorConfig) (count n : ℕ) (events : List Event)
    (rest : ServiceState × List Event)
    → events ≡ []
    → IsOutage config count n rest
    → IsOutage config count n (rest.0, events ++ rest.1)
same-IsOutage config count n events rest e o = rw e o

longer-IsOutage :
    (config : OrchestratorConfig) (count n : ℕ) (result : List Event × Bool)
    (rest : ServiceState × List Event)
    → IsAttempt config (count + 1) result
    → IsOutage config (count + 1) n rest
    → IsOutage config count (suc n) (rest.0, result.0 ++ rest.1)
longer-IsOutage config count n result rest a o = record {
  restarted = omega (arith, restarts-append result.0 rest.1, a.once, o.restarted);
  counted = omega (arith, o.counted);
  pauses = rw (paused-append result.0 rest.1) (
      grows config.restart_backoff count n (paused result.0) (paused rest.1)
        (a.backoff ∙ ap (λ k. k * config.restart_backoff) (omega arith)) o.pauses);
}

-- While a service is not active at any turn, and the manager is not stopped, it is restarted at every
-- turn until the count of restarts reaches the limit, and not again; the number of restarts is `n`,
-- and the pauses before them add up to those of a backoff that grows by one step each time.
pub watch-IsOutage :
    (config : OrchestratorConfig) (ts : List Tick) (s : ServiceState) (n : ℕ)
    → All IsDown ts
    → n ≡ min (length ts) (config.max_restarts - s.restart_count)
    → IsOutage config s.restart_count n (watch config ts s)
unfolding watch
watch-IsOutage config [] s n d e = no-IsOutage config s n (omega (arith, e))
watch-IsOutage config (t ∷ ts) s n (d, ds) e =
    elim (Bool-cases (ltb s.restart_count config.max_restarts)) [
      | inl h ↦
          let room : suc s.restart_count ≤ config.max_restarts = ground arith in
          let shown : n ≡ suc (n - 1) = omega (arith, e, room) in
          let next : ServiceState = record {
            current_status = status_ko;
            restart_count = s.restart_count + 1;
          } in
          subst (λ k. IsOutage config s.restart_count k (watch config (t ∷ ts) s)) (sym shown)
            (rw (watch_goes_on config t ts s _ _ (tick_room config t s d room)) (
              longer-IsOutage config s.restart_count (n - 1)
                (attempt_restart config t (s.restart_count + 1)) (watch config ts next)
                (attempt_restart-IsAttempt config t (s.restart_count + 1) d)
                (watch-IsOutage config ts next (n - 1) ds (omega (arith, e, room)))))
      | inr h ↦
          let full : config.max_restarts ≤ s.restart_count = ground arith in
          rw (watch_goes_on config t ts s _ _ (tick_full config t s d full)) (
            watch-IsOutage config ts (record s { current_status = status_ko }) n ds
              (omega (arith, e, full)))
    ]
