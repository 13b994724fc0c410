-- ===== src/CircuitBreaker/Recovery.antt =====
-- cmd/dixmgr/circuitbreaker.go: calls that follow one another, from closed to open and back.
use dotidx.Prelude.{
  ℕ, suc, ◌+◌, ◌≤◌, ◌<◌, ◌≡◌, Bool, true, false, List, [], ◌∷◌, since, arith, length, All,
}
use dotidx.CircuitBreaker.{CircuitBreaker, state_closed, state_open, state_half_open, call}

-- One use of `Call`: when its function starts and ends, and whether it returns no error.
pub record Attempt : Type 0 where
  pub start : ℕ
  pub finish : ℕ
  pub fine : Bool

-- Calls one after another.
unfoldable pub run_calls : List Attempt → CircuitBreaker → CircuitBreaker
run_calls [] cb = cb
run_calls (a ∷ attempts) cb = run_calls attempts (call a.start a.finish a.fine cb).0

abbrev pub AllFail : List Attempt → Type 0
AllFail = All (λ a. a.fine ≡ false)

abbrev pub AllSucceed : List Attempt → Type 0
AllSucceed = All (λ a. a.fine ≡ true)

failing_call :
    (a : Attempt) (cb : CircuitBreaker)
    → a.fine ≡ false
    → cb.state ≡ state_closed
    → cb.failures + 1 < cb.max_failures
    → let next = (call a.start a.finish a.fine cb).0 in
      (next.state ≡ state_closed)
      × (next.failures ≡ cb.failures + 1)
      × (next.max_failures ≡ cb.max_failures)
unfolding call
failing_call a cb f c l = ground arith

last_failing_call :
    (a : Attempt) (cb : CircuitBreaker)
    → a.fine ≡ false
    → cb.state ≡ state_closed
    → cb.failures + 1 ≡ cb.max_failures
    → (call a.start a.finish a.fine cb).0.state ≡ state_open
unfolding call
last_failing_call a cb f c l = ground arith

-- Failing calls leave a closed breaker closed, each counted, as long as they stay below the limit.
failures_counted :
    (attempts : List Attempt) (cb : CircuitBreaker)
    → AllFail attempts
    → cb.state ≡ state_closed
    → cb.failures + length attempts < cb.max_failures
    → let after = run_calls attempts cb in
      (after.state ≡ state_closed) × (after.failures ≡ cb.failures + length attempts)
unfolding run_calls
failures_counted [] cb fs c l = (c, omega arith)
failures_counted (a ∷ attempts) cb fs c l =
    let next = (call a.start a.finish a.fine cb).0 in
    let (c', f', m') = failing_call a cb fs.0 c (omega arith) in
    let (state, count) = failures_counted attempts next fs.1 c' (omega arith) in
    (state, omega arith)

-- A run of failing calls that takes a closed breaker to its limit opens it, and with the call that
-- reaches the limit.
failures_open :
    (attempts : List Attempt) (cb : CircuitBreaker)
    → AllFail attempts
    → cb.state ≡ state_closed
    → cb.failures < cb.max_failures
    → cb.failures + length attempts ≡ cb.max_failures
    → (run_calls attempts cb).state ≡ state_open
unfolding run_calls
failures_open [] cb fs c b l = absurd (omega arith)
failures_open (a ∷ []) cb fs c b l = last_failing_call a cb fs.0 c (omega arith)
failures_open (a ∷ a' ∷ attempts) cb fs c b l =
    let next = (call a.start a.finish a.fine cb).0 in
    let (c', f', m') = failing_call a cb fs.0 c (omega arith) in
    failures_open (a' ∷ attempts) next fs.1 c' (omega arith) (omega arith)

probing_call :
    (a : Attempt) (cb : CircuitBreaker)
    → a.fine ≡ true
    → cb.state ≡ state_half_open
    → cb.consecutive_success + 1 < cb.half_open_requests
    → let next = (call a.start a.finish a.fine cb).0 in
      (next.state ≡ state_half_open)
      × (next.consecutive_success ≡ cb.consecutive_success + 1)
      × (next.half_open_requests ≡ cb.half_open_requests)
unfolding call
probing_call a cb f c l = ground arith

last_probing_call :
    (a : Attempt) (cb : CircuitBreaker)
    → a.fine ≡ true
    → cb.state ≡ state_half_open
    → cb.consecutive_success + 1 ≡ cb.half_open_requests
    → let next = (call a.start a.finish a.fine cb).0 in
      (next.state ≡ state_closed) × (next.failures ≡ 0)
unfolding call
last_probing_call a cb f c l = ground arith

half_open_recovers :
    (attempts : List Attempt) (cb : CircuitBreaker)
    → AllSucceed attempts
    → cb.state ≡ state_half_open
    → cb.consecutive_success < cb.half_open_requests
    → cb.consecutive_success + length attempts ≡ cb.half_open_requests
    → let after = run_calls attempts cb in (after.state ≡ state_closed) × (after.failures ≡ 0)
unfolding run_calls
half_open_recovers [] cb fs c b l = absurd (omega arith)
half_open_recovers (a ∷ []) cb fs c b l = last_probing_call a cb fs.0 c (omega arith)
half_open_recovers (a ∷ a' ∷ attempts) cb fs c b l =
    let next = (call a.start a.finish a.fine cb).0 in
    let (c', f', m') = probing_call a cb fs.0 c (omega arith) in
    half_open_recovers (a' ∷ attempts) next fs.1 c' (omega arith) (omega arith)

first_probe :
    (a : Attempt) (cb : CircuitBreaker)
    → a.fine ≡ true
    → cb.state ≡ state_open
    → cb.timeout < since a.start cb.last_failure_time
    → 1 < cb.half_open_requests
    → let next = (call a.start a.finish a.fine cb).0 in
      (next.state ≡ state_half_open)
      × (next.consecutive_success ≡ 1)
      × (next.half_open_requests ≡ cb.half_open_requests)
unfolding call
first_probe a cb f c t l = ground arith

only_probe :
    (a : Attempt) (cb : CircuitBreaker)
    → a.fine ≡ true
    → cb.state ≡ state_open
    → cb.timeout < since a.start cb.last_failure_time
    → cb.half_open_requests ≡ 1
    → let next = (call a.start a.finish a.fine cb).0 in
      (next.state ≡ state_closed) × (next.failures ≡ 0)
unfolding call
only_probe a cb f c t l = ground arith

-- An open breaker whose timeout has passed when the first call starts is closed, with no failure
-- counted, by `half_open_requests` successful calls in a row, none of which overlaps another.
pub open_recovers :
    (a : Attempt) (attempts : List Attempt) (cb : CircuitBreaker)
    → AllSucceed (a ∷ attempts)
    → cb.state ≡ state_open
    → cb.timeout < since a.start cb.last_failure_time
    → suc (length attempts) ≡ cb.half_open_requests
    → let after = run_calls (a ∷ attempts) cb in (after.state ≡ state_closed) × (after.failures ≡ 0)
unfolding run_calls
open_recovers a [] cb fs o t l = only_probe a cb fs.0 o t (omega arith)
open_recovers a (a' ∷ attempts) cb fs o t l =
    let next = (call a.start a.finish a.fine cb).0 in
    let (c', f', m') = first_probe a cb fs.0 o t (omega arith) in
    half_open_recovers (a' ∷ attempts) next fs.1 c' (omega arith) (omega arith)

-- A failed call and then a successful one, at each pair of times.
unfoldable pub flaky_rounds : List (ℕ × ℕ) → CircuitBreaker → CircuitBreaker
flaky_rounds [] cb = cb
flaky_rounds ((t, t') ∷ rounds) cb = flaky_rounds rounds (call t' t' true (call t t false cb).0).0

flaky_round :
    (t t' : ℕ) (cb : CircuitBreaker)
    → cb.state ≡ state_closed
    → 2 ≤ cb.max_failures
    → cb.failures + 1 < cb.max_failures
    → let next = (call t' t' true (call t t false cb).0).0 in
      (next.state ≡ state_closed)
      × (next.failures ≡ cb.failures + 1)
      × (next.max_failures ≡ cb.max_failures)
unfolding call
flaky_round t t' cb c m l = ground arith

-- A success does not reset the failure count of a closed breaker whose limit is two or more: where
-- each failed call is followed by a successful one, the failures add up all the same, and the one
-- that reaches the limit opens the breaker.
flaky_opens :
    (rounds : List (ℕ × ℕ)) (now : ℕ) (cb : CircuitBreaker)
    → cb.state ≡ state_closed
    → 2 ≤ cb.max_failures
    → cb.failures + length rounds + 1 ≡ cb.max_failures
    → (call now now false (flaky_rounds rounds cb)).0.state ≡ state_open
unfolding flaky_rounds call
flaky_opens [] now cb c m l = ground arith
flaky_opens ((t, t') ∷ rounds) now cb c m l =
    let (c', f', m') = flaky_round t t' cb c m (omega arith) in
    flaky_opens rounds now (call t' t' true (call t t false cb).0).0 c' (omega arith) (omega arith)
