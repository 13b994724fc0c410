-- ===== src/CircuitBreaker/Transitions.antt =====
-- cmd/dixmgr/circuitbreaker.go: the state diagram that `setState` is used for.
use dotidx.Prelude.{ℕ, ◌+◌, ◌<◌, ◌≤◌, ◌≡◌, Bool, true, false, since, arith}
use dotidx.CircuitBreaker.{
  CircuitState, CircuitBreaker, state_closed, state_open, state_half_open, enter, settle, call,
  rejected,
}

-- The edges of the diagram, with the reason for each.
pub data Edge (now : ℕ) (cb : CircuitBreaker) : CircuitState → Type 0 where
  stay : {s : CircuitState} → s ≡ cb.state → Edge now cb s
  trip :
      {s : CircuitState}
      → s ≡ state_open
      → cb.state ≡ state_closed
      → cb.max_failures ≤ cb.failures + 1
      → Edge now cb s
  probe :
      {s : CircuitState}
      → s ≡ state_half_open
      → cb.state ≡ state_open
      → cb.timeout < since now cb.last_failure_time
      → Edge now cb s
  reopen : {s : CircuitState} → s ≡ state_open → cb.state ≡ state_half_open → Edge now cb s
  recover :
      {s : CircuitState}
      → s ≡ state_closed
      → cb.state ≡ state_half_open
      → cb.half_open_requests ≤ cb.consecutive_success + 1
      → Edge now cb s

enter-Edge : (now : ℕ) (cb : CircuitBreaker) → Edge now cb (enter now cb).0.state
unfolding enter
enter-Edge now cb = grind (arith, stay, probe)

settle-Edge : (now : ℕ) (fine : Bool) (cb : CircuitBreaker) → Edge now cb (settle now fine cb).state
unfolding settle
settle-Edge now true cb = grind (arith, stay, recover)
settle-Edge now false cb = grind (arith, stay, trip, reopen)

-- Both critical sections of a call keep the state or follow an edge of the diagram: a closed
-- breaker trips only at its failure limit, an open one goes to half-open only after the timeout,
-- and a half-open one reopens or, after enough successes in a row, closes.
pub section-Edge :
    (now : ℕ) (fine : Bool) (cb : CircuitBreaker)
    → Edge now cb (enter now cb).0.state × Edge now cb (settle now fine cb).state
section-Edge now fine cb = (enter-Edge now cb, settle-Edge now fine cb)

-- Within the timeout an open breaker fails fast, whatever the function would have returned: the
-- call is rejected and the breaker is unchanged.
call_fails_fast :
    (now later : ℕ) (fine : Bool) (cb : CircuitBreaker)
    → cb.state ≡ state_open
    → since now cb.last_failure_time ≤ cb.timeout
    → call now later fine cb ≡ (cb, rejected)
unfolding call
call_fails_fast now later fine cb o t = ground arith
