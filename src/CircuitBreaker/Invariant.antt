-- ===== src/CircuitBreaker/Invariant.antt =====
-- cmd/dixmgr/circuitbreaker.go: what holds of a breaker between two critical sections.
use dotidx.Prelude.{ℕ, ◌≤◌, ◌<◌, ◌≡◌, Bool, true, false, arith}
use dotidx.CircuitBreaker.{
  CircuitBreaker, CircuitBreakerConfig, state_closed, state_open, state_half_open,
  new_circuit_breaker, enter, settle, reset,
}

-- A closed breaker is below its failure limit, a half-open one below the successes that close it,
-- and a breaker that is not closed has seen a failure.
pub record IsValid (cb : CircuitBreaker) : Type 0 where
  pub positive_failures : 0 < cb.max_failures
  pub positive_requests : 0 < cb.half_open_requests
  pub closed_below : cb.state ≡ state_closed → cb.failures < cb.max_failures
  pub half_open_below : cb.state ≡ state_half_open → cb.consecutive_success < cb.half_open_requests
  pub open_failed : cb.state ≡ state_open → 0 < cb.failures
  pub half_open_failed : cb.state ≡ state_half_open → 0 < cb.failures
  pub streak_counted : cb.consecutive_success ≤ cb.successes

pub new_circuit_breaker-IsValid :
    (config : CircuitBreakerConfig) (now : ℕ) → IsValid (new_circuit_breaker config now)
unfolding new_circuit_breaker
new_circuit_breaker-IsValid config now = ground arith

pub enter-IsValid : (now : ℕ) (cb : CircuitBreaker) → IsValid cb → IsValid (enter now cb).0
unfolding enter
enter-IsValid now cb v = ground arith

pub settle-IsValid :
    (now : ℕ) (fine : Bool) (cb : CircuitBreaker) → IsValid cb → IsValid (settle now fine cb)
unfolding settle
settle-IsValid now true cb v = ground arith
settle-IsValid now false cb v = ground arith

pub reset-IsValid : (now : ℕ) (cb : CircuitBreaker) → IsValid cb → IsValid (reset now cb)
unfolding reset
reset-IsValid now cb v = ground arith
