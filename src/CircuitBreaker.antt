-- ===== src/CircuitBreaker.antt =====
-- cmd/dixmgr/circuitbreaker.go: one circuit breaker. `Call` holds the lock twice, before and after
-- it runs its function without the lock; `enter` and `settle` are these two critical sections. The
-- calls of the Prometheus collector and the log lines are left out: the breaker reads neither back.
-- Times are nanoseconds of the monotonic clock, and a method takes the clock's reading.
pub mod Invariant
pub mod Transitions
pub mod Recovery
pub mod Interleaving
pub mod Manager
mod Tests
use dotidx.Prelude.{
  ℕ, ◌+◌, ◌*◌, String, Bool, true, false, Option, none, some, ltb, leb, ◌==◌, since, if◌then◌else◌,
}

pub data CircuitState : Type 0 where
  state_closed state_open state_half_open : CircuitState

pub record CircuitBreakerConfig : Type 0 where
  pub name : String
  pub max_failures : ℕ
  pub timeout : ℕ
  pub half_open_requests : ℕ

pub record CircuitBreaker : Type 0 where
  pub name : String
  pub max_failures : ℕ
  pub timeout : ℕ
  pub half_open_requests : ℕ
  pub state : CircuitState
  pub failures : ℕ
  pub successes : ℕ
  pub last_failure_time : ℕ
  pub last_state_change : ℕ
  pub consecutive_success : ℕ

-- `if config.F == 0 { config.F = d }`
abbrev pub or_default : ℕ → ℕ → ℕ
or_default v d = if v == 0 then d else v

abbrev pub second : ℕ
second = 1_000_000_000

-- The zero `time.Time` of `lastFailureTime` is the reading 0.
unfoldable pub new_circuit_breaker : CircuitBreakerConfig → ℕ → CircuitBreaker
new_circuit_breaker config now = record {
  name = config.name;
  max_failures = or_default config.max_failures 5;
  timeout = or_default config.timeout (60 * second);
  half_open_requests = or_default config.half_open_requests 3;
  state = state_closed;
  failures = 0;
  successes = 0;
  last_failure_time = 0;
  last_state_change = now;
  consecutive_success = 0;
}

-- `a == b` on states
abbrev pub same_state : CircuitState → CircuitState → Bool
same_state state_closed state_closed = true
same_state state_open state_open = true
same_state state_half_open state_half_open = true
same_state _ _ = false

unfoldable pub set_state : ℕ → CircuitState → CircuitBreaker → CircuitBreaker
set_state now new_state cb =
    if same_state cb.state new_state
    then cb
    else record cb { state = new_state; last_state_change = now }

-- The `switch cb.state` of `recordFailure`.
after_failure : ℕ → CircuitState → CircuitBreaker → CircuitBreaker
after_failure now state_closed cb =
    if leb cb.max_failures cb.failures then set_state now state_open cb else cb
after_failure now state_half_open cb = set_state now state_open cb
after_failure now state_open cb = cb

unfoldable pub record_failure : ℕ → CircuitBreaker → CircuitBreaker
unfolding after_failure set_state
record_failure now cb =
    after_failure now cb.state
      (record cb { failures = cb.failures + 1; last_failure_time = now; consecutive_success = 0 })

-- The `switch cb.state` of `recordSuccess`.
after_success : ℕ → CircuitState → CircuitBreaker → CircuitBreaker
after_success now state_half_open cb =
    if leb cb.half_open_requests cb.consecutive_success
    then record (set_state now state_closed cb) { failures = 0 }
    else cb
after_success now state_closed cb =
    if leb cb.max_failures cb.consecutive_success then record cb { failures = 0 } else cb
after_success now state_open cb = cb

unfoldable pub record_success : ℕ → CircuitBreaker → CircuitBreaker
unfolding after_success set_state
record_success now cb =
    after_success now cb.state
      (record cb { successes = cb.successes + 1; consecutive_success = cb.consecutive_success + 1 })

-- The first critical section of `Call`: the breaker, and whether the function may run.
unfoldable pub enter : ℕ → CircuitBreaker → CircuitBreaker × Bool
unfolding set_state
enter now cb =
    if same_state cb.state state_open
    then (if ltb cb.timeout (since now cb.last_failure_time)
        then (record (set_state now state_half_open cb) { consecutive_success = 0 }, true)
        else (cb, false))
    else (cb, true)

-- The second critical section; the flag says that the function returned no error.
unfoldable pub settle : ℕ → Bool → CircuitBreaker → CircuitBreaker
unfolding record_failure record_success
settle now true cb = record_success now cb
settle now false cb = record_failure now cb

pub data Outcome : Type 0 where
  rejected : Outcome
  ran : Bool → Outcome

-- `Call` with no other call between its two sections: the function is started at `now` and ends at
-- `later` with the result `fine`.
unfoldable pub call : ℕ → ℕ → Bool → CircuitBreaker → CircuitBreaker × Outcome
unfolding enter settle
call now later fine cb =
    let (entered, admitted) = enter now cb in
    if admitted then (settle later fine entered, ran fine) else (entered, rejected)

unfoldable pub reset : ℕ → CircuitBreaker → CircuitBreaker
unfolding set_state
reset now cb = record (set_state now state_closed cb) {
  failures = 0;
  successes = 0;
  consecutive_success = 0;
}
