-- ===== src/CircuitBreaker/Tests.antt =====
-- Runs of the breaker at concrete inputs.
use dotidx.Prelude.{ℕ, ◌≡◌, refl, Bool, true, false, [], ◌∷◌, arith}
use dotidx.CircuitBreaker.{
  CircuitBreaker, CircuitBreakerConfig, state_closed, new_circuit_breaker, enter, settle, call,
}
use dotidx.CircuitBreaker.Invariant.{IsValid, new_circuit_breaker-IsValid}
use dotidx.CircuitBreaker.Transitions.{Edge, section-Edge}
use dotidx.CircuitBreaker.Recovery.{Attempt, run_calls, open_recovers}
use dotidx.CircuitBreaker.Interleaving.{Shared, Reach, admit, finish, next, here, Reach-IsValid}

-- Limits of 2 failures and 2 test requests, and a timeout of 10.
abbrev small : CircuitBreakerConfig
small = record { name = "polkadot"; max_failures = 2; timeout = 10; half_open_requests = 2 }

abbrev attempt : ℕ → Bool → Attempt
attempt t fine = record { start = t; finish = t; fine = fine }

abbrev fresh : CircuitBreaker
fresh = new_circuit_breaker small 0

abbrev tripped : CircuitBreaker
tripped = run_calls (attempt 1 false ∷ attempt 2 false ∷ []) fresh

section-Edge_example :
    Edge 13 tripped (enter 13 tripped).0.state × Edge 13 tripped (settle 13 true tripped).state
section-Edge_example = section-Edge 13 true tripped

open_recovers_example :
    let after = run_calls (attempt 13 true ∷ attempt 14 true ∷ []) tripped in
    (after.state ≡ state_closed) × (after.failures ≡ 0)
unfolding new_circuit_breaker run_calls call
open_recovers_example =
    open_recovers (attempt 13 true) (attempt 14 true ∷ []) tripped (refl, (refl, tt)) refl
      (omega arith) refl

abbrev idle : Shared
idle = record { breaker = fresh; in_flight = 0 }

abbrev busy : Shared
busy = record { breaker = (enter 1 fresh).0; in_flight = 1 }

abbrev done : Shared
done = record { breaker = settle 2 false busy.breaker; in_flight = 0 }

one_call : Reach idle done
unfolding new_circuit_breaker enter settle
one_call = next (next here (admit 1 refl refl refl)) (finish 2 false (omega arith) refl refl)

Reach-IsValid_example : IsValid done.breaker
Reach-IsValid_example =
    Reach-IsValid {s = idle} {t = done} (new_circuit_breaker-IsValid small 0) one_call
