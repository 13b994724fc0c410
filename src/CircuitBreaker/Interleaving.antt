-- ===== src/CircuitBreaker/Interleaving.antt =====
-- cmd/dixmgr/circuitbreaker.go: many goroutines that use one breaker. Each step is one critical
-- section; `in_flight` counts the calls whose function is running without the lock.
use dotidx.Prelude.{ℕ, zero, suc, ◌+◌, ◌-◌, ◌<◌, ◌≡◌, Bool, true, false, arith}
use dotidx.CircuitBreaker.{CircuitBreaker, state_half_open, enter, settle, reset}
use dotidx.CircuitBreaker.Invariant.{IsValid, enter-IsValid, settle-IsValid, reset-IsValid}

pub record Shared : Type 0 where
  pub breaker : CircuitBreaker
  pub in_flight : ℕ

pub data Step (s : Shared) (t : Shared) : Type 0 where
  admit :
      (now : ℕ)
      → (enter now s.breaker).1 ≡ true
      → t.breaker ≡ (enter now s.breaker).0
      → t.in_flight ≡ s.in_flight + 1
      → Step s t
  refuse :
      (now : ℕ)
      → (enter now s.breaker).1 ≡ false
      → t.breaker ≡ (enter now s.breaker).0
      → t.in_flight ≡ s.in_flight
      → Step s t
  finish :
      (now : ℕ) (fine : Bool)
      → 0 < s.in_flight
      → t.breaker ≡ settle now fine s.breaker
      → t.in_flight ≡ s.in_flight - 1
      → Step s t
  resets : (now : ℕ) → t.breaker ≡ reset now s.breaker → t.in_flight ≡ s.in_flight → Step s t

pub data Reach (s : Shared) : Shared → Type 0 where
  here : Reach s s
  next : {t u : Shared} → Reach s t → Step t u → Reach s u

Step-IsValid : (s t : Shared) → IsValid s.breaker → Step s t → IsValid t.breaker
Step-IsValid s t v (admit now a e n) = rw e (enter-IsValid now s.breaker v)
Step-IsValid s t v (refuse now a e n) = rw e (enter-IsValid now s.breaker v)
Step-IsValid s t v (finish now fine p e n) = rw e (settle-IsValid now fine s.breaker v)
Step-IsValid s t v (resets now e n) = rw e (reset-IsValid now s.breaker v)

-- Whatever the order in which the critical sections of calls and resets follow one another, a valid
-- breaker stays valid: closed below its limit, half-open below the successes that close it.
pub Reach-IsValid : {s t : Shared} → IsValid s.breaker → Reach s t → IsValid t.breaker
Reach-IsValid v here = v
Reach-IsValid v (next {t} {u} r st) = Step-IsValid t u (Reach-IsValid v r) st

enter-half_open :
    (now : ℕ) (cb : CircuitBreaker) → cb.state ≡ state_half_open → enter now cb ≡ (cb, true)
unfolding enter
enter-half_open now cb h = ground arith

-- A half-open breaker admits any number of calls at once: `half_open_requests` is no bound on the
-- test requests that run.
half_open_unbounded :
    (n now : ℕ) (cb : CircuitBreaker)
    → cb.state ≡ state_half_open
    → Reach (record { breaker = cb; in_flight = 0 }) (record { breaker = cb; in_flight = n })
half_open_unbounded zero now cb h = here
half_open_unbounded (suc n) now cb h =
    next (half_open_unbounded n now cb h)
      (admit now (rw (enter-half_open now cb h)) (rw (enter-half_open now cb h)) (omega arith))
