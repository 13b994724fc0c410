-- ===== src/CircuitBreaker/Manager.antt =====
-- cmd/dixmgr/circuitbreaker.go: `CircuitBreakerManager` and the statistics. The methods of the
-- manager that write hold its lock for their whole length or, in `GetOrCreate`, test again under
-- the lock, so that each is one step. A breaker is shared by pointer: the map's value is its state.
use dotidx.Prelude.{
  ℕ, suc, ◌≡◌, refl, ◌≢◌, String, Option, none, some, List, [], ◌∷◌, map, arith, length, All, Dict,
  lookup, insert, lookup-insert_self, lookup-insert_ne, Option-cases, inl, inr, ap,
}
use dotidx.CircuitBreaker.{
  CircuitBreaker, CircuitBreakerConfig, CircuitState, state_closed, new_circuit_breaker, reset,
}
use dotidx.CircuitBreaker.Invariant.{IsValid, new_circuit_breaker-IsValid}

pub record CircuitBreakerStats : Type 0 where
  pub name : String
  pub state : CircuitState
  pub failures : ℕ
  pub successes : ℕ
  pub consecutive_success : ℕ
  pub last_failure_time : ℕ
  pub last_state_change : ℕ

unfoldable pub get_stats : CircuitBreaker → CircuitBreakerStats
get_stats cb = record {
  name = cb.name;
  state = cb.state;
  failures = cb.failures;
  successes = cb.successes;
  consecutive_success = cb.consecutive_success;
  last_failure_time = cb.last_failure_time;
  last_state_change = cb.last_state_change;
}

pub record CircuitBreakerManager : Type 0 where
  pub breakers : Dict CircuitBreaker
  pub config : CircuitBreakerConfig

unfoldable pub new_circuit_breaker_manager : CircuitBreakerConfig → CircuitBreakerManager
new_circuit_breaker_manager default_config = record { breakers = []; config = default_config }

create : String → ℕ → CircuitBreakerManager → CircuitBreakerManager × CircuitBreaker
create name now m =
    let cb = new_circuit_breaker (record m.config { name = name }) now in
    (record m { breakers = insert name cb m.breakers }, cb)

found_or_create :
    Option CircuitBreaker
    → String
    → ℕ
    → CircuitBreakerManager
    → CircuitBreakerManager × CircuitBreaker
unfolding create
found_or_create (some cb) name now m = (m, cb)
found_or_create none name now m = create name now m

unfoldable pub get_or_create :
    String → ℕ → CircuitBreakerManager → CircuitBreakerManager × CircuitBreaker
unfolding found_or_create
get_or_create name now m = found_or_create (lookup name m.breakers) name now m

unfoldable pub get : String → CircuitBreakerManager → Option CircuitBreaker
get name m = lookup name m.breakers

unfoldable pub get_all_stats : CircuitBreakerManager → List CircuitBreakerStats
get_all_stats m = map (λ e. get_stats e.1) m.breakers

abbrev reset_entry : ℕ → String × CircuitBreaker → String × CircuitBreaker
reset_entry now e = (e.0, reset now e.1)

unfoldable pub reset_all : ℕ → CircuitBreakerManager → CircuitBreakerManager
reset_all now m = record m { breakers = map (reset_entry now) m.breakers }

unfoldable pub count : CircuitBreakerManager → ℕ
count m = length m.breakers

-- Every breaker of the manager is valid.
abbrev pub AllValid : CircuitBreakerManager → Type 0
AllValid m = All (λ e. IsValid e.1) m.breakers

-- The breaker that `GetOrCreate` returns is the one the manager then holds under the name, every
-- other name keeps what it had, and a second call returns that breaker and changes nothing.
get-get_or_create :
    (name other : String) (now later : ℕ) (m : CircuitBreakerManager)
    → let (m', cb) = get_or_create name now m in
      (get name m' ≡ some cb)
      × (name ≢ other → get other m' ≡ get other m)
      × (get_or_create name later m' ≡ (m', cb))
unfolding get_or_create get
get-get_or_create name other now later m = elim (Option-cases (lookup name m.breakers)) [
  | inl e ↦
      rw (e, get_or_create, found_or_create)
        (let stored = lookup-insert_self name _ m.breakers in
          (stored, λ h. lookup-insert_ne name other _ m.breakers h, rw stored))
  | inr (cb, e) ↦ rw (e, get_or_create, found_or_create) (e, λ h. refl, rw e)
]

insert-AllValid :
    (name : String) (cb : CircuitBreaker) (breakers : Dict CircuitBreaker)
    → IsValid cb
    → All (λ e. IsValid e.1) breakers
    → All (λ e. IsValid e.1) (insert name cb breakers)
unfolding insert
insert-AllValid name cb [] v vs = (v, tt)
insert-AllValid name cb ((k, w) ∷ rest) v vs = ground (arith, insert-AllValid name cb rest v vs.1)

pub get_or_create-AllValid :
    (name : String) (now : ℕ) (m : CircuitBreakerManager)
    → AllValid m
    → AllValid (get_or_create name now m).0
unfolding get_or_create
get_or_create-AllValid name now m v = elim (Option-cases (lookup name m.breakers)) [
  | inl e ↦
      rw (e, get_or_create, found_or_create)
        (insert-AllValid name _ m.breakers (new_circuit_breaker-IsValid _ now) v)
  | inr (cb, e) ↦ rw (e, get_or_create, found_or_create) v
]

-- A map of breakers in which every one is closed with no failure counted.
pub AllFresh : Dict CircuitBreaker → Type 0
AllFresh = All (λ e. (e.1.state ≡ state_closed) × (e.1.failures ≡ 0) × (e.1.successes ≡ 0))

reset-fresh :
    (now : ℕ) (cb : CircuitBreaker)
    → ((reset now cb).state ≡ state_closed)
      × ((reset now cb).failures ≡ 0)
      × ((reset now cb).successes ≡ 0)
unfolding reset
reset-fresh now cb = ground arith

reset_entries : (now : ℕ) (b : Dict CircuitBreaker) → AllFresh (map (reset_entry now) b)
unfolding AllFresh
reset_entries now [] = tt
reset_entries now (e ∷ b) = (reset-fresh now e.1, reset_entries now b)

length-reset : (now : ℕ) (b : Dict CircuitBreaker) → length (map (reset_entry now) b) ≡ length b
length-reset now [] = refl
length-reset now (e ∷ b) = ap suc (length-reset now b)

lookup-reset :
    (now : ℕ) (name : String) (b : Dict CircuitBreaker) (cb : CircuitBreaker)
    → lookup name b ≡ some cb
    → lookup name (map (reset_entry now) b) ≡ some (reset now cb)
unfolding lookup
lookup-reset now name [] cb h = cc
lookup-reset now name ((k, w) ∷ b) cb h = ground (arith, lookup-reset now name b cb)

-- `ResetAll` drops and adds no breaker, and every breaker is then closed with its counters at 0;
-- what a name stood for is reset under the same name.
reset_all_lem :
    (now : ℕ) (name : String) (m : CircuitBreakerManager) (cb : CircuitBreaker)
    → get name m ≡ some cb
    → AllFresh (reset_all now m).breakers
      × (count (reset_all now m) ≡ count m)
      × (get name (reset_all now m) ≡ some (reset now cb))
unfolding reset_all count get
reset_all_lem now name m cb h = (
  reset_entries now m.breakers,
  length-reset now m.breakers,
  lookup-reset now name m.breakers cb h,
)
