-- ===== src/HealthHistory/History.antt =====
-- cmd/dixmgr/healthhistory.go: what `GetServiceHistory` gives.
use dotidx.Prelude.{
  ℕ, zero, suc, ◌≤◌, ◌≡◌, subst, inl, inr, Bool-cases, Bool, true, ◌&&◌, some, List, [], ◌∷◌,
  String, str_eq, leb, ◌==◌, length, take, All, if◌then◌else◌, arith,
}
use mathlib.Core.Option.{some-injective, none-ne-some}
use dotidx.HealthHistory.{HealthEvent, HealthHistoryStore}
use dotidx.HealthHistory.Queries.{events_since, insert_event, newest_first, get_service_history}

-- The newest first.
abbrev pub Descending : List HealthEvent → Type 0
Descending [] = Unit
Descending (e ∷ events) = All (λ f. f.timestamp ≤ e.timestamp) events × Descending events

-- Of a service, and not before a time.
pub record IsAsked (service : String) (since : ℕ) (e : HealthEvent) : Type 0 where
  pub of_service : str_eq e.service service ≡ true
  pub not_before : since ≤ e.timestamp

events_since-IsAsked :
    (service : String) (since : ℕ) (events : List HealthEvent)
    → All (IsAsked service since) (events_since service since events)
unfolding events_since
events_since-IsAsked service since [] = tt
events_since-IsAsked service since (e ∷ events) =
    elim (Bool-cases (str_eq e.service service && leb since e.timestamp)) [
      | inl kept ↦ rw kept (
        record { of_service = ground arith; not_before = ground arith },
        events_since-IsAsked service since events,
      )
      | inr other ↦ rw other (events_since-IsAsked service since events)
    ]

insert_event-All :
    (P : HealthEvent → Type 0) (e : HealthEvent) (events : List HealthEvent)
    → P e
    → All P events
    → All P (insert_event e events)
unfolding insert_event
insert_event-All P e [] p all = (p, tt)
insert_event-All P e (f ∷ events) p (q, all) = elim (Bool-cases (leb f.timestamp e.timestamp)) [
  | inl le ↦ rw le (p, (q, all))
  | inr gt ↦ rw gt (q, insert_event-All P e events p all)
]

newest_first-All :
    (P : HealthEvent → Type 0) (events : List HealthEvent)
    → All P events
    → All P (newest_first events)
unfolding newest_first
newest_first-All P [] all = tt
newest_first-All P (e ∷ events) (p, all) =
    insert_event-All P e (newest_first events) p (newest_first-All P events all)

All-later :
    (events : List HealthEvent) (a b : ℕ)
    → a ≤ b
    → All (λ f. f.timestamp ≤ a) events
    → All (λ f. f.timestamp ≤ b) events
All-later [] a b le all = tt
All-later (f ∷ events) a b le (p, all) = (omega (arith, p, le), All-later events a b le all)

insert_event-Descending :
    (e : HealthEvent) (events : List HealthEvent)
    → Descending events
    → Descending (insert_event e events)
unfolding insert_event
insert_event-Descending e [] d = (tt, tt)
insert_event-Descending e (f ∷ events) (all, d) = elim (Bool-cases (leb f.timestamp e.timestamp)) [
  | inl first ↦
      let le : f.timestamp ≤ e.timestamp = ground arith in
      rw first ((le, All-later events f.timestamp e.timestamp le all), (all, d))
  | inr second ↦
      let le : e.timestamp ≤ f.timestamp = ground arith in
      rw second (
        insert_event-All (λ g. g.timestamp ≤ f.timestamp) e events le all,
        insert_event-Descending e events d,
      )
]

newest_first-Descending : (events : List HealthEvent) → Descending (newest_first events)
unfolding newest_first
newest_first-Descending [] = tt
newest_first-Descending (e ∷ events) =
    insert_event-Descending e (newest_first events) (newest_first-Descending events)

take-All :
    (P : HealthEvent → Type 0) (n : ℕ) (events : List HealthEvent)
    → All P events
    → All P (take n events)
take-All P zero events all = tt
take-All P (suc n) [] all = tt
take-All P (suc n) (e ∷ events) (p, all) = (p, take-All P n events all)

take-Descending :
    (n : ℕ) (events : List HealthEvent) → Descending events → Descending (take n events)
take-Descending zero events d = tt
take-Descending (suc n) [] d = tt
take-Descending (suc n) (e ∷ events) (all, d) =
    (take-All _ n events all, take-Descending n events d)

length-take_le : (n : ℕ) (events : List HealthEvent) → length (take n events) ≤ n
length-take_le zero events = omega arith
length-take_le (suc n) [] = omega arith
length-take_le (suc n) (e ∷ events) = omega (arith, length-take_le n events)

-- The history of a service is of its events from the time asked for on, the newest first, and of no more
-- than the limit, which is 100 where 0 is asked for.
get_service_history_lem :
    (ok : Bool) (service : String) (since limit : ℕ) (h : HealthHistoryStore)
    (events : List HealthEvent)
    → get_service_history ok service since limit h ≡ some events
    → All (IsAsked service since) events
      × Descending events
      × (length events ≤ (if limit == 0 then 100 else limit))
unfolding get_service_history
get_service_history_lem ok service since limit h events e = elim (Bool-cases (h.enabled && ok)) [
  | inr off ↦ elim (none-ne-some events (rw off at e)) [ ]
  | inl on ↦
      let asked = events_since service since h.health_events in
      let n = if limit == 0 then 100 else limit in
      subst
        (λ (es : List HealthEvent).
          All (IsAsked service since) es × Descending es × (length es ≤ n))
        (some-injective (take n (newest_first asked)) events (rw on at e))
        (
          take-All _ n (newest_first asked)
              (newest_first-All _ asked (events_since-IsAsked service since h.health_events)),
          take-Descending n (newest_first asked) (newest_first-Descending asked),
          length-take_le n (newest_first asked),
        )
]
