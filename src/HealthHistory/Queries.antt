-- ===== src/HealthHistory/Queries.antt =====
-- cmd/dixmgr/healthhistory.go: what is read back of the history, uptimes and downtimes. `ok` is whether
-- the driver carries the query out.
use dotidx.Prelude.{
  min, ◌-◌, ℕ, ◌+◌, Bool, ◌&&◌, Option, none, some, List, [], ◌∷◌, String, str_eq, max, leb, ◌==◌,
  length, take, if◌then◌else◌,
}
use dotidx.HealthHistory.{ℤ, pos, negsuc, HealthEvent, Downtime, HealthHistoryStore}

-- `WHERE service = ? AND timestamp >= ?`
unfoldable pub events_since : String → ℕ → List HealthEvent → List HealthEvent
events_since service since [] = []
events_since service since (e ∷ events) =
    let rest = events_since service since events in
    if str_eq e.service service && leb since e.timestamp then e ∷ rest else rest

-- `ORDER BY timestamp DESC`
unfoldable pub insert_event : HealthEvent → List HealthEvent → List HealthEvent
insert_event e [] = e ∷ []
insert_event e (f ∷ events) =
    let rest = insert_event e events in
    if leb f.timestamp e.timestamp then e ∷ f ∷ events else f ∷ rest

unfoldable pub newest_first : List HealthEvent → List HealthEvent
unfolding insert_event
newest_first [] = []
newest_first (e ∷ events) = insert_event e (newest_first events)

unfoldable pub get_service_history :
    Bool → String → ℕ → ℕ → HealthHistoryStore → Option (List HealthEvent)
unfolding events_since newest_first
get_service_history ok service since limit h =
    if h.enabled && ok
    then some (
        take (if limit == 0 then 100 else limit)
          (newest_first (events_since service since h.health_events)))
    else none

abbrev pub healthy_count : List HealthEvent → ℕ
healthy_count [] = 0
healthy_count (e ∷ events) = (if e.is_healthy then 1 else 0) + healthy_count events

-- The healthy and all events; over no rows the `SUM` is NULL, which is not scanned into an int.
unfoldable pub get_service_uptime : Bool → String → ℕ → HealthHistoryStore → Option (ℕ × ℕ)
unfolding events_since
get_service_uptime ok service since h =
    let events = events_since service since h.health_events in
    if h.enabled && ok
    then if length events == 0 then none else some (healthy_count events, length events)
    else none

pub record DowntimeStats : Type 0 where
  pub incident_count : ℕ
  pub total_downtime_seconds : ℤ
  pub max_downtime_seconds : ℤ

infixl 6 ◌+ℤ◌
abbrev pub ◌+ℤ◌ : ℤ → ℤ → ℤ
pos m +ℤ pos n = pos (m + n)
pos m +ℤ negsuc n = if leb (n + 1) m then pos (m - (n + 1)) else negsuc (n - m)
negsuc m +ℤ pos n = if leb (m + 1) n then pos (n - (m + 1)) else negsuc (m - n)
negsuc m +ℤ negsuc n = negsuc (m + n + 1)

abbrev pub max_of : ℤ → ℤ → ℤ
max_of (pos m) (pos n) = pos (max m n)
max_of (pos m) (negsuc n) = pos m
max_of (negsuc m) (pos n) = pos n
max_of (negsuc m) (negsuc n) = negsuc (min m n)

-- What the aggregates have counted so far; `longest` is NULL, `none`, over no seconds.
pub record Counted : Type 0 where
  pub incidents : ℕ
  pub seconds : ℤ
  pub longest : Option ℤ

-- `SUM` and `MAX` leave NULL out, and `COUNT` does not.
abbrev pub with_incident : Option ℤ → Counted → Counted
with_incident none c = record c { incidents = c.incidents + 1 }
with_incident (some s) c = record {
  incidents = c.incidents + 1;
  seconds = c.seconds +ℤ s;
  longest = some (elim c.longest [ none ↦ s | some m ↦ max_of m s ]);
}

abbrev pub stats_of : Counted → DowntimeStats
stats_of c = record {
  incident_count = c.incidents;
  total_downtime_seconds = c.seconds;
  max_downtime_seconds = elim c.longest [ none ↦ pos 0 | some m ↦ m ];
}

-- The incidents of a service from a time on, after those that are counted.
unfoldable pub count_downtimes : String → ℕ → Counted → List Downtime → Counted
count_downtimes service since c [] = c
count_downtimes service since c (d ∷ ds) =
    count_downtimes service since
      (if str_eq d.service service && leb since d.start_time
        then with_incident d.duration_seconds c
        else c)
      ds

abbrev pub nothing_counted : Counted
nothing_counted = record { incidents = 0; seconds = pos 0; longest = none }

-- `COUNT`, `SUM` and `MAX` over the incidents of a service; the average is left out.
unfoldable pub downtime_stats : String → ℕ → List Downtime → DowntimeStats
unfolding count_downtimes
downtime_stats service since ds = stats_of (count_downtimes service since nothing_counted ds)

unfoldable pub get_downtime_stats : Bool → String → ℕ → HealthHistoryStore → Option DowntimeStats
unfolding downtime_stats
get_downtime_stats ok service since h =
    if h.enabled && ok then some (downtime_stats service since h.service_downtime) else none
