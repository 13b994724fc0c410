-- ===== src/HealthHistory/Downtimes.antt =====
-- cmd/dixmgr/healthhistory.go: downtimes that are recorded, resolved and counted.
use dotidx.Prelude.{ℕ, ◌+◌, ◌≤◌, true, false, none, some, [], ◌∷◌, ◌++◌, String, All}
use dotidx.HealthHistory.{seconds_between, Downtime, HealthHistoryStore}

-- The numbers of the rows are those that were given.
pub record IsValid (h : HealthHistoryStore) : Type 0 where
  pub numbers : All (λ d. d.id ≤ h.last_downtime) h.service_downtime

-- The row that a recorded downtime becomes when it is resolved.
abbrev resolved_row : ℕ → String → String → ℕ → ℕ → Downtime
resolved_row id service reason start_time end_time = record {
  id = id;
  service = service;
  start_time = start_time;
  end_time = some end_time;
  duration_seconds = some (seconds_between start_time end_time);
  reason = reason;
  resolved = true;
}

abbrev open_row : ℕ → String → String → ℕ → Downtime
open_row id service reason start_time = record {
  id = id;
  service = service;
  start_time = start_time;
  end_time = none;
  duration_seconds = none;
  reason = reason;
  resolved = false;
}

-- The store with one more row.
abbrev with_row : HealthHistoryStore → Downtime → HealthHistoryStore
with_row h d = record h {
  service_downtime = h.service_downtime ++ d ∷ [];
  last_downtime = h.last_downtime + 1;
}
