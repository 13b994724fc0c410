-- ===== src/Metrics.antt =====
-- dix/metrics.go: latencies of calls in windows of time. Durations are nanoseconds, and not
-- negative; a method reads the clock once, as `now`. `RateSinceStart` and the rate are floats that
-- are only printed, and left out.
pub mod Window
pub mod Latency
pub mod Percentile
mod Tests
use dotidx.Prelude.{
  ℕ, zero, suc, ◌+◌, ◌-◌, ◌*◌, ◌/◌, Bool, true, false, Option, none, some, List, [], ◌∷◌, map, ltb,
  leb, ◌==◌, since, length, get_elem?, if◌then◌else◌,
}

abbrev pub millisecond : ℕ
millisecond = 1_000_000

abbrev pub minute : ℕ
minute = 60_000_000_000

abbrev pub hour : ℕ
hour = 3_600_000_000_000

pub record Bucket : Type 0 where
  pub call_count : ℕ
  pub total_time : ℕ
  pub min_time : ℕ
  pub max_time : ℕ
  pub failures : ℕ
  pub window : ℕ
  pub started_at : ℕ

unfoldable pub new_bucket : ℕ → ℕ → Bucket
new_bucket window now = record {
  call_count = 0;
  total_time = 0;
  min_time = hour;
  max_time = 0;
  failures = 0;
  window = window;
  started_at = now;
}

unfoldable pub min_duration : ℕ → ℕ → ℕ
min_duration a b = if ltb a b then a else b

unfoldable pub max_duration : ℕ → ℕ → ℕ
max_duration a b = if ltb b a then a else b

-- The counters start again when the window is over.
unfoldable pub roll_window : ℕ → Bucket → Bucket
roll_window now m =
    if leb m.window (since now m.started_at)
    then record m {
      call_count = 0;
      failures = 0;
      total_time = 0;
      min_time = m.window + minute;
      started_at = now;
    }
    else m

unfoldable pub count_call : ℕ → Bool → Bucket → Bucket
count_call count failed m =
    if failed
    then record m { failures = m.failures + count }
    else record m { call_count = m.call_count + count }

unfoldable pub time_call : ℕ → ℕ → Bucket → Bucket
unfolding min_duration max_duration
time_call duration count m =
    if ltb 0 count
    then record m {
      total_time = m.total_time + duration;
      min_time = min_duration (duration / count) m.min_time;
      max_time = max_duration (duration / count) m.max_time;
    }
    else record m { total_time = m.total_time + duration }

-- `RecordLatency` at the clock's reading `now`; `failed` says that there is an error.
unfoldable pub record_latency : ℕ → ℕ → ℕ → Bool → Bucket → Bucket
unfolding roll_window count_call time_call
record_latency now start count failed m =
    time_call (since now start) count (count_call count failed (roll_window now m))

-- `d.Round(time.Millisecond)`: to the nearest multiple, halves away from zero.
unfoldable pub round_millisecond : ℕ → ℕ
round_millisecond d = (d + 500_000) / millisecond * millisecond

pub record BucketStats : Type 0 where
  pub count : ℕ
  pub failures : ℕ
  pub avg : ℕ
  pub min : ℕ
  pub max : ℕ

unfoldable pub get_stats : Bucket → BucketStats
unfolding round_millisecond
get_stats m =
    if ltb 0 m.call_count
    then record {
      count = m.call_count;
      failures = m.failures;
      avg = round_millisecond (m.total_time / m.call_count);
      min = round_millisecond m.min_time;
      max = round_millisecond m.max_time;
    }
    else record { count = 0; failures = m.failures; avg = 0; min = 0; max = 0 }

abbrev pub Metrics : Type 0
Metrics = List Bucket

unfoldable pub new_metrics : ℕ → Metrics
unfolding new_bucket
new_metrics now =
    new_bucket (24 * hour) now
    ∷ new_bucket hour now
    ∷ new_bucket (5 * minute) now
    ∷ new_bucket minute now
    ∷ []

unfoldable pub record_latencies : ℕ → ℕ → ℕ → Bool → Metrics → Metrics
record_latencies now start count failed = map (record_latency now start count failed)

unfoldable pub total_of : List ℕ → ℕ
total_of [] = 0
total_of (d ∷ durations) = d + total_of durations

unfoldable pub calculate_average_duration : List ℕ → ℕ
unfolding total_of
calculate_average_duration durations =
    if length durations == 0 then 0 else total_of durations / length durations

-- `sort.Slice` by the order of the durations.
unfoldable pub insert_sorted : ℕ → List ℕ → List ℕ
insert_sorted d [] = d ∷ []
insert_sorted d (e ∷ durations) =
    let rest = insert_sorted d durations in if leb d e then d ∷ e ∷ durations else e ∷ rest

unfoldable pub sort : List ℕ → List ℕ
unfolding insert_sorted
sort [] = []
sort (d ∷ durations) = insert_sorted d (sort durations)

-- `int(float64(n)*float64(percentile)/100.0) - 1`, moved into the bounds of the list. The quotient
-- of such integers is rounded down right by the floats below 2 ^ 45; -1 becomes 0 as the code does.
unfoldable pub percentile_index : ℕ → ℕ → ℕ
percentile_index n percentile = let i = n * percentile / 100 - 1 in if leb n i then n - 1 else i

-- `none` is the panic of an index out of range.
unfoldable pub calculate_percentile : List ℕ → ℕ → Option ℕ
unfolding sort percentile_index
calculate_percentile durations percentile =
    if length durations == 0
    then some 0
    else get_elem? (sort durations) (percentile_index (length durations) percentile)
