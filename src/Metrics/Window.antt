-- ===== src/Metrics/Window.antt =====
-- dix/metrics.go: a bucket over the calls of one window.
use dotidx.Prelude.{
  ℕ, ◌+◌, ◌/◌, ◌≤◌, ◌<◌, ◌≡◌, Bool, List, [], ◌∷◌, since, All, arith, if◌then◌else◌,
}
use dotidx.Metrics.{Bucket, record_latency}

-- One use of `RecordLatency`.
pub record Sample : Type 0 where
  pub now : ℕ
  pub start : ℕ
  pub count : ℕ
  pub failed : Bool

unfoldable pub record_all : List Sample → Bucket → Bucket
record_all [] m = m
record_all (x ∷ xs) m = record_all xs (record_latency x.now x.start x.count x.failed m)

-- The plain sums over the samples.
abbrev pub calls : List Sample → ℕ
calls [] = 0
calls (x ∷ xs) = (if x.failed then 0 else x.count) + calls xs

abbrev pub failed_calls : List Sample → ℕ
failed_calls [] = 0
failed_calls (x ∷ xs) = (if x.failed then x.count else 0) + failed_calls xs

abbrev pub time : List Sample → ℕ
time [] = 0
time (x ∷ xs) = since x.now x.start + time xs

abbrev pub InWindow : Bucket → List Sample → Type 0
InWindow m = All (λ x. since x.now m.started_at < m.window)

-- One sample of the window.
record Recorded (x : Sample) (m m' : Bucket) : Type 0 where
  counted : m'.call_count ≡ m.call_count + (if x.failed then 0 else x.count)
  failed : m'.failures ≡ m.failures + (if x.failed then x.count else 0)
  timed : m'.total_time ≡ m.total_time + since x.now x.start
  same_window : m'.window ≡ m.window
  same_start : m'.started_at ≡ m.started_at
  min_falls : m'.min_time ≤ m.min_time
  max_grows : m.max_time ≤ m'.max_time
  min_below : 0 < x.count → m'.min_time ≤ since x.now x.start / x.count
  max_above : 0 < x.count → since x.now x.start / x.count ≤ m'.max_time

record_latency-Recorded :
    (x : Sample) (m : Bucket)
    → since x.now m.started_at < m.window
    → Recorded x m (record_latency x.now x.start x.count x.failed m)
unfolding record_latency
record_latency-Recorded x m h = ground arith

-- Within a window a bucket has the sums of its samples, and each sample's time for one call lies
-- between its least and its greatest time.
pub record Summarises (xs : List Sample) (m m' : Bucket) : Type 0 where
  pub counted : m'.call_count ≡ m.call_count + calls xs
  pub failed : m'.failures ≡ m.failures + failed_calls xs
  pub timed : m'.total_time ≡ m.total_time + time xs
  pub falls : m'.min_time ≤ m.min_time
  pub grows : m.max_time ≤ m'.max_time
  pub bounded :
      All
        (λ x.
          0 < x.count
          → (m'.min_time ≤ since x.now x.start / x.count)
            × (since x.now x.start / x.count ≤ m'.max_time))
        xs

same_InWindow :
    (m m' : Bucket) (xs : List Sample)
    → m'.window ≡ m.window
    → m'.started_at ≡ m.started_at
    → InWindow m xs
    → InWindow m' xs
same_InWindow m m' [] a b h = tt
same_InWindow m m' (x ∷ xs) a b h = (rw (a, b) h.0, same_InWindow m m' xs a b h.1)

-- Samples that all fall into the window in which the bucket is are summed up in it: the calls, the
-- failures and the total time are added, and each sample's time for one call lies between the least
-- and the greatest time.
record_all-Summarises :
    (xs : List Sample) (m : Bucket) → InWindow m xs → Summarises xs m (record_all xs m)
unfolding record_all
record_all-Summarises [] m w = ground arith
record_all-Summarises (x ∷ xs) m w =
    let m' = record_latency x.now x.start x.count x.failed m in
    let r = record_latency-Recorded x m w.0 in
    let s = record_all-Summarises xs m' (same_InWindow m m' xs r.same_window r.same_start w.1) in
    record {
      counted = omega (arith, s.counted, r.counted);
      failed = omega (arith, s.failed, r.failed);
      timed = omega (arith, s.timed, r.timed);
      falls = omega (arith, s.falls, r.min_falls);
      grows = omega (arith, s.grows, r.max_grows);
      bounded = (
        λ p. (omega (arith, s.falls, r.min_below p), omega (arith, s.grows, r.max_above p)),
        s.bounded,
      );
    }
