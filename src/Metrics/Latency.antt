-- ===== src/Metrics/Latency.antt =====
-- dix/metrics.go: what becomes of the greatest time and of the average.
use dotidx.Prelude.{
  ℕ, zero, suc, ◌+◌, ◌*◌, ◌/◌, ◌≤◌, ◌<◌, ◌≡◌, refl, ◌∙◌, Bool, true, false, since, arith,
  if◌then◌else◌,
}
use dotidx.Metrics.{Bucket, new_bucket, record_latency, get_stats, round_millisecond, minute}

-- When the window is over, the counters start again with the call that is recorded, and the least
-- time with the window and a minute; the greatest time is kept: it is not the window's, but that of
-- all calls since the bucket was made.
max_survives_window :
    (now start count : ℕ) (failed : Bool) (m : Bucket)
    → m.window ≤ since now m.started_at
    → let m' = record_latency now start count failed m in
      (m'.call_count ≡ (if failed then 0 else count))
      × (m'.failures ≡ (if failed then count else 0))
      × (m'.total_time ≡ since now start)
      × (m'.min_time ≤ m.window + minute)
      × (m'.started_at ≡ now)
      × (m.max_time ≤ m'.max_time)
unfolding record_latency
max_survives_window now start count failed m h = ground arith

-- `n` failed calls, each of the duration `d`, that end at `now`.
unfoldable pub fail_calls : ℕ → ℕ → ℕ → Bucket → Bucket
fail_calls zero now start m = m
fail_calls (suc n) now start m = fail_calls n now start (record_latency now start 1 true m)

failed_call :
    (now start : ℕ) (m : Bucket)
    → since now m.started_at < m.window
    → m.max_time ≡ since now start
    → let m' = record_latency now start 1 true m in
      (m'.call_count ≡ m.call_count)
      × (m'.total_time ≡ m.total_time + since now start)
      × (m'.max_time ≡ m.max_time)
      × (m'.window ≡ m.window)
      × (m'.started_at ≡ m.started_at)
unfolding record_latency
failed_call now start m w d = ground arith

fail_calls_lem :
    (n now start : ℕ) (m : Bucket)
    → since now m.started_at < m.window
    → m.max_time ≡ since now start
    → let m' = fail_calls n now start m in
      (m'.call_count ≡ m.call_count)
      × (m'.total_time ≡ m.total_time + n * since now start)
      × (m'.max_time ≡ m.max_time)
unfolding fail_calls
fail_calls_lem zero now start m w d = (refl, omega arith, refl)
fail_calls_lem (suc n) now start m w d =
    let m' = record_latency now start 1 true m in
    let (c, t, x, w', s') = failed_call now start m w d in
    let (c', t', x') = fail_calls_lem n now start m' (rw (w', s') w) (x ∙ d) in
    (c' ∙ c, omega (arith, t, t'), x' ∙ x)

first_call :
    (now start window started_at : ℕ)
    → since now started_at < window
    → let m = record_latency now start 1 false (new_bucket window started_at) in
      (m.call_count ≡ 1)
      × (m.total_time ≡ since now start)
      × (m.max_time ≡ since now start)
      × (m.window ≡ window)
      × (m.started_at ≡ started_at)
unfolding record_latency new_bucket
first_call now start window started_at w = ground arith

stats_of :
    (m : Bucket) (total most : ℕ)
    → m.call_count ≡ 1
    → m.total_time ≡ total
    → m.max_time ≡ most
    → ((get_stats m).avg ≡ round_millisecond total) × ((get_stats m).max ≡ round_millisecond most)
unfolding get_stats
stats_of m total most c t x =
    let e : total / 1 ≡ total = omega arith in rw (c, t, x, e) (refl, refl)

-- The average divides the time of all calls by the number of those that succeed. Within the window
-- of a new bucket, after one call that succeeds and `n` that fail, all of one duration, it is `n + 1` times that duration, although
-- no call took longer than the greatest time, which is the duration itself.
failures_inflate_average :
    (n now start window started_at : ℕ)
    → since now started_at < window
    → let m =
        fail_calls n now start (record_latency now start 1 false (new_bucket window started_at)) in
      ((get_stats m).avg ≡ round_millisecond ((n + 1) * since now start))
      × ((get_stats m).max ≡ round_millisecond (since now start))
failures_inflate_average n now start window started_at w =
    let m = record_latency now start 1 false (new_bucket window started_at) in
    let (c, t, x, w', s') = first_call now start window started_at w in
    let (c', t', x') = fail_calls_lem n now start m (rw (w', s') w) x in
    stats_of (fail_calls n now start m) ((n + 1) * since now start) (since now start) (c' ∙ c)
      (omega (arith, t, t')) (x' ∙ x)
