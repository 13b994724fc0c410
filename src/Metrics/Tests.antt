-- ===== src/Metrics/Tests.antt =====
-- Buckets and percentiles at concrete inputs.
use dotidx.Prelude.{ℕ, ◌≡◌, refl, some, List, [], ◌∷◌}
use dotidx.Metrics.{calculate_percentile, percentile_index, sort, insert_sorted}

abbrev durations : List ℕ
durations = 30 ∷ 10 ∷ 40 ∷ 20 ∷ []

median : calculate_percentile durations 50 ≡ some 20
unfolding calculate_percentile sort insert_sorted percentile_index
median = refl

-- The index is rounded down before 1 is taken off: of two durations, the 99th percentile is the smaller.
high_percentile : calculate_percentile (7 ∷ 5 ∷ []) 99 ≡ some 5
unfolding calculate_percentile sort insert_sorted percentile_index
high_percentile = refl
