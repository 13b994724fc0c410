-- ===== src/Database/Timestamp.antt =====
-- dix/database.go: the time that `Save` gives to a block in whose extrinsics no time is found. `Pad` are
-- the numbers of the text `2000-01-01 hour:min:sec.milli`.
use dotidx.Prelude.{ℕ, suc, ◌+◌, ◌*◌, ◌/◌, ◌%◌, ◌≤◌, ◌≡◌, ◌↔◌, arith}

pub record FallbackTime : Type 0 where
  pub hour : ℕ
  pub min : ℕ
  pub sec : ℕ
  pub milli : ℕ

-- For the number that `ParseInt` makes of the id.
unfoldable pub fallback_time : ℕ → FallbackTime
fallback_time id = record {
  milli = id % 1000;
  sec = (id / 1000) % 60;
  min = (id / 60_000) % 60;
  hour = (id / 3_600_000) % 60;
}

-- A time of the day.
pub record IsTimeOfDay (t : FallbackTime) : Type 0 where
  pub hour_lt : suc t.hour ≤ 24
  pub min_lt : suc t.min ≤ 60
  pub sec_lt : suc t.sec ≤ 60
  pub milli_lt : suc t.milli ≤ 1000

-- For ids up to 216,000,000, the id can be read off its time, so that no two blocks have the same one.
abbrev pub id_of : FallbackTime → ℕ
id_of t = ((t.hour * 60 + t.min) * 60 + t.sec) * 1000 + t.milli

-- The time stands for a time of the day if and only if the id is below 86,400,000; and below 216,000,000
-- different ids have different times.
fallback_time-IsTimeOfDay :
    (id : ℕ)
    → suc id ≤ 216_000_000
    → (IsTimeOfDay (fallback_time id) ↔ (suc id ≤ 86_400_000)) × (id_of (fallback_time id) ≡ id)
unfolding fallback_time
fallback_time-IsTimeOfDay id small = (
  (
    λ v. omega (arith, v.hour_lt, small),
    λ early. record {
      hour_lt = omega (arith, early);
      min_lt = omega arith;
      sec_lt = omega arith;
      milli_lt = omega arith;
    },
  ),
  omega (arith, small),
)
