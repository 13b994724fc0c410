-- ===== src/Database/Partitions.antt =====
-- dix/database.go: the partitions of the table of blocks, one for each month. Months are counted from 0
-- in the loops and from 1 in the partitions. `parsed_month` is the month that `time.Parse` finds in
-- `firstTimestamp`, and `none` where that is empty or not parsed.
pub mod Months
use dotidx.Prelude.{
  ℕ, zero, suc, ◌+◌, ◌-◌, ◌*◌, ◌≤◌, min, ◌≡◌, refl, sym, ap, ap₂, ◌∙◌, true, false, ◌&&◌, ◌||◌, inl,
  inr, Bool-cases, Option, none, some, List, [], ◌∷◌, ◌++◌, String, map, str_eq, ltb, leb, ◌==◌,
  All, All-append, if◌then◌else◌, arith,
}
use dotidx.Database.{Dialect, dialect_postgres, dialect_sqlite}

-- The name of a tablespace is its kind and its number.
pub data Tablespace : Type 0 where
  fast_space slow_space : ℕ → Tablespace

-- `FOR VALUES FROM` the first of a month `TO` the first of another.
pub record Partition : Type 0 where
  pub year : ℕ
  pub month : ℕ
  pub to_year : ℕ
  pub to_month : ℕ
  pub tablespace : Tablespace

unfoldable pub first_year : String → ℕ
first_year relay = if str_eq relay "polkadot" then 2020 else 2019

unfoldable pub first_month : String → Option ℕ → ℕ
first_month relay none = if str_eq relay "polkadot" then 4 else 9
first_month relay (some month) = month - 1

unfoldable pub partition_of : ℕ → ℕ → Tablespace → Partition
partition_of year month tablespace = record {
  year = year;
  month = month + 1;
  to_year = if month == 11 then year + 1 else year;
  to_month = if month == 11 then 1 else month + 2;
  tablespace = tablespace;
}

-- The loop over `n` months from `month` on.
unfoldable pub partitions_of_year : ℕ → ℕ → ℕ → Tablespace → ℕ → ℕ → List Partition
unfolding partition_of
partitions_of_year from_year from_month year tablespace month zero = []
partitions_of_year from_year from_month year tablespace month (suc n) =
    let rest = partitions_of_year from_year from_month year tablespace (month + 1) n in
    if ltb year from_year || year == from_year && ltb month from_month
    then rest
    else partition_of year month tablespace ∷ rest

-- The loop over `n` years from `year` on, with the counters of the two kinds of tablespaces.
unfoldable pub partitions_of_years : ℕ → ℕ → ℕ → ℕ → ℕ → ℕ → ℕ → List Partition
unfolding partitions_of_year
partitions_of_years now_year from_year from_month year slow fast zero = []
partitions_of_years now_year from_year from_month year slow fast (suc n) =
    if leb now_year year
    then partitions_of_year from_year from_month year (fast_space fast) 0 12
      ++ partitions_of_years now_year from_year from_month (year + 1) slow (min (fast + 1) 3) n
    else partitions_of_year from_year from_month year (slow_space slow) 0 12
      ++ partitions_of_years now_year from_year from_month (year + 1) (min (slow + 1) 5) fast n

-- Every statement is executed and succeeds; SQLite has no partitions.
unfoldable pub create_table_blocks_partitions : Dialect → ℕ → String → Option ℕ → List Partition
unfolding partitions_of_years first_year first_month
create_table_blocks_partitions dialect_sqlite now_year relay parsed_month = []
create_table_blocks_partitions dialect_postgres now_year relay parsed_month =
    partitions_of_years now_year (first_year relay) (first_month relay parsed_month)
      (first_year relay) 0 0 6
