-- ===== src/Database/Partitions/Months.antt =====
-- dix/database.go: which months the partitions are for.
use dotidx.Prelude.{
  ℕ, zero, suc, ◌+◌, ◌-◌, ◌*◌, ◌≤◌, min, ◌≡◌, refl, sym, ap, ap₂, ◌∙◌, true, false, ◌&&◌, ◌||◌, inl,
  inr, Bool-cases, Option, List, [], ◌∷◌, ◌++◌, String, map, ltb, leb, ◌==◌, All, All-append, arith,
}
use dotidx.Database.{dialect_postgres, dialect_sqlite}
use dotidx.Database.Partitions.{
  Tablespace, fast_space, slow_space, Partition, first_year, first_month, partition_of,
  partitions_of_year, partitions_of_years, create_table_blocks_partitions,
}

-- The months since year 0 that a partition starts with, and ends before.
abbrev pub starts_at : Partition → ℕ
starts_at p = 12 * p.year + p.month - 1

abbrev pub ends_at : Partition → ℕ
ends_at p = 12 * p.to_year + p.to_month - 1

abbrev pub count_from : ℕ → ℕ → List ℕ
count_from i zero = []
count_from i (suc n) = i ∷ count_from (i + 1) n

count_from-add : (i j k : ℕ) → count_from i (j + k) ≡ count_from i j ++ count_from (i + j) k
count_from-add i zero k =
    let left : zero + k ≡ k = omega arith in
    let right : i ≡ i + zero = omega arith in
    ap (count_from i) left ∙ ap (λ n. count_from n k) right
count_from-add i (suc j) k =
    let left : suc j + k ≡ suc (j + k) = omega arith in
    let right : i + 1 + j ≡ i + suc j = omega arith in
    ap (count_from i) left
    ∙ ap (λ ns. i ∷ ns)
        (count_from-add (i + 1) j k ∙ ap (λ n. count_from (i + 1) j ++ count_from n k) right)

map-append_starts :
    (ps qs : List Partition) → map starts_at (ps ++ qs) ≡ map starts_at ps ++ map starts_at qs
map-append_starts [] qs = refl
map-append_starts (p ∷ ps) qs = ap (λ ns. starts_at p ∷ ns) (map-append_starts ps qs)

ends_at-partition_of :
    (year month : ℕ) (t : Tablespace)
    → suc month ≤ 12
    → ends_at (partition_of year month t) ≡ starts_at (partition_of year month t) + 1
unfolding partition_of
ends_at-partition_of year month t le = ground arith

-- A later year has all its months, and the first one those from its first month on.
later_year :
    (from_year from_month year month n : ℕ) (t : Tablespace)
    → suc from_year ≤ year
    → map starts_at (partitions_of_year from_year from_month year t month n)
      ≡ count_from (12 * year + month) n
unfolding partitions_of_year partition_of
later_year from_year from_month year month zero t le = refl
later_year from_year from_month year month (suc n) t le =
    let kept : (ltb year from_year || year == from_year && ltb month from_month) ≡ false =
      ground arith in
    let here : 12 * year + (month + 1) - 1 ≡ 12 * year + month = omega arith in
    let next : 12 * year + (month + 1) ≡ 12 * year + month + 1 = omega arith in
    rw kept (
      ap₂ (◌∷◌) here
        (later_year from_year from_month year (month + 1) n t le ∙ ap (λ i. count_from i n) next))

opening_year_kept :
    (year from_month month n : ℕ) (t : Tablespace)
    → from_month ≤ month
    → map starts_at (partitions_of_year year from_month year t month n)
      ≡ count_from (12 * year + month) n
unfolding partitions_of_year partition_of
opening_year_kept year from_month month zero t le = refl
opening_year_kept year from_month month (suc n) t le =
    let kept : (ltb year year || year == year && ltb month from_month) ≡ false = ground arith in
    let here : 12 * year + (month + 1) - 1 ≡ 12 * year + month = omega arith in
    let next : 12 * year + (month + 1) ≡ 12 * year + month + 1 = omega arith in
    rw kept (
      ap₂ (◌∷◌) here (
        opening_year_kept year from_month (month + 1) n t (omega (arith, le))
        ∙ ap (λ i. count_from i n) next))

opening_year_all :
    (year from_month month skipped n : ℕ) (t : Tablespace)
    → month + skipped ≡ from_month
    → map starts_at (partitions_of_year year from_month year t month (skipped + n))
      ≡ count_from (12 * year + from_month) n
unfolding partitions_of_year
opening_year_all year from_month month zero n t e =
    let left : zero + n ≡ n = omega arith in
    let here : month ≡ from_month = omega (arith, e) in
    ap (λ k. map starts_at (partitions_of_year year from_month year t month k)) left
    ∙ opening_year_kept year from_month month n t (omega (arith, e))
    ∙ ap (λ m. count_from (12 * year + m) n) here
opening_year_all year from_month month (suc skipped) n t e =
    let left : suc skipped + n ≡ suc (skipped + n) = omega arith in
    let skip : (ltb year year || year == year && ltb month from_month) ≡ true = ground arith in
    ap (λ k. map starts_at (partitions_of_year year from_month year t month k)) left
    ∙ rw skip (opening_year_all year from_month (month + 1) skipped n t (omega (arith, e)))

join :
    (ps qs : List Partition) (a j k total : ℕ)
    → map starts_at ps ≡ count_from a j
    → map starts_at qs ≡ count_from (a + j) k
    → j + k ≡ total
    → map starts_at (ps ++ qs) ≡ count_from a total
join ps qs a j k total p q e =
    map-append_starts ps qs ∙ ap₂ ◌++◌ p q ∙ sym (count_from-add a j k) ∙ ap (count_from a) e

later_years :
    (now_year from_year from_month year slow fast n : ℕ)
    → suc from_year ≤ year
    → map starts_at (partitions_of_years now_year from_year from_month year slow fast n)
      ≡ count_from (12 * year) (12 * n)
unfolding partitions_of_years
later_years now_year from_year from_month year slow fast zero le = refl
later_years now_year from_year from_month year slow fast (suc n) le =
    let here : 12 * year + 0 ≡ 12 * year = omega arith in
    let next : 12 * (year + 1) ≡ 12 * year + 12 = omega arith in
    let total : 12 + 12 * n ≡ 12 * suc n = omega arith in
    let months = λ (t : Tablespace).
      later_year from_year from_month year 0 12 t le ∙ ap (λ i. count_from i 12) here in
    let years = λ (s f : ℕ).
      later_years now_year from_year from_month (year + 1) s f n (omega (arith, le))
      ∙ ap (λ i. count_from i (12 * n)) next in
    elim (Bool-cases (leb now_year year)) [
      | inl e ↦ rw e (
          join _ _ (12 * year) 12 (12 * n) (12 * suc n) (months (fast_space fast))
            (years slow (min (fast + 1) 3)) total)
      | inr e ↦ rw e (
          join _ _ (12 * year) 12 (12 * n) (12 * suc n) (months (slow_space slow))
            (years (min (slow + 1) 5) fast) total)
    ]

all_years :
    (now_year year from_month : ℕ)
    → from_month ≤ 12
    → map starts_at (partitions_of_years now_year year from_month year 0 0 6)
      ≡ count_from (12 * year + from_month) (72 - from_month)
unfolding partitions_of_years
all_years now_year year from_month le =
    let split : from_month + (12 - from_month) ≡ 12 = omega (arith, le) in
    let next : 12 * (year + 1) ≡ 12 * year + from_month + (12 - from_month) = omega (arith, le) in
    let total : 12 - from_month + 60 ≡ 72 - from_month = omega (arith, le) in
    let months = λ (t : Tablespace).
      ap (λ n. map starts_at (partitions_of_year year from_month year t 0 n)) (sym split)
      ∙ opening_year_all year from_month 0 from_month (12 - from_month) t (omega arith) in
    let years = λ (s f : ℕ).
      later_years now_year year from_month (year + 1) s f 5 (omega arith)
      ∙ ap (λ i. count_from i 60) next in
    elim (Bool-cases (leb now_year year)) [
      | inl e ↦ rw e (
          join _ _ (12 * year + from_month) (12 - from_month) 60 (72 - from_month)
            (months (fast_space 0)) (years 0 (min (0 + 1) 3)) total)
      | inr e ↦ rw e (
          join _ _ (12 * year + from_month) (12 - from_month) 60 (72 - from_month)
            (months (slow_space 0)) (years (min (0 + 1) 5) 0) total)
    ]

abbrev pub OneMonth : Partition → Type 0
OneMonth p = ends_at p ≡ starts_at p + 1

year-OneMonth :
    (from_year from_month year month n : ℕ) (t : Tablespace)
    → month + n ≤ 12
    → All OneMonth (partitions_of_year from_year from_month year t month n)
unfolding partitions_of_year
year-OneMonth from_year from_month year month zero t le = tt
year-OneMonth from_year from_month year month (suc n) t le =
    elim (Bool-cases (ltb year from_year || year == from_year && ltb month from_month)) [
      | inl e ↦ rw e (year-OneMonth from_year from_month year (month + 1) n t (omega (arith, le)))
      | inr e ↦ rw e (
        ends_at-partition_of year month t (omega (arith, le)),
        year-OneMonth from_year from_month year (month + 1) n t (omega (arith, le)),
      )
    ]

years-OneMonth :
    (now_year from_year from_month year slow fast n : ℕ)
    → All OneMonth (partitions_of_years now_year from_year from_month year slow fast n)
unfolding partitions_of_years
years-OneMonth now_year from_year from_month year slow fast zero = tt
years-OneMonth now_year from_year from_month year slow fast (suc n) =
    let months = λ (t : Tablespace). year-OneMonth from_year from_month year 0 12 t (omega arith) in
    elim (Bool-cases (leb now_year year)) [
      | inl e ↦ rw e (
          All-append OneMonth _ _ (months (fast_space fast))
            (years-OneMonth now_year from_year from_month (year + 1) slow (min (fast + 1) 3) n))
      | inr e ↦ rw e (
          All-append OneMonth _ _ (months (slow_space slow))
            (years-OneMonth now_year from_year from_month (year + 1) (min (slow + 1) 5) fast n))
    ]

-- For SQLite no partition is made. For PostgreSQL the partitions are of one month each, without gaps and overlaps, from the first month of the chain up
-- to the end of the sixth calendar year, the first one counted, and no further, in whatever year the
-- tables are made.
pub create_table_blocks_partitions_lem :
    (now_year : ℕ) (relay : String) (parsed_month : Option ℕ)
    → first_month relay parsed_month ≤ 12
    → let partitions =
        create_table_blocks_partitions dialect_postgres now_year relay parsed_month in
      let month = first_month relay parsed_month in
      (create_table_blocks_partitions dialect_sqlite now_year relay parsed_month ≡ [])
      × (map starts_at partitions ≡ count_from (12 * first_year relay + month) (72 - month))
      × All OneMonth partitions
unfolding create_table_blocks_partitions
create_table_blocks_partitions_lem now_year relay parsed_month le = (
  refl,
  all_years now_year (first_year relay) (first_month relay parsed_month) le,
  years-OneMonth now_year (first_year relay) (first_month relay parsed_month) (first_year relay) 0 0
      6,
)
