-- ===== src/Cron/Kept.antt =====
-- cmd/dixmgr/workflow_cron.go: the loops of the daily run, and the results that it keeps.
use dotidx.Prelude.{
  ℕ, ◌≤◌, ◌<◌, ◌≡◌, ◌⊎◌, true, some, List, String, ◌==◌, All, if◌then◌else◌, for_range, for_each,
  for_rounds-keeps, for_each-keeps, arith,
}
use dotidx.Database.Queries.{QueryKey, StoredResult, read_time_named_query}
use dotidx.Cron.{
  ChainInfo, CronWorkflowConfig, World, key_of, first_year, execute_and_store_activity,
  historical_month, execute_historical_queries,
}
use dotidx.Cron.Stored.{process_query-time}

-- A month from the first year on, before the current one.
pub record IsPast (current_year current_month year month : ℕ) : Type 0 where
  pub from_first : first_year ≤ year
  pub is_month : (1 ≤ month) × (month ≤ 12)
  pub before : (year < current_year) ⊎ ((year ≡ current_year) × (month < current_month))

module _ {Results : Type 0} where
  abbrev pub HasResult : QueryKey → List (StoredResult Results) → Type 0
  HasResult key rows = (t : ℕ) × (read_time_named_query key rows ≡ some t)

  -- Each query has a result for each chain and each past month.
  abbrev pub IsComplete :
      List String → List ChainInfo → ℕ → ℕ → List (StoredResult Results) → Type 0
  IsComplete names chains current_year current_month rows =
      All
        (λ c.
          All
            (λ name.
              (year month : ℕ)
              → IsPast current_year current_month year month
              → HasResult (key_of c name year month) rows)
            names)
        chains

-- Executing the query succeeds, for each chain and month.
abbrev pub Runs : {Template Results : Type 0} → World Template Results → String → Type 0
Runs {Results = Results} w name =
    (c : ChainInfo) (year month : ℕ) (rows : List (StoredResult Results))
    → (rows' : List (StoredResult Results)) × (execute_and_store_activity w
          (key_of c name year month) rows
        ≡ some rows')

-- The loops over the months of a year, the years and the queries.
module _ {Template Results : Type 0} (w : World Template Results)
    (current_year current_month : ℕ) where
  abbrev pub months :
      ChainInfo → String → ℕ → List (StoredResult Results) → List (StoredResult Results)
  months c name year =
      for_range 1 (if year == current_year then current_month else 12)
        λ month. historical_month w current_year current_month c name year month

  abbrev pub years : ChainInfo → String → List (StoredResult Results) → List (StoredResult Results)
  years c name = for_range first_year current_year (λ year. months c name year)

  abbrev pub names :
      CronWorkflowConfig → ChainInfo → List (StoredResult Results) → List (StoredResult Results)
  names config c = for_each (λ name. years c name) config.registered_queries

module _ {Template Results : Type 0} (w : World Template Results)
    (reads : (key : QueryKey) → w.reads key ≡ true) (config : CronWorkflowConfig)
    (current_year current_month : ℕ) (asked : QueryKey) (t : ℕ) where
  abbrev Keeps : List (StoredResult Results) → Type 0
  Keeps rows = read_time_named_query asked rows ≡ some t

  pub month-Keeps :
      (c : ChainInfo) (name : String) (year month : ℕ) (rows : List (StoredResult Results))
      → Keeps rows
      → Keeps (historical_month w current_year current_month c name year month rows)
  unfolding historical_month
  month-Keeps c name year month rows h = ground (
    arith,
    process_query-time w (key_of c name year month) asked rows t (reads (key_of c name year month))
        h,
  )

  pub months-Keeps :
      (c : ChainInfo) (name : String) (year : ℕ) (rows : List (StoredResult Results))
      → Keeps rows
      → Keeps (months w current_year current_month c name year rows)
  months-Keeps c name year = for_rounds-keeps Keeps _ (λ month. month-Keeps c name year month) _ 1

  pub years-Keeps :
      (c : ChainInfo) (name : String) (rows : List (StoredResult Results))
      → Keeps rows
      → Keeps (years w current_year current_month c name rows)
  years-Keeps c name = for_rounds-keeps Keeps _ (λ year. months-Keeps c name year) _ first_year

  pub names-Keeps :
      (c : ChainInfo) (rows : List (StoredResult Results))
      → Keeps rows
      → Keeps (names w current_year current_month config c rows)
  names-Keeps c = for_each-keeps Keeps _ (λ name. years-Keeps c name) config.registered_queries

  -- With answers to the queries for times, a daily run leaves each result as it is.
  pub execute_historical_queries-time :
      (chains : List ChainInfo) (rows : List (StoredResult Results))
      → Keeps rows
      → Keeps (execute_historical_queries w config chains current_year current_month rows)
  unfolding execute_historical_queries
  execute_historical_queries-time = for_each-keeps Keeps _ names-Keeps
