-- ===== src/Cron/Complete.antt =====
-- cmd/dixmgr/workflow_cron.go: what the daily run of `CronWorkflow` leaves behind.
use dotidx.Prelude.{
  ℕ, suc, ◌+◌, ◌-◌, ◌<◌, ◌≡◌, inl, inr, true, false, ◌&&◌, some, List, String, leb, ◌==◌, All,
  if◌then◌else◌, for_rounds-sets, for_each-sets, All-map, All-of, arith,
}
use dotidx.Database.Queries.{QueryKey, StoredResult, read_time_named_query}
use dotidx.Cron.{
  ChainInfo, CronWorkflowConfig, World, key_of, first_year, historical_month,
  execute_historical_queries,
}
use dotidx.Cron.Stored.{process_query-sets}
use dotidx.Cron.Kept.{
  IsPast, Runs, HasResult, IsComplete, months, years, names, month-Keeps, months-Keeps, years-Keeps,
  names-Keeps, execute_historical_queries-time,
}

year_in_range :
    (cy cm year month : ℕ) → IsPast cy cm year month → year < first_year + (suc cy - first_year)
year_in_range cy cm year month past =
    let low = past.from_first in
    elim past.before [ inl earlier ↦ omega arith | inr (same, earlier) ↦ omega arith ]

month_in_range :
    (cy cm year month : ℕ)
    → IsPast cy cm year month
    → month < 1 + (suc (if year == cy then cm else 12) - 1)
month_in_range cy cm year month past =
    let (low, high) = past.is_month in
    elim past.before [ inl earlier ↦ ground arith | inr (same, earlier) ↦ ground arith ]

module _ {Template Results : Type 0} (w : World Template Results)
    (reads : (key : QueryKey) → w.reads key ≡ true) (config : CronWorkflowConfig)
    (current_year current_month : ℕ) where
  module _ (on : w.database ≡ true) where
    month-sets :
        (c : ChainInfo) (name : String)
        → Runs w name
        → (year month : ℕ) → IsPast current_year current_month year month
        → (rows : List (StoredResult Results))
        → HasResult
            (key_of c name year month)
            (historical_month w current_year current_month c name year month rows)
    unfolding historical_month
    month-sets c name runs year month past rows =
        let key = key_of c name year month in
        let here : (year == current_year && leb current_month month) ≡ false = elim past.before [
          | inl earlier ↦ ground arith
          | inr (same, earlier) ↦ ground arith
        ] in
        rw here (process_query-sets w key rows on (reads key) (runs c year month rows))

    years-sets :
        (c : ChainInfo) (name : String)
        → Runs w name
        → (rows : List (StoredResult Results)) → (year month : ℕ)
        → IsPast current_year current_month year month
        → HasResult (key_of c name year month) (years w current_year current_month c name rows)
    years-sets c name runs rows year month past =
        let key = key_of c name year month in
        let P : List (StoredResult Results) → Type 0 = HasResult key in
        for_rounds-sets P (λ y. months w current_year current_month c name y)
          (λ y s (t, h).
            (t, months-Keeps w reads config current_year current_month key t c name y s h))
          year
          (λ s.
            for_rounds-sets P (λ m. historical_month w current_year current_month c name year m)
              (λ m s' (t, h).
                (t, month-Keeps w reads config current_year current_month key t c name year m s' h))
              month (month-sets c name runs year month past) _ 1 (past.is_month.0)
              (month_in_range current_year current_month year month past) s)
          _ first_year past.from_first (year_in_range current_year current_month year month past)
          rows

    names-sets :
        All (Runs w) config.registered_queries
        → (c : ChainInfo) (rows : List (StoredResult Results))
        → All
            (λ name.
              (year month : ℕ)
              → IsPast current_year current_month year month
              → HasResult
                  (key_of c name year month)
                  (names w current_year current_month config c rows))
            config.registered_queries
    names-sets runs c =
        for_each-sets
          (λ name s.
            (year month : ℕ)
            → IsPast current_year current_month year month
            → HasResult (key_of c name year month) s)
          _
          (λ name other s h year month past.
            let (t, there) = h year month past in
            (
              t,
              years-Keeps w reads config current_year current_month (key_of c name year month) t c
                  other s there,
            ))
          config.registered_queries
          (All-map (λ name runs s. years-sets c name runs s) config.registered_queries runs)

    historical-IsComplete :
        (chains : List ChainInfo) (rows : List (StoredResult Results))
        → All (Runs w) config.registered_queries
        → IsComplete config.registered_queries chains current_year current_month
            (execute_historical_queries w config chains current_year current_month rows)
    unfolding execute_historical_queries
    historical-IsComplete chains rows runs =
        for_each-sets
          (λ c s.
            All
              (λ name.
                (year month : ℕ)
                → IsPast current_year current_month year month
                → HasResult (key_of c name year month) s)
              config.registered_queries)
          (λ c. names w current_year current_month config c)
          (λ c other s all.
            All-map
              (λ name h year month past.
                let (t, there) = h year month past in
                (
                  t,
                  names-Keeps w reads config current_year current_month (key_of c name year month) t
                      other s there,
                ))
              config.registered_queries all)
          chains (All-of (names-sets runs) chains) rows

    -- Where there are answers to the queries for times and every query of the configuration succeeds, a
    -- daily run leaves a result for each of these queries, each chain and each month from January 2019 to
    -- the month before the current one, and every result that was there before keeps its time.
    pub execute_historical_queries-IsComplete :
        (chains : List ChainInfo) (rows : List (StoredResult Results))
        → All (Runs w) config.registered_queries
        → let rows' = execute_historical_queries w config chains current_year current_month rows in
          IsComplete config.registered_queries chains current_year current_month rows'
          × ((asked : QueryKey) (t : ℕ)
              → read_time_named_query asked rows ≡ some t
              → read_time_named_query asked rows' ≡ some t)
    execute_historical_queries-IsComplete chains rows runs = (
      historical-IsComplete chains rows runs,
      λ asked t there.
          execute_historical_queries-time w reads config current_year current_month asked t chains
            rows there,
    )
