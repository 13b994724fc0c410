-- ===== src/Cron/Replaces.antt =====
-- cmd/dixmgr/workflow_cron.go and cmd/dixcron/dixcron.go: the workflow and the binary it replaces.
use dotidx.Prelude.{
  ℕ, suc, ◌+◌, ◌-◌, ◌≤◌, ◌≡◌, refl, sym, ap, ◌∙◌, inl, inr, Bool-cases, Option-cases, true, false,
  ◌&&◌, some, List, String, str_eq, leb, ◌==◌, if◌then◌else◌, for_range, for_rounds, for_each,
  for_rounds-ext, for_rounds-fixed, for_rounds-append, for_each-ext, arith,
}
use dotidx.Database.Queries.{QueryKey, StoredResult, read_time_named_query}
use dotidx.Cron.{
  ChainInfo, CronWorkflowConfig, World, key_of, first_year, check_query_result_exists,
  execute_and_store_activity, process_query, historical_month, execute_historical_queries,
  get_database_info_activity, cron_workflow,
}
use dotidx.Cron.Kept.{months, years}
use dotidx.Cron.Dixcron.{
  list_of_registered_queries, store_result, compute_query, compute_month, compute_registered_query,
  compute_registered_queries,
}

module _ {Template Results : Type 0} (w : World Template Results) (on : w.database ≡ true)
    (reads : (key : QueryKey) → w.reads key ≡ true) (current_year current_month : ℕ)
    (in_year : current_month ≤ 12) where
  process_query-compute_query :
      (key : QueryKey) (rows : List (StoredResult Results))
      → process_query w key rows ≡ compute_query w key rows
  unfolding process_query check_query_result_exists execute_and_store_activity compute_query
      store_result
  process_query-compute_query key rows =
      let r = reads key in ground (arith, Option-cases (read_time_named_query key rows))

  month_same :
      (c : ChainInfo) (name : String) (year month : ℕ) (rows : List (StoredResult Results))
      → historical_month w current_year current_month c name year month rows
        ≡ compute_month w current_year current_month c name year month rows
  unfolding historical_month compute_month
  month_same c name year month rows =
      ap (λ done. if year == current_year && leb current_month month then rows else done)
        (process_query-compute_query (key_of c name year month) rows)

  late :
      (c : ChainInfo) (name : String) (year : ℕ)
      → (year == current_year) ≡ true
      → (month : ℕ) → 1 + current_month ≤ month
      → (rows : List (StoredResult Results))
      → compute_month w current_year current_month c name year month rows ≡ rows
  unfolding compute_month
  late c name year now month low rows = ground arith

  -- The rounds past the current month do nothing.
  months_same :
      (c : ChainInfo) (name : String) (year : ℕ) (rows : List (StoredResult Results))
      → months w current_year current_month c name year rows
        ≡ for_range 1 12
            (λ month. compute_month w current_year current_month c name year month)
            rows
  months_same c name year rows = elim (Bool-cases (year == current_year)) [
    | inr other ↦
        rw other (for_rounds-ext _ _ 12 1 (λ month s low high. month_same c name year month s) rows)
    | inl now ↦
        let rounds : suc current_month - 1 ≡ current_month = omega arith in
        let all : current_month + (12 - current_month) ≡ 12 = omega arith in
        let old : ℕ → List (StoredResult Results) → List (StoredResult Results) =
          λ month. historical_month w current_year current_month c name year month in
        let new : ℕ → List (StoredResult Results) → List (StoredResult Results) =
          λ month. compute_month w current_year current_month c name year month in
        let done = for_rounds current_month 1 new rows in
        rw now (
          ap (λ n. for_rounds n 1 old rows) rounds
          ∙ for_rounds-ext old new current_month 1
              (λ month s low high. month_same c name year month s) rows
          ∙ sym (
              for_rounds-fixed new (12 - current_month) (1 + current_month) done
                (λ month low high. late c name year now month low done))
          ∙ sym (for_rounds-append new current_month (12 - current_month) 1 rows)
          ∙ ap (λ n. for_rounds n 1 new rows) all)
  ]

  years_same :
      (c : ChainInfo) (name : String) (rows : List (StoredResult Results))
      → years w current_year current_month c name rows
        ≡ for_range first_year current_year
            (λ year.
              for_range 1 12 λ month. compute_month w current_year current_month c name year month)
            rows
  years_same c name rows =
      for_rounds-ext _ _ _ first_year (λ year s low high. months_same c name year s) rows

  historical_same :
      (config : CronWorkflowConfig)
      → config.registered_queries ≡ list_of_registered_queries w.registry
      → (chains : List ChainInfo) (rows : List (StoredResult Results))
      → execute_historical_queries w config chains current_year current_month rows
        ≡ for_each (compute_registered_query w current_year current_month) chains rows
  unfolding execute_historical_queries compute_registered_query
  historical_same config same chains rows =
      let run : List String → List (StoredResult Results) = λ queries.
        for_each (λ c. for_each (λ name. years w current_year current_month c name) queries) chains
          rows in
      ap run same
      ∙ for_each-ext _ _
          (λ c s.
            for_each-ext _ _ (λ name s'. years_same c name s')
              (list_of_registered_queries w.registry) s)
          chains rows

  daily_run :
      (schedule : String) (config : CronWorkflowConfig) (chains : List ChainInfo)
      (rows : List (StoredResult Results))
      → w.infos ≡ some chains
      → str_eq schedule config.hourly_cron_schedule ≡ false
      → cron_workflow w schedule config current_year current_month rows
        ≡ some (execute_historical_queries w config chains current_year current_month rows)
  unfolding cron_workflow get_database_info_activity
  daily_run schedule config chains rows found daily = ground arith

  -- Over the same registry, with the same SQL under each name, the daily run of the workflow computes what
  -- dixcron computes; the two programs register different SQL, and this is not claimed of what each
  -- registers by itself. Where a database is configured and answers the queries for times, the
  -- current month is at most 12, the queries of the configuration are the registered ones
  -- in their order, and the run is not the hourly one, it completes with the results that the loops
  -- of dixcron leave for all chains.
  pub cron_workflow-compute_registered_queries :
      (schedule : String) (config : CronWorkflowConfig) (chains : List ChainInfo)
      (rows : List (StoredResult Results))
      → w.infos ≡ some chains
      → config.registered_queries ≡ list_of_registered_queries w.registry
      → str_eq schedule config.hourly_cron_schedule ≡ false
      → cron_workflow w schedule config current_year current_month rows
        ≡ some (compute_registered_queries w current_year current_month rows)
  unfolding compute_registered_queries
  cron_workflow-compute_registered_queries schedule config chains rows found names daily =
      daily_run schedule config chains rows found daily
      ∙ ap some (historical_same config names chains rows)
      ∙ rw found refl
