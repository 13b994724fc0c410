-- ===== src/Cron.antt =====
-- cmd/dixmgr/workflow_cron.go and activities_cron.go: `CronWorkflow`, which computes the registered
-- queries for each chain and month, and cmd/dixcron/dixcron.go, the binary that it replaces. The state
-- are the stored results (`Database.Queries`); a `World` holds what the database answers during a run.
pub mod Stored
pub mod Kept
pub mod Complete
pub mod Dixcron
pub mod Replaces
pub mod Partial
mod Tests
use dotidx.Prelude.{
  ℕ, suc, ◌-◌, Bool, true, false, ◌&&◌, Option, none, some, ◌>>=◌, List, [], ◌∷◌, map, String,
  str_eq, leb, ◌==◌, Dict, if◌then◌else◌, for_range, for_rounds, for_each,
}
use dotidx.Database.Queries.{
  QueryKey, NamedQuery, StoredResult, register_query, read_time_named_query,
  execute_and_store_named_query,
}

pub record ChainInfo : Type 0 where
  pub relay_chain : String
  pub chain : String

pub record CronWorkflowConfig : Type 0 where
  pub hourly_cron_schedule : String
  pub daily_cron_schedule : String
  pub registered_queries : List String

-- `database` is whether one is configured, `reads` whether the query for the time of a result gets an
-- answer, `stores` whether a result can be written, and `now` the time at which it is.
pub record World (Template Results : Type 0) : Type 0 where
  pub database : Bool
  pub infos : Option (List ChainInfo)
  pub registry : Dict (NamedQuery Template)
  pub render : Template → QueryKey → Option String
  pub run : String → Option Results
  pub reads : QueryKey → Bool
  pub stores : QueryKey → Bool
  pub now : QueryKey → ℕ

abbrev pub key_of : ChainInfo → String → ℕ → ℕ → QueryKey
key_of c name year month = record {
  relay_chain = c.relay_chain;
  chain = c.chain;
  query_name = name;
  year = year;
  month = month;
}

abbrev pub first_year : ℕ
first_year = 2019

abbrev pub is_some {ℓ} : {A : Type ℓ} → Option A → Bool
is_some none = false
is_some (some a) = true

abbrev pub or_else {ℓ} : {A : Type ℓ} → A → Option A → A
or_else a none = a
or_else a (some b) = b

-- `parse` is that of text/template; an error of a registration is only logged.
unfoldable pub register_default_queries :
    {Template : Type 0}
    → (String → Option Template)
    → String
    → String
    → Dict (NamedQuery Template)
    → Dict (NamedQuery Template)
unfolding register_query
register_default_queries parse total_blocks_query total_addresses_query registry =
    let with_blocks = or_else registry (
      register_query parse "total_blocks_in_month" total_blocks_query
        "Count total blocks indexed in a given month" registry) in
    or_else with_blocks (
      register_query parse "total_addresses_in_month" total_addresses_query
        "Count unique addresses active in a given month" with_blocks)

module _ {Template Results : Type 0} (w : World Template Results) where
  unfoldable pub get_database_info_activity : Option (List ChainInfo)
  get_database_info_activity = if w.database then w.infos else none

  -- An error of the query counts as no result.
  unfoldable pub check_query_result_exists : QueryKey → List (StoredResult Results) → Option Bool
  unfolding read_time_named_query
  check_query_result_exists key rows =
      if w.database
      then if w.reads key then some (is_some (read_time_named_query key rows)) else some false
      else none

  unfoldable pub execute_and_store_activity :
      QueryKey → List (StoredResult Results) → Option (List (StoredResult Results))
  unfolding execute_and_store_named_query
  execute_and_store_activity key rows =
      if w.database
      then execute_and_store_named_query w.render w.run w.registry (w.stores key) (w.now key) key
          rows
      else none

  unfoldable pub execute_current_month_queries :
      List ChainInfo → ℕ → ℕ → List (StoredResult Results) → List (StoredResult Results)
  unfolding for_each execute_and_store_activity
  execute_current_month_queries chains year month =
      for_each
        (λ c rows.
          or_else rows
            (execute_and_store_activity (key_of c "total_blocks_in_month" year month) rows))
        chains

  -- One round of the innermost loop of `executeHistoricalQueries`, at a month before the current one.
  unfoldable pub process_query :
      QueryKey → List (StoredResult Results) → List (StoredResult Results)
  unfolding check_query_result_exists execute_and_store_activity
  process_query key rows = elim (check_query_result_exists key rows) [
    | none ↦ rows
    | some exists ↦ if exists then rows else or_else rows (execute_and_store_activity key rows)
  ]

  unfoldable pub historical_month :
      ℕ → ℕ → ChainInfo → String → ℕ → ℕ → List (StoredResult Results) → List (StoredResult Results)
  unfolding process_query
  historical_month current_year current_month c name year month rows =
      if year == current_year && leb current_month month
      then rows
      else process_query (key_of c name year month) rows

  unfoldable pub execute_historical_queries :
      CronWorkflowConfig
      → List ChainInfo
      → ℕ
      → ℕ
      → List (StoredResult Results)
      → List (StoredResult Results)
  unfolding for_each for_rounds historical_month
  execute_historical_queries config chains current_year current_month =
      for_each
        (λ c.
          for_each
            (λ name. for_range first_year current_year λ year.
              for_range 1 (if year == current_year then current_month else 12)
                λ month. historical_month current_year current_month c name year month)
            config.registered_queries)
        chains

  -- `schedule` is the schedule by which Temporal started the run; `none` is an error.
  unfoldable pub cron_workflow :
      String
      → CronWorkflowConfig
      → ℕ
      → ℕ
      → List (StoredResult Results)
      → Option (List (StoredResult Results))
  unfolding get_database_info_activity execute_current_month_queries execute_historical_queries
  cron_workflow schedule config current_year current_month rows =
      get_database_info_activity >>= λ chains. some (
        if str_eq schedule config.hourly_cron_schedule
        then execute_current_month_queries chains current_year current_month rows
        else execute_historical_queries config chains current_year current_month rows)
