-- ===== src/Cron/Tests.antt =====
-- One chain with the two default queries, in March 2019.
use dotidx.Prelude.{ℕ, ◌≡◌, refl, true, Option, none, some, List, [], ◌∷◌, String, All, inl, arith}
use dotidx.Database.Queries.{QueryKey, StoredResult, read_time_named_query, store}
use dotidx.Cron.{
  ChainInfo, CronWorkflowConfig, World, key_of, register_default_queries,
  execute_and_store_activity, execute_historical_queries, cron_workflow,
}
use dotidx.Cron.Dixcron.{
  list_of_registered_queries, add_registered_queries, compute_registered_queries,
}
use dotidx.Cron.Kept.{Runs, IsComplete}
use dotidx.Cron.Complete.{execute_historical_queries-IsComplete}
use dotidx.Cron.Replaces.{cron_workflow-compute_registered_queries}
use dotidx.Cron.Partial.{CronRun, blocks_key, run_all, hourly_count-IsFinal}

abbrev parse : String → Option String
parse text = some text

registered :
    list_of_registered_queries (register_default_queries parse "a" "b" [])
    ≡ "total_blocks_in_month" ∷ "total_addresses_in_month" ∷ []
unfolding register_default_queries
registered = refl

registered_once :
    add_registered_queries parse "c" "d" (register_default_queries parse "a" "b" [])
    ≡ register_default_queries parse "a" "b" []
unfolding register_default_queries add_registered_queries
registered_once = refl

abbrev hub : ChainInfo
hub = record { relay_chain = "polkadot"; chain = "assethub" }

abbrev config : CronWorkflowConfig
config = record {
  hourly_cron_schedule = "0 * * * *";
  daily_cron_schedule = "0 0 * * *";
  registered_queries = "total_blocks_in_month" ∷ "total_addresses_in_month" ∷ [];
}

abbrev world : ℕ → World String ℕ
world now = record {
  database = true;
  infos = some (hub ∷ []);
  registry =
      (
        "total_blocks_in_month",
        record { name = "total_blocks_in_month"; sql_template = "blocks"; description = "" },
      )
      ∷ (
        "total_addresses_in_month",
        record { name = "total_addresses_in_month"; sql_template = "addresses"; description = "" },
      )
      ∷ [];
  render = λ template key. some template;
  run = λ sql. some 7;
  reads = λ key. true;
  stores = λ key. true;
  now = λ key. now;
}

abbrev no_rows : List (StoredResult ℕ)
no_rows = []

blocks_run : (now : ℕ) → Runs (world now) "total_blocks_in_month"
unfolding execute_and_store_activity
blocks_run now c year month rows = (
  store
      (record {
        key = key_of c "total_blocks_in_month" year month;
        results = 7;
        last_updated = now;
      })
      rows,
  refl,
)

addresses_run : (now : ℕ) → Runs (world now) "total_addresses_in_month"
unfolding execute_and_store_activity
addresses_run now c year month rows = (
  store
      (record {
        key = key_of c "total_addresses_in_month" year month;
        results = 7;
        last_updated = now;
      })
      rows,
  refl,
)

february :
    read_time_named_query
      (blocks_key hub 2019 2)
      (execute_historical_queries (world 5) config (hub ∷ []) 2019 3 no_rows)
    ≡ some 5
unfolding execute_historical_queries read_time_named_query
february = refl

march :
    read_time_named_query
      (blocks_key hub 2019 3)
      (execute_historical_queries (world 5) config (hub ∷ []) 2019 3 no_rows)
    ≡ none
unfolding execute_historical_queries read_time_named_query
march = refl

execute_historical_queries-IsComplete_example :
    let rows' = execute_historical_queries (world 5) config (hub ∷ []) 2019 3 no_rows in
    IsComplete config.registered_queries (hub ∷ []) 2019 3 rows'
    × ((asked : QueryKey) (t : ℕ)
        → read_time_named_query asked no_rows ≡ some t
        → read_time_named_query asked rows' ≡ some t)
execute_historical_queries-IsComplete_example =
    execute_historical_queries-IsComplete (world 5) (λ key. refl) config 2019 3 refl (hub ∷ [])
      no_rows (blocks_run 5, (addresses_run 5, tt))

cron_workflow-compute_registered_queries_example :
    cron_workflow (world 5) "0 0 * * *" config 2019 3 no_rows
    ≡ some (compute_registered_queries (world 5) 2019 3 no_rows)
cron_workflow-compute_registered_queries_example =
    cron_workflow-compute_registered_queries (world 5) refl (λ key. refl) 2019 3 (omega arith)
      "0 0 * * *" config (hub ∷ []) no_rows refl refl refl

abbrev daily_in_april : CronRun String ℕ
daily_in_april = record { world = world 9; schedule = "0 0 * * *"; year = 2019; month = 4 }

hourly_count-IsFinal_example :
    let hourly : CronRun String ℕ = record {
      world = world 5;
      schedule = "0 * * * *";
      year = 2019;
      month = 3;
    } in
    All
      (λ c.
        read_time_named_query
          (blocks_key c 2019 3)
          (run_all config (hourly ∷ daily_in_april ∷ []) no_rows)
        ≡ some 5)
      (hub ∷ [])
hourly_count-IsFinal_example =
    hourly_count-IsFinal config (world 5) (hub ∷ []) 2019 3 no_rows (daily_in_april ∷ []) refl refl
      ((λ s. blocks_run 5 hub 2019 3 s), tt)
      (record { reads = λ key. refl; elsewhere = inl refl }, tt)
