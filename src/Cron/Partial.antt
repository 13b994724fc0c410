-- ===== src/Cron/Partial.antt =====
-- cmd/dixmgr/workflow_cron.go: what becomes of the counts of the hourly runs.
use dotidx.Prelude.{
  ℕ, ◌≡◌, sym, ◌∙◌, subst, ◌⊎◌, inl, inr, Bool-cases, Option-cases, true, false, true≢false, ◌&&◌,
  some, List, [], ◌∷◌, String, str_eq, eq_iff, ◌==◌, All, All-map, for_each-keeps, for_each-sets,
  arith,
}
use dotidx.Database.Queries.{QueryKey, StoredResult, same_key, same_key-eq, read_time_named_query}
use dotidx.Cron.{
  ChainInfo, CronWorkflowConfig, World, key_of, or_else, execute_and_store_activity,
  execute_current_month_queries, execute_historical_queries, get_database_info_activity,
  cron_workflow,
}
use dotidx.Cron.Stored.{execute-IsStored, execute-time_other}
use dotidx.Cron.Kept.{execute_historical_queries-time}

-- A run of the workflow, with what starts it.
pub record CronRun (Template Results : Type 0) : Type 0 where
  pub world : World Template Results
  pub schedule : String
  pub year : ℕ
  pub month : ℕ

abbrev pub blocks_key : ChainInfo → ℕ → ℕ → QueryKey
blocks_key c = key_of c "total_blocks_in_month"

-- The time of the count of a month.
abbrev CountedAt : {Results : Type 0} → ChainInfo → ℕ → ℕ → ℕ → List (StoredResult Results) → Type 0
CountedAt c year month t rows = read_time_named_query (blocks_key c year month) rows ≡ some t

module _ {Template Results : Type 0} (config : CronWorkflowConfig) where
  -- A run that fails leaves the results as they are.
  abbrev pub run_one :
      CronRun Template Results → List (StoredResult Results) → List (StoredResult Results)
  run_one r rows = or_else rows (cron_workflow r.world r.schedule config r.year r.month rows)

  unfoldable pub run_all :
      List (CronRun Template Results) → List (StoredResult Results) → List (StoredResult Results)
  run_all [] rows = rows
  run_all (r ∷ runs) rows = run_all runs (run_one r rows)

  -- A daily run, or an hourly one in another month, with answers to the queries for times.
  pub record IsLater (year month : ℕ) (r : CronRun Template Results) : Type 0 where
    pub reads : (key : QueryKey) → r.world.reads key ≡ true
    pub elsewhere :
        (str_eq r.schedule config.hourly_cron_schedule ≡ false)
        ⊎ ((r.year == year && r.month == month) ≡ false)

  module _ (c : ChainInfo) (year month : ℕ) (t : ℕ) where
    -- The counts of another month do not touch this one.
    other_month-Keeps :
        (w : World Template Results) (y m : ℕ)
        → (y == year && m == month) ≡ false
        → (chains : List ChainInfo) (rows : List (StoredResult Results))
        → CountedAt c year month t rows
        → CountedAt c year month t (execute_current_month_queries w chains y m rows)
    unfolding execute_current_month_queries
    other_month-Keeps w y m other chains =
        for_each-keeps (CountedAt c year month t) _
          (λ b s h.
            execute-time_other w (blocks_key b y m) (blocks_key c year month) s t
              (apart b y m other) h)
          chains
      where
        apart :
            (b : ChainInfo) (y m : ℕ)
            → (y == year && m == month) ≡ false
            → same_key (blocks_key b y m) (blocks_key c year month) ≡ false
        apart b y m other = ground arith

    run_one-Keeps :
        (r : CronRun Template Results)
        → IsLater year month r
        → (rows : List (StoredResult Results)) → CountedAt c year month t rows
        → CountedAt c year month t (run_one r rows)
    unfolding cron_workflow
    run_one-Keeps r later rows h = elim (Option-cases (get_database_info_activity r.world)) [
      | inl failed ↦ rw failed h
      | inr (chains, found) ↦
          let daily : CountedAt c year month t
              (execute_historical_queries r.world config chains r.year r.month rows) =
            execute_historical_queries-time r.world later.reads config r.year r.month
              (blocks_key c year month) t chains rows h in
          rw found (elim (Bool-cases (str_eq r.schedule config.hourly_cron_schedule)) [
            | inr e ↦ rw e daily
            | inl e ↦ rw e (elim later.elsewhere [
              | inl e' ↦ elim (true≢false (sym e ∙ e')) [ ]
              | inr other ↦ other_month-Keeps r.world r.year r.month other chains rows h
            ])
          ])
    ]

    run_all-Keeps :
        (runs : List (CronRun Template Results))
        → All (IsLater year month) runs
        → (rows : List (StoredResult Results)) → CountedAt c year month t rows
        → CountedAt c year month t (run_all runs rows)
    unfolding run_all
    run_all-Keeps [] later rows h = h
    run_all-Keeps (r ∷ runs) (first, later) rows h =
        run_all-Keeps runs later (run_one r rows) (run_one-Keeps r first rows h)

  hourly_run :
      (w : World Template Results) (chains : List ChainInfo) (year month : ℕ)
      (rows : List (StoredResult Results))
      → w.database ≡ true
      → w.infos ≡ some chains
      → or_else rows (cron_workflow w config.hourly_cron_schedule config year month rows)
        ≡ execute_current_month_queries w chains year month rows
  unfolding cron_workflow get_database_info_activity
  hourly_run w chains year month rows on found =
      let hourly = eq_iff config.hourly_cron_schedule config.hourly_cron_schedule in
      ground (arith, hourly)

  -- The hourly run counts the blocks of the current month for each chain whose query succeeds.
  hourly-counts :
      (w : World Template Results) (chains : List ChainInfo) (year month : ℕ)
      → All
          (λ c.
            (s : List (StoredResult Results))
            → (rows' : List (StoredResult Results)) × (execute_and_store_activity w
                  (blocks_key c year month)
                  s
                ≡ some rows'))
          chains
      → (rows : List (StoredResult Results))
      → All
          (λ c.
            CountedAt c year month
              (w.now (blocks_key c year month))
              (execute_current_month_queries w chains year month rows))
          chains
  unfolding execute_current_month_queries
  hourly-counts w chains year month succeeds =
      for_each-sets (λ c. CountedAt c year month (w.now (blocks_key c year month))) _
        (λ c b s h. again c b s h) chains (All-map (λ c runs s. first c runs s) chains succeeds)
    where
      again :
          (c b : ChainInfo) (s : List (StoredResult Results))
          → CountedAt c year month (w.now (blocks_key c year month)) s
          → CountedAt c year month
              (w.now (blocks_key c year month))
              (or_else s (execute_and_store_activity w (blocks_key b year month) s))
      again c b s h =
          elim (Option-cases (execute_and_store_activity w (blocks_key b year month) s)) [
            | inl e ↦ rw e h
            | inr (rows', e) ↦
                let stored = execute-IsStored w (blocks_key b year month) s rows' e in
                rw e
                  (elim (Bool-cases
                    (same_key (blocks_key b year month) (blocks_key c year month))) [
                      | inr apart ↦ stored.others (blocks_key c year month) apart ∙ h
                      | inl same ↦
                          subst (λ k. read_time_named_query k rows' ≡ some (w.now k))
                            (same_key-eq (blocks_key b year month) (blocks_key c year month) same)
                            stored.set
                    ])
          ]

      first :
          (c : ChainInfo)
          → ((s : List (StoredResult Results))
              → (rows' : List (StoredResult Results)) × (execute_and_store_activity w
                    (blocks_key c year month)
                    s
                  ≡ some rows'))
          → (s : List (StoredResult Results))
          → CountedAt c year month
              (w.now (blocks_key c year month))
              (or_else s (execute_and_store_activity w (blocks_key c year month) s))
      first c runs s =
          let (rows', e) = runs s in
          rw e ((execute-IsStored w (blocks_key c year month) s rows' e).set)

  -- The count of a month's blocks that an hourly run stores during that month is final: where every later
  -- run is a daily one, or an hourly one of another month, and the queries for times are answered, the
  -- result of each chain keeps the time of that hourly run, and so leaves out the blocks after it.
  pub hourly_count-IsFinal :
      (w : World Template Results) (chains : List ChainInfo) (year month : ℕ)
      (rows : List (StoredResult Results)) (later : List (CronRun Template Results))
      → w.database ≡ true
      → w.infos ≡ some chains
      → All
          (λ c.
            (s : List (StoredResult Results))
            → (rows' : List (StoredResult Results)) × (execute_and_store_activity w
                  (blocks_key c year month)
                  s
                ≡ some rows'))
          chains
      → All (IsLater year month) later
      → let hourly : CronRun Template Results = record {
        world = w;
        schedule = config.hourly_cron_schedule;
        year = year;
        month = month;
      } in
        All
          (λ c.
            read_time_named_query (blocks_key c year month) (run_all (hourly ∷ later) rows)
            ≡ some (w.now (blocks_key c year month)))
          chains
  unfolding run_all
  hourly_count-IsFinal w chains year month rows later on found succeeds of_later =
      All-map
        (λ c counted.
          run_all-Keeps c year month (w.now (blocks_key c year month)) later of_later _ (
            subst (CountedAt c year month (w.now (blocks_key c year month)))
              (sym (hourly_run w chains year month rows on found)) counted))
        chains (hourly-counts w chains year month succeeds rows)
