-- ===== src/Cron/Stored.antt =====
-- cmd/dixmgr/workflow_cron.go: what one query does to the stored results.
use dotidx.Prelude.{
  ℕ, ◌≡◌, sym, ap, ◌∙◌, inl, inr, Bool-cases, Option-cases, true, false, none, some, List, arith,
}
use mathlib.Core.Option.{none-ne-some}
use dotidx.Database.Queries.{
  QueryKey, StoredResult, same_key, same_key-eq, read_time_named_query,
  read_time_named_query-execute_and_store,
}
use dotidx.Cron.{
  World, or_else, check_query_result_exists, execute_and_store_activity, process_query,
}

module _ {Template Results : Type 0} (w : World Template Results) where
  -- What an execution that succeeds does: the time is set for its key, and nothing else changes.
  pub record IsStored (key : QueryKey) (rows rows' : List (StoredResult Results)) : Type 0 where
    pub configured : w.database ≡ true
    pub set : read_time_named_query key rows' ≡ some (w.now key)
    pub others :
        (asked : QueryKey)
        → same_key key asked ≡ false
        → read_time_named_query asked rows' ≡ read_time_named_query asked rows

  pub execute-IsStored :
      (key : QueryKey) (rows rows' : List (StoredResult Results))
      → execute_and_store_activity w key rows ≡ some rows'
      → IsStored key rows rows'
  unfolding execute_and_store_activity
  execute-IsStored key rows rows' e = elim (Bool-cases w.database) [
    | inl on ↦
        let (set, others) =
          read_time_named_query-execute_and_store w.render w.run w.registry (w.stores key)
            (w.now key) key rows rows' (rw on at e) in
        record { configured = on; set = set; others = others }
    | inr off ↦ elim (none-ne-some rows' (rw off at e)) [ ]
  ]

  -- An execution of any key leaves a result that was there, under its time or the new one.
  pub execute-time_other :
      (key asked : QueryKey) (rows : List (StoredResult Results)) (t : ℕ)
      → same_key key asked ≡ false
      → read_time_named_query asked rows ≡ some t
      → read_time_named_query asked (or_else rows (execute_and_store_activity w key rows)) ≡ some t
  execute-time_other key asked rows t apart there =
      elim (Option-cases (execute_and_store_activity w key rows)) [
        | inl e ↦ rw e there
        | inr (rows', e) ↦ rw e ((execute-IsStored key rows rows' e).others asked apart ∙ there)
      ]

  -- Where there is no database nothing changes.
  process_query-off :
      (key : QueryKey) (rows : List (StoredResult Results))
      → w.database ≡ false
      → process_query w key rows ≡ rows
  unfolding process_query check_query_result_exists
  process_query-off key rows off = ground arith

  -- With answers to the queries for times, a query whose result is there changes nothing.
  pub process_query-present :
      (key : QueryKey) (rows : List (StoredResult Results)) (t : ℕ)
      → w.reads key ≡ true
      → read_time_named_query key rows ≡ some t
      → process_query w key rows ≡ rows
  unfolding process_query check_query_result_exists
  process_query-present key rows t reads there = ground arith

  process_query-absent :
      (key : QueryKey) (rows : List (StoredResult Results))
      → w.database ≡ true
      → w.reads key ≡ true
      → read_time_named_query key rows ≡ none
      → process_query w key rows ≡ or_else rows (execute_and_store_activity w key rows)
  unfolding process_query check_query_result_exists
  process_query-absent key rows on reads absent = ground arith

  -- With answers to the queries for times, a result that is there keeps its time.
  pub process_query-time :
      (key asked : QueryKey) (rows : List (StoredResult Results)) (t : ℕ)
      → w.reads key ≡ true
      → read_time_named_query asked rows ≡ some t
      → read_time_named_query asked (process_query w key rows) ≡ some t
  process_query-time key asked rows t reads there =
      elim (Option-cases (read_time_named_query key rows)) [
        | inr (u, present) ↦ rw (process_query-present key rows u reads present) there
        | inl absent ↦ elim (Bool-cases w.database) [
          | inr off ↦ rw (process_query-off key rows off) there
          | inl on ↦ rw (process_query-absent key rows on reads absent) (
              execute-time_other key asked rows t (absent-apart key asked rows t absent there)
                there)
        ]
      ]
    where
      absent-apart :
          (key asked : QueryKey) (rows : List (StoredResult Results)) (t : ℕ)
          → read_time_named_query key rows ≡ none
          → read_time_named_query asked rows ≡ some t
          → same_key key asked ≡ false
      absent-apart key asked rows t absent there = elim (Bool-cases (same_key key asked)) [
        | inr apart ↦ apart
        | inl same ↦
            let e = ap (λ k. read_time_named_query k rows) (same_key-eq key asked same) in
            elim (none-ne-some t (sym absent ∙ e ∙ there)) [ ]
      ]

  -- A key for which an execution succeeds has a result afterwards.
  pub process_query-sets :
      (key : QueryKey) (rows : List (StoredResult Results))
      → w.database ≡ true
      → w.reads key ≡ true
      → (rows' : List (StoredResult Results)) × (execute_and_store_activity w key rows ≡ some rows')
      → (t : ℕ) × (read_time_named_query key (process_query w key rows) ≡ some t)
  process_query-sets key rows on reads (rows', e) =
      elim (Option-cases (read_time_named_query key rows)) [
        | inr (t, present) ↦ (t, rw (process_query-present key rows t reads present) present)
        | inl absent ↦ (
          w.now key,
          rw (process_query-absent key rows on reads absent)
              (rw e ((execute-IsStored key rows rows' e).set)),
        )
      ]
