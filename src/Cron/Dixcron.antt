-- ===== src/Cron/Dixcron.antt =====
-- cmd/dixcron/dixcron.go: the binary that computes the registered queries. `Context.Background()` is
-- never done.
use dotidx.Prelude.{
  ℕ, ◌&&◌, Option, none, some, List, [], ◌∷◌, map, String, leb, ◌==◌, Dict, if◌then◌else◌,
  for_range, for_rounds, for_each,
}
use dotidx.Database.Queries.{
  QueryKey, NamedQuery, StoredResult, register_query, read_time_named_query,
  execute_and_store_named_query,
}
use dotidx.Cron.{ChainInfo, World, key_of, first_year, or_else}

-- The second error is looked at only in the log, and both registrations are tried.
unfoldable pub add_registered_queries :
    {Template : Type 0}
    → (String → Option Template)
    → String
    → String
    → Dict (NamedQuery Template)
    → Dict (NamedQuery Template)
unfolding register_query
add_registered_queries parse total_blocks_query total_addresses_query registry =
    let with_blocks = or_else registry (
      register_query parse "total_blocks_in_month" total_blocks_query
        "Counts total blocks in a given month and year." registry) in
    or_else with_blocks (
      register_query parse "total_addresses_in_month" total_addresses_query
        "Counts unique addresses active in a given month and year." with_blocks)

-- `GetListOfRegisteredQueries`, of which the names are looked at.
abbrev pub list_of_registered_queries :
    {Template : Type 0} → Dict (NamedQuery Template) → List String
list_of_registered_queries registry = map (λ entry. entry.1.name) registry

module _ {Template Results : Type 0} (w : World Template Results) where
  unfoldable pub store_result : QueryKey → List (StoredResult Results) → List (StoredResult Results)
  unfolding execute_and_store_named_query
  store_result key rows =
      or_else rows (
        execute_and_store_named_query w.render w.run w.registry (w.stores key) (w.now key) key rows)

  -- One round of the innermost loop, at a month before the current one.
  unfoldable pub compute_query :
      QueryKey → List (StoredResult Results) → List (StoredResult Results)
  unfolding read_time_named_query store_result
  compute_query key rows =
      if w.reads key
      then elim (read_time_named_query key rows) [
        | none ↦ store_result key rows
        | some last_updated ↦ rows
      ]
      else rows

  unfoldable pub compute_month :
      ℕ → ℕ → ChainInfo → String → ℕ → ℕ → List (StoredResult Results) → List (StoredResult Results)
  unfolding compute_query
  compute_month current_year current_month c name year month rows =
      if year == current_year && leb current_month month
      then rows
      else compute_query (key_of c name year month) rows

  unfoldable pub compute_registered_query :
      ℕ → ℕ → ChainInfo → List (StoredResult Results) → List (StoredResult Results)
  unfolding for_each for_rounds compute_month
  compute_registered_query current_year current_month c =
      for_each
        (λ name. for_range first_year current_year λ year.
          for_range 1 12 λ month. compute_month current_year current_month c name year month)
        (list_of_registered_queries w.registry)

  unfoldable pub compute_registered_queries :
      ℕ → ℕ → List (StoredResult Results) → List (StoredResult Results)
  unfolding for_each compute_registered_query
  compute_registered_queries current_year current_month rows = elim w.infos [
    | none ↦ rows
    | some infos ↦ for_each (compute_registered_query current_year current_month) infos rows
  ]

-- One tick of the hourly ticker, with the date that it is.
pub record Tick (Template Results : Type 0) : Type 0 where
  pub world : World Template Results
  pub year : ℕ
  pub month : ℕ

module _ {Template Results : Type 0} where
  -- `computeIndexedBlocks`: an error of `GetDatabaseInfo` returns, which ends the program.
  unfoldable pub compute_indexed_blocks :
      List (Tick Template Results) → List (StoredResult Results) → List (StoredResult Results)
  unfolding for_each store_result
  compute_indexed_blocks [] rows = rows
  compute_indexed_blocks (tick ∷ ticks) rows = elim tick.world.infos [
    | none ↦ rows
    | some infos ↦ compute_indexed_blocks ticks (
        for_each
          (λ c. store_result tick.world (key_of c "total_blocks_in_month" tick.year tick.month))
          infos rows)
  ]
