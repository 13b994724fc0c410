-- ===== src/Database/Tests.antt =====
-- A database of one connection, and a driver that refuses one block.
use dotidx.Prelude.{
  ℕ, ◌+◌, ◌-◌, ◌*◌, ◌≤◌, ◌≡◌, ◌≢◌, refl, Bool, true, Option, none, some, List, [], ◌∷◌, ◌++◌,
  String, map, str_eq, All, Dict, lookup, arith,
}
use dotidx.Database.{
  BlockData, Statement, insert_block, insert_address, SqlDatabase, dialect_postgres, dialect_sqlite,
  new_sql_database, failed, blocked, Driver, save, save_all, batch_statements, item_statements,
  address_statements,
}
use dotidx.Database.Save.{AllOrNothing, save-AllOrNothing}
use dotidx.Database.Leak.{HasFailure, replicate, save_all-failures}
use dotidx.Database.Partitions.{first_month, first_year, create_table_blocks_partitions}
use dotidx.Database.Partitions.Months.{
  starts_at, count_from, OneMonth, create_table_blocks_partitions_lem,
}
use dotidx.Database.Queries.{
  QueryKey, NamedQuery, StoredResult, execute_named_query, store_monthly_query_result,
  execute_and_store_named_query, store,
}

abbrev at : BlockData String → String
at block = "2024-01-01 00:00:00.0000"

abbrev found : String → Option (List String)
found raw = some (raw ∷ [])

abbrev first : BlockData String
first = record { id = "1"; hash = "0x1"; extrinsics = "alice" }

abbrev second : BlockData String
second = record { id = "2"; hash = "0x2"; extrinsics = "bob" }

abbrev accepts_first : Statement String → Bool
accepts_first (insert_block row) = str_eq row.block.id "1"
accepts_first (insert_address a i) = true

abbrev driver : Driver String
driver = record { begins = true; accepts = accepts_first; commits = true }

abbrev empty : SqlDatabase String
empty = record { max_open_conns = 1; in_use = 0; blocks = []; address2blocks = [] }

sqlite_has_one : new_sql_database dialect_sqlite 25 ≡ empty
unfolding new_sql_database
sqlite_has_one = refl

save-AllOrNothing_example :
    let (outcome, db) = save at found driver (first ∷ []) empty in
    AllOrNothing at found (first ∷ []) empty db outcome
save-AllOrNothing_example = save-AllOrNothing at found driver (first ∷ []) empty

second_fails : HasFailure at found (driver, first ∷ second ∷ [])
unfolding batch_statements item_statements address_statements
second_fails = record { some_items = λ e. ground arith; begins = refl; fails = refl }

not_empty : (first ∷ []) ≢ []
not_empty e = ground arith

save_all-failures_example :
    (save_all at found ((driver, first ∷ second ∷ []) ∷ (driver, first ∷ []) ∷ []) empty).0
    ≡ replicate 1 failed ++ replicate 1 blocked
save_all-failures_example =
    save_all-failures at found ((driver, first ∷ second ∷ []) ∷ []) ((driver, first ∷ []) ∷ [])
      empty (second_fails, tt) (not_empty, tt) (omega arith) refl

four : first_month "polkadot" none ≤ 12
unfolding first_month
four = omega arith

create_table_blocks_partitions_lem_example :
    let partitions = create_table_blocks_partitions dialect_postgres 2025 "polkadot" none in
    let month = first_month "polkadot" none in
    (create_table_blocks_partitions dialect_sqlite 2025 "polkadot" none ≡ [])
    × (map starts_at partitions ≡ count_from (12 * first_year "polkadot" + month) (72 - month))
    × All OneMonth partitions
create_table_blocks_partitions_lem_example =
    create_table_blocks_partitions_lem 2025 "polkadot" none four

abbrev key : QueryKey
key = record {
  relay_chain = "polkadot";
  chain = "assethub";
  query_name = "total";
  year = 2024;
  month = 5;
}

abbrev registry : Dict (NamedQuery String)
registry = ("total", record { name = "total"; sql_template = "SELECT"; description = "" }) ∷ []

abbrev render : String → QueryKey → Option String
render template k = some template

abbrev run : String → Option ℕ
run sql = some 7

abbrev rows : List (StoredResult ℕ)
rows = record { key = key; results = 7; last_updated = 100 } ∷ []

abbrev no_rows : List (StoredResult ℕ)
no_rows = []

stores : execute_and_store_named_query render run registry true 100 key no_rows ≡ some rows
unfolding execute_and_store_named_query execute_named_query store_monthly_query_result store lookup
stores = refl
