-- ===== src/Database.antt =====
-- dix/database.go: the blocks that are saved and read back, over a driver that is given by its answers,
-- and a pool of connections. A table is the list of its rows.
pub mod Timestamp
pub mod Tables
pub mod Rows
pub mod Save
pub mod Leak
pub mod Partitions
pub mod Queries
mod Tests
use dotidx.Prelude.{
  ℕ, suc, ◌+◌, ◌≤◌, Bool, true, false, ◌&&◌, Option, none, some, ◌>>=◌, List, [], ◌∷◌, ◌++◌, String,
  str_eq, ltb, leb, ◌==◌, ◌||◌, if◌then◌else◌,
}

-- The fields of `BlockData` that are looked at; `extrinsics` are the raw bytes.
pub record BlockData (Raw : Type 0) : Type 0 where
  pub id : String
  pub hash : String
  pub extrinsics : Raw

-- A row of the table of blocks.
pub record BlockRow (Raw : Type 0) : Type 0 where
  pub created_at : String
  pub block : BlockData Raw

-- The statements of a transaction.
pub data Statement (Raw : Type 0) : Type 0 where
  insert_block : BlockRow Raw → Statement Raw
  insert_address : String → String → Statement Raw

pub record SqlDatabase (Raw : Type 0) : Type 0 where
  -- `SetMaxOpenConns`, where 0 is no limit, and the connections that are taken
  pub max_open_conns : ℕ
  pub in_use : ℕ
  pub blocks : List (BlockRow Raw)
  pub address2blocks : List (String × String)

-- `MaxOpenConns` of the pool: one for SQLite.
pub data Dialect : Type 0 where
  dialect_postgres dialect_sqlite : Dialect

unfoldable pub new_sql_database : {Raw : Type 0} → Dialect → ℕ → SqlDatabase Raw
new_sql_database dialect_postgres pool_max = record {
  max_open_conns = pool_max;
  in_use = 0;
  blocks = [];
  address2blocks = [];
}
new_sql_database dialect_sqlite pool_max = record {
  max_open_conns = 1;
  in_use = 0;
  blocks = [];
  address2blocks = [];
}

abbrev pub has_pair : String → String → List (String × String) → Bool
has_pair address id [] = false
has_pair address id ((a, i) ∷ pairs) =
    if str_eq a address && str_eq i id then true else has_pair address id pairs

module _ {Raw : Type 0} where
  -- `ON CONFLICT (hash, created_at) DO UPDATE`
  unfoldable pub upsert : BlockRow Raw → List (BlockRow Raw) → List (BlockRow Raw)
  upsert row [] = row ∷ []
  upsert row (old ∷ rows) =
      let rest = upsert row rows in
      if str_eq old.block.hash row.block.hash && str_eq old.created_at row.created_at
      then row ∷ rows
      else old ∷ rest

  -- What a statement does to the tables; `ON CONFLICT (address, block_id) DO NOTHING`.
  unfoldable pub apply : Statement Raw → SqlDatabase Raw → SqlDatabase Raw
  unfolding upsert
  apply (insert_block row) db = record db { blocks = upsert row db.blocks }
  apply (insert_address address id) db =
      if has_pair address id db.address2blocks
      then db
      else record db { address2blocks = db.address2blocks ++ (address, id) ∷ [] }

  unfoldable pub apply_all : List (Statement Raw) → SqlDatabase Raw → SqlDatabase Raw
  unfolding apply
  apply_all [] db = db
  apply_all (s ∷ statements) db = apply_all statements (apply s db)

pub data Outcome : Type 0 where
  -- `blocked` is a wait for a connection that nothing ends
  saved failed blocked : Outcome

-- What the driver answers to the statements of one call, and whether a transaction begins and commits.
pub record Driver (Raw : Type 0) : Type 0 where
  pub begins : Bool
  pub accepts : Statement Raw → Bool
  pub commits : Bool

-- `created_at` is the time of an item, and `addresses` what `extractAddressesFromExtrinsics` gives.
module _ {Raw : Type 0} (created_at : BlockData Raw → String)
    (addresses : Raw → Option (List String)) where
  -- The statements of the addresses of an item, up to the first that fails.
  unfoldable pub address_statements :
      Driver Raw → String → List String → Option (List (Statement Raw))
  address_statements driver id [] = some []
  address_statements driver id (a ∷ rest) =
      let later = address_statements driver id rest in
      if driver.accepts (insert_address a id)
      then (later >>= λ done. some (insert_address a id ∷ done))
      else none

  -- Those of one item; an error of the extraction is only logged.
  unfoldable pub item_statements : Driver Raw → BlockData Raw → Option (List (Statement Raw))
  unfolding address_statements
  item_statements driver item =
      let row : BlockRow Raw = record { created_at = created_at item; block = item } in
      if driver.accepts (insert_block row)
      then elim (addresses item.extrinsics) [
        | none ↦ some (insert_block row ∷ [])
        | some found ↦
            address_statements driver item.id found >>= λ done. some (insert_block row ∷ done)
      ]
      else none

  unfoldable pub batch_statements :
      Driver Raw → List (BlockData Raw) → Option (List (Statement Raw))
  unfolding item_statements
  batch_statements driver [] = some []
  batch_statements driver (item ∷ items) =
      let later = batch_statements driver items in
      item_statements driver item >>= λ first. later >>= λ rest. some (first ++ rest)

  -- `Save`. The `err` that the deferred function looks at is not the one of the loop, which is declared
  -- again there: a transaction that fails is not rolled back, and keeps its connection.
  unfoldable pub save :
      Driver Raw → List (BlockData Raw) → SqlDatabase Raw → Outcome × SqlDatabase Raw
  unfolding batch_statements apply_all
  save driver [] db = (saved, db)
  save driver (item ∷ items) db =
      if db.max_open_conns == 0 || ltb db.in_use db.max_open_conns
      then if driver.begins
        then elim (batch_statements driver (item ∷ items)) [
          | none ↦ (failed, record db { in_use = db.in_use + 1 })
          | some statements ↦
              if driver.commits then (saved, apply_all statements db) else (failed, db)
        ]
        else (failed, db)
      else (blocked, db)

  -- Calls of `Save` one after another, with the answers for each.
  unfoldable pub save_all :
      List (Driver Raw × List (BlockData Raw)) → SqlDatabase Raw → List Outcome × SqlDatabase Raw
  unfolding save
  save_all [] db = ([], db)
  save_all ((driver, items) ∷ calls) db =
      let (outcome, db') = save driver items db in
      let (outcomes, db'') = save_all calls db' in (outcome ∷ outcomes, db'')
