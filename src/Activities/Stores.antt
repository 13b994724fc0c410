-- ===== src/Activities/Stores.antt =====
-- cmd/dixmgr/activities_batch.go: what the activities leave in the database.
use dotidx.Prelude.{◌≡◌, refl, Bool, true, false, ℕ, Option, none, some, List, [], ◌∷◌, String}
use dotidx.ChainReader.{Http, sidecar_block_range}
use dotidx.Database.{BlockData, SqlDatabase, Driver, Outcome, saved}
use dotidx.Database.Save.{
  AllOrNothing, all_saved, failed_unchanged, blocked_unchanged, save-AllOrNothing,
}
use dotidx.Activities.{
  ActivityEnd, completed, errs, waits, panics, end_of, store_fetched, process_block_batch,
}

module _ {Raw : Type 0} (created_at : BlockData Raw → String)
    (addresses : Raw → Option (List String)) (http : Http (BlockData Raw)) where
  -- What a batch leaves, for each way in which it ends.
  pub data Leaves (ids : List ℕ) (db db' : SqlDatabase Raw) : ActivityEnd → Type 0 where
    stores_all :
        (blocks : List (BlockData Raw))
        → sidecar_block_range http ids ≡ some blocks
        → AllOrNothing created_at addresses blocks db db' saved
        → Leaves ids db db' completed
    errs_unchanged :
        db'.blocks ≡ db.blocks → db'.address2blocks ≡ db.address2blocks → Leaves ids db db' errs
    waits_unchanged : db' ≡ db → Leaves ids db db' waits
    panics_empty : ids ≡ [] → db' ≡ db → Leaves ids db db' panics

  outcome-Leaves :
      (ids : List ℕ) (blocks : List (BlockData Raw)) (db db' : SqlDatabase Raw) (outcome : Outcome)
      → sidecar_block_range http ids ≡ some blocks
      → AllOrNothing created_at addresses blocks db db' outcome
      → Leaves ids db db' (end_of outcome)
  outcome-Leaves ids blocks db db' _ e (all_saved rows all given_back) =
      stores_all blocks e (all_saved rows all given_back)
  outcome-Leaves ids blocks db db' _ e (failed_unchanged b a) = errs_unchanged b a
  outcome-Leaves ids blocks db db' _ e (blocked_unchanged same) = waits_unchanged same

  abbrev LeavesPair : List ℕ → SqlDatabase Raw → ActivityEnd × SqlDatabase Raw → Type 0
  LeavesPair ids db end = Leaves ids db end.1 end.0

  fetched-Leaves :
      (database : Bool) (driver : Driver Raw) (ids : List ℕ) (db : SqlDatabase Raw)
      (fetched : Option (List (BlockData Raw)))
      → sidecar_block_range http ids ≡ fetched
      → LeavesPair ids db (store_fetched created_at addresses http database driver fetched db)
  unfolding store_fetched
  fetched-Leaves database driver ids db none e = errs_unchanged refl refl
  fetched-Leaves true driver ids db (some blocks) e =
      outcome-Leaves ids blocks db _ _ e (save-AllOrNothing created_at addresses driver blocks db)
  fetched-Leaves false driver ids db (some blocks) e = errs_unchanged refl refl

  -- A batch activity that completes has written the blocks that the sidecar gave for the batch: the table
  -- of blocks holds under each hash and time the last of them that has these, and what it held before
  -- where none has, and every one of them is under each of its addresses. One that ends with an error
  -- or waits has left the tables as they were; and it panics for the empty batch only.
  pub process_block_batch-Leaves :
      (database : Bool) (driver : Driver Raw) (ids : List ℕ) (db : SqlDatabase Raw)
      → let (end, db') = process_block_batch created_at addresses http database driver ids db in
        Leaves ids db db' end
  unfolding process_block_batch
  process_block_batch-Leaves database driver [] db = panics_empty refl refl
  process_block_batch-Leaves database driver (id ∷ ids) db =
      fetched-Leaves database driver (id ∷ ids) db (sidecar_block_range http (id ∷ ids)) refl
