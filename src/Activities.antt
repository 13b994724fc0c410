-- ===== src/Activities.antt =====
-- cmd/dixmgr/activities_batch.go: the activities that fetch blocks from a sidecar and store them. The
-- metrics that are recorded are left out: no activity reads them. Health checks are in the child `Health`.
pub mod Stores
pub mod Health
pub mod Healthy
mod Tests
use dotidx.Prelude.{ℕ, Bool, true, false, Option, none, some, List, [], ◌∷◌, String, if◌then◌else◌}
use dotidx.ChainReader.{Http, sidecar_head, sidecar_block, sidecar_block_range}
use dotidx.Database.{BlockData, SqlDatabase, Driver, Outcome, saved, failed, blocked, save}

-- How an activity ends; `waits` is a wait for a connection that nothing ends.
pub data ActivityEnd : Type 0 where
  completed errs waits panics : ActivityEnd

abbrev pub end_of : Outcome → ActivityEnd
end_of saved = completed
end_of failed = errs
end_of blocked = waits

module _ {Raw : Type 0} (created_at : BlockData Raw → String)
    (addresses : Raw → Option (List String)) (http : Http (BlockData Raw)) where
  unfoldable pub get_chain_head_activity : Option ℕ
  unfolding sidecar_head
  get_chain_head_activity = sidecar_head http

  -- `a.database == nil` where `database` is false.
  unfoldable pub store_fetched :
      Bool
      → Driver Raw
      → Option (List (BlockData Raw))
      → SqlDatabase Raw
      → ActivityEnd × SqlDatabase Raw
  unfolding save
  store_fetched database driver none db = (errs, db)
  store_fetched database driver (some blocks) db =
      let (outcome, db') = save created_at addresses driver blocks db in
      if database then (end_of outcome, db') else (errs, db)

  unfoldable pub process_single_block :
      Bool → Driver Raw → ℕ → SqlDatabase Raw → ActivityEnd × SqlDatabase Raw
  unfolding store_fetched sidecar_block
  process_single_block database driver id db =
      store_fetched database driver
        (elim (sidecar_block http id) [ none ↦ none | some b ↦ some (b ∷ []) ]) db

  -- The log line at the start reads `blockIDs[0]`, before the length is looked at.
  unfoldable pub process_block_batch :
      Bool → Driver Raw → List ℕ → SqlDatabase Raw → ActivityEnd × SqlDatabase Raw
  unfolding store_fetched sidecar_block_range
  process_block_batch database driver [] db = (panics, db)
  process_block_batch database driver (id ∷ ids) db =
      store_fetched database driver (sidecar_block_range http (id ∷ ids)) db
