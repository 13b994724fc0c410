-- ===== src/Database/Leak.antt =====
-- dix/database.go: the connections that `Save` takes, and does not give back when a statement fails.
use dotidx.Prelude.{
  ℕ, zero, suc, ◌+◌, ◌≤◌, ◌<◌, ◌==◌, ◌||◌, ◌≡◌, ◌≢◌, refl, ap, true, false, Option, none, List, [],
  ◌∷◌, ◌++◌, String, ltb, length, All, arith,
}
use dotidx.Database.{
  BlockData, SqlDatabase, Outcome, failed, blocked, Driver, batch_statements, save, save_all,
}

abbrev pub replicate : ℕ → Outcome → List Outcome
replicate zero outcome = []
replicate (suc n) outcome = outcome ∷ replicate n outcome

module _ {Raw : Type 0} (created_at : BlockData Raw → String)
    (addresses : Raw → Option (List String)) where
  -- A call of `Save` in which some statement fails.
  pub record HasFailure (call : Driver Raw × List (BlockData Raw)) : Type 0 where
    pub some_items : call.1 ≢ []
    pub begins : call.0.begins ≡ true
    pub fails : batch_statements created_at addresses call.0 call.1 ≡ none

  save-failed :
      (call : Driver Raw × List (BlockData Raw)) (db : SqlDatabase Raw)
      → HasFailure call
      → suc db.in_use ≤ db.max_open_conns
      → save created_at addresses call.0 call.1 db ≡ (failed, record db { in_use = db.in_use + 1 })
  unfolding save
  save-failed (driver, []) db h room = elim (h.some_items refl) [ ]
  save-failed (driver, item ∷ items) db h room =
      let free : (db.max_open_conns == 0 || ltb db.in_use db.max_open_conns) ≡ true =
        ground arith in
      rw (free, save) (rw (h.begins, save) (rw (h.fails, save) refl))

  save-blocked :
      (call : Driver Raw × List (BlockData Raw)) (db : SqlDatabase Raw)
      → call.1 ≢ []
      → 0 < db.max_open_conns
      → db.max_open_conns ≤ db.in_use
      → save created_at addresses call.0 call.1 db ≡ (blocked, db)
  unfolding save
  save-blocked (driver, []) db some_items limited full = elim (some_items refl) [ ]
  save-blocked (driver, item ∷ items) db some_items limited full =
      let taken : (db.max_open_conns == 0 || ltb db.in_use db.max_open_conns) ≡ false =
        ground arith in
      rw (taken, save) refl

  save_all-blocked :
      (calls : List (Driver Raw × List (BlockData Raw))) (db : SqlDatabase Raw)
      → All (λ call. call.1 ≢ []) calls
      → 0 < db.max_open_conns
      → db.max_open_conns ≤ db.in_use
      → (save_all created_at addresses calls db).0 ≡ replicate (length calls) blocked
  unfolding save_all
  save_all-blocked [] db h limited full = refl
  save_all-blocked (call ∷ calls) db (h, hs) limited full =
      rw (save-blocked call db h limited full)
        (ap (◌∷◌ blocked) (save_all-blocked calls db hs limited full))

  -- Where the number of connections is limited, calls of `Save` in each of which some statement fails take one connection each and give none back:
  -- as many as there are free connections end with an error, and every call with items after them waits
  -- for a connection and does not end.
  pub save_all-failures :
      (calls later : List (Driver Raw × List (BlockData Raw))) (db : SqlDatabase Raw)
      → All HasFailure calls
      → All (λ call. call.1 ≢ []) later
      → 0 < db.max_open_conns
      → db.in_use + length calls ≡ db.max_open_conns
      → (save_all created_at addresses (calls ++ later) db).0
        ≡ replicate (length calls) failed ++ replicate (length later) blocked
  unfolding save_all
  save_all-failures [] later db h hl limited e =
      save_all-blocked later db hl limited (omega (arith, e))
  save_all-failures (call ∷ calls) later db (h, hs) hl limited e =
      rw (save-failed call db h (omega (arith, e))) (
        ap (◌∷◌ failed) (
          save_all-failures calls later (record db { in_use = db.in_use + 1 }) hs hl limited
            (omega (arith, e))))
