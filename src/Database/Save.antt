-- ===== src/Database/Save.antt =====
-- dix/database.go: what is in the tables after `Save`.
use dotidx.Prelude.{
  ◌≡◌, refl, sym, ap, ap₂, none, str_eq, ◌&&◌, ◌==◌, ◌||◌, ◌∙◌, Bool, true, false, inl, inr,
  Bool-cases, Option-cases, Option, some, bind-some, List, [], ◌∷◌, ◌++◌, String, subst, ltb, All,
  if◌then◌else◌,
}
use mathlib.Core.Option.{some-injective, none-ne-some}
use dotidx.Database.{
  BlockData, BlockRow, Statement, insert_block, insert_address, SqlDatabase, has_pair, apply_all,
  Outcome, saved, failed, blocked, Driver, address_statements, item_statements, batch_statements,
  save,
}
use dotidx.Database.Rows.{or_else, find_row, latest, latest-append, find_row-apply_all}
use dotidx.Database.Tables.{has_row, present, apply_all-present, apply_all-in_use}

All-split {ℓ κ} :
    {A : Type ℓ} (P : A → Type κ) (front back : List A)
    → All P (front ++ back)
    → All P front × All P back
All-split P [] back all = (tt, all)
All-split P (x ∷ front) back (p, all) = let (f, b) = All-split P front back all in ((p, f), b)

if-both {ℓ κ} :
    {A : Type ℓ} (P : A → Type κ) (b : Bool) (x y : A) → P x → P y → P (if b then x else y)
if-both P true x y px py = px
if-both P false x y px py = py

module _ {Raw : Type 0} (created_at : BlockData Raw → String)
    (addresses : Raw → Option (List String)) where
  -- The block is in its table under its hash and time, and under each of its addresses in the other.
  pub record IsSaved (db : SqlDatabase Raw) (item : BlockData Raw) : Type 0 where
    pub has_block : has_row item.hash (created_at item) db.blocks ≡ true
    pub has_addresses :
        (found : List String)
        → addresses item.extrinsics ≡ some found
        → All (λ a. has_pair a item.id db.address2blocks ≡ true) found

  address_statements-All :
      (driver : Driver Raw) (db : SqlDatabase Raw) (id : String) (found : List String)
      (statements : List (Statement Raw))
      → address_statements created_at addresses driver id found ≡ some statements
      → All (λ s. present s db ≡ true) statements
      → All (λ a. has_pair a id db.address2blocks ≡ true) found
  unfolding address_statements
  address_statements-All driver db id [] statements e all = tt
  address_statements-All driver db id (a ∷ found) statements e all =
      elim (Bool-cases (driver.accepts (insert_address a id))) [
        | inl ok ↦
            let (done, later, same) =
              bind-some (address_statements created_at addresses driver id found) _ statements
                (rw ok at e) in
            let all' =
              subst (All (λ s. present s db ≡ true)) (sym (some-injective _ statements same)) all in
            (all'.0, address_statements-All driver db id found done later all'.1)
        | inr bad ↦ elim (none-ne-some statements (rw bad at e)) [ ]
      ]

  item_statements-IsSaved :
      (driver : Driver Raw) (db : SqlDatabase Raw) (item : BlockData Raw)
      (statements : List (Statement Raw))
      → item_statements created_at addresses driver item ≡ some statements
      → All (λ s. present s db ≡ true) statements
      → IsSaved db item
  unfolding item_statements
  item_statements-IsSaved driver db item statements e all =
      let row : BlockRow Raw = record { created_at = created_at item; block = item } in
      elim (Bool-cases (driver.accepts (insert_block row))) [
        | inr bad ↦ elim (none-ne-some statements (rw bad at e)) [ ]
        | inl ok ↦ elim (Option-cases (addresses item.extrinsics)) [
          | inl no_addresses ↦
              let same = some-injective _ statements (rw no_addresses at (rw ok at e)) in
              record {
                has_block = (subst (All (λ s. present s db ≡ true)) (sym same) all).0;
                has_addresses = λ found f. elim (none-ne-some found (sym no_addresses ∙ f)) [ ];
              }
          | inr (there, some_addresses) ↦
              let (done, later, same) =
                bind-some (address_statements created_at addresses driver item.id there) _
                  statements (rw some_addresses at (rw ok at e)) in
              let all' =
                subst (All (λ s. present s db ≡ true)) (sym (some-injective _ statements same))
                  all in
              record {
                has_block = all'.0;
                has_addresses = λ found f.
                    subst (All (λ a. has_pair a item.id db.address2blocks ≡ true))
                      (some-injective there found (sym some_addresses ∙ f))
                      (address_statements-All driver db item.id there done later all'.1);
              }
        ]
      ]

  batch_statements-IsSaved :
      (driver : Driver Raw) (db : SqlDatabase Raw) (items : List (BlockData Raw))
      (statements : List (Statement Raw))
      → batch_statements created_at addresses driver items ≡ some statements
      → All (λ s. present s db ≡ true) statements
      → All (IsSaved db) items
  unfolding batch_statements
  batch_statements-IsSaved driver db [] statements e all = tt
  batch_statements-IsSaved driver db (item ∷ items) statements e all =
      let (first, at_first, more) =
        bind-some (item_statements created_at addresses driver item) _ statements e in
      let (rest, at_rest, same) =
        bind-some (batch_statements created_at addresses driver items) _ statements more in
      let (f, b) =
        All-split (λ s. present s db ≡ true) first rest
          (subst (All (λ s. present s db ≡ true)) (sym (some-injective _ statements same)) all) in
      (
        item_statements-IsSaved driver db item first at_first f,
        batch_statements-IsSaved driver db items rest at_rest b,
      )

  -- The row of the last item that has a hash and a time.
  abbrev pub latest_item : String → String → List (BlockData Raw) → Option (BlockRow Raw)
  latest_item hash time [] = none
  latest_item hash time (item ∷ items) = or_else (latest_item hash time items) (
      if str_eq item.hash hash && str_eq (created_at item) time
      then some (record { created_at = created_at item; block = item })
      else none)

  -- The rows of the items are in the table of blocks, and the other rows are what they were.
  abbrev pub HasWritten : List (BlockData Raw) → SqlDatabase Raw → SqlDatabase Raw → Type 0
  HasWritten items db db' =
      (hash time : String)
      → find_row hash time db'.blocks
        ≡ or_else (latest_item hash time items) (find_row hash time db.blocks)

  address_statements-latest :
      (driver : Driver Raw) (hash time id : String) (found : List String)
      (statements : List (Statement Raw))
      → address_statements created_at addresses driver id found ≡ some statements
      → latest hash time statements ≡ none
  unfolding address_statements
  address_statements-latest driver hash time id [] statements e =
      ap (latest hash time) (sym (some-injective _ statements e))
  address_statements-latest driver hash time id (a ∷ found) statements e =
      elim (Bool-cases (driver.accepts (insert_address a id))) [
        | inl ok ↦
            let (done, later, same) =
              bind-some (address_statements created_at addresses driver id found) _ statements
                (rw ok at e) in
            ap (latest hash time) (sym (some-injective _ statements same))
            ∙ ap (λ r. or_else r none)
                (address_statements-latest driver hash time id found done later)
        | inr bad ↦ elim (none-ne-some statements (rw bad at e)) [ ]
      ]

  item_statements-latest :
      (driver : Driver Raw) (hash time : String) (item : BlockData Raw)
      (statements : List (Statement Raw))
      → item_statements created_at addresses driver item ≡ some statements
      → latest hash time statements ≡ latest_item hash time (item ∷ [])
  unfolding item_statements
  item_statements-latest driver hash time item statements e =
      let row : BlockRow Raw = record { created_at = created_at item; block = item } in
      elim (Bool-cases (driver.accepts (insert_block row))) [
        | inr bad ↦ elim (none-ne-some statements (rw bad at e)) [ ]
        | inl ok ↦ elim (Option-cases (addresses item.extrinsics)) [
          | inl no_addresses ↦
              ap (latest hash time)
                (sym (some-injective _ statements (rw no_addresses at (rw ok at e))))
          | inr (there, some_addresses) ↦
              let (done, later, same) =
                bind-some (address_statements created_at addresses driver item.id there) _
                  statements (rw some_addresses at (rw ok at e)) in
              ap (latest hash time) (sym (some-injective _ statements same))
              ∙ ap (λ r. or_else r (latest hash time (insert_block row ∷ [])))
                  (address_statements-latest driver hash time item.id there done later)
        ]
      ]

  batch_statements-latest :
      (driver : Driver Raw) (hash time : String) (items : List (BlockData Raw))
      (statements : List (Statement Raw))
      → batch_statements created_at addresses driver items ≡ some statements
      → latest hash time statements ≡ latest_item hash time items
  unfolding batch_statements
  batch_statements-latest driver hash time [] statements e =
      ap (latest hash time) (sym (some-injective _ statements e))
  batch_statements-latest driver hash time (item ∷ items) statements e =
      let (first, at_first, more) =
        bind-some (item_statements created_at addresses driver item) _ statements e in
      let (rest, at_rest, same) =
        bind-some (batch_statements created_at addresses driver items) _ statements more in
      ap (latest hash time) (sym (some-injective _ statements same))
      ∙ latest-append hash time first rest
      ∙ ap₂ or_else (batch_statements-latest driver hash time items rest at_rest)
          (item_statements-latest driver hash time item first at_first)

  batch_statements-HasWritten :
      (driver : Driver Raw) (items : List (BlockData Raw)) (statements : List (Statement Raw))
      (db : SqlDatabase Raw)
      → batch_statements created_at addresses driver items ≡ some statements
      → HasWritten items db (apply_all statements db)
  batch_statements-HasWritten driver items statements db e hash time =
      find_row-apply_all hash time statements db
      ∙ ap (λ r. or_else r (find_row hash time db.blocks))
          (batch_statements-latest driver hash time items statements e)

  -- What a call of `Save` leaves.
  pub data AllOrNothing (items : List (BlockData Raw)) (db db' : SqlDatabase Raw)
      : Outcome → Type 0 where
    all_saved :
        HasWritten items db db'
        → All (IsSaved db') items
        → db'.in_use ≡ db.in_use
        → AllOrNothing items db db' saved
    failed_unchanged :
        db'.blocks ≡ db.blocks
        → db'.address2blocks ≡ db.address2blocks
        → AllOrNothing items db db' failed
    blocked_unchanged : db' ≡ db → AllOrNothing items db db' blocked

  abbrev AllOrNothingPair :
      List (BlockData Raw) → SqlDatabase Raw → Outcome × SqlDatabase Raw → Type 0
  AllOrNothingPair items db result = AllOrNothing items db result.1 result.0

  -- Either `Save` reports success, and then the table of blocks holds under each hash and time the last
  -- block of the batch that has them, and what it held before where none has; every block of the
  -- batch is under each of its addresses; and the connection is given back. Or the tables are as they
  -- were.
  pub save-AllOrNothing :
      (driver : Driver Raw) (items : List (BlockData Raw)) (db : SqlDatabase Raw)
      → let (outcome, db') = save created_at addresses driver items db in
        AllOrNothing items db db' outcome
  unfolding save
  save-AllOrNothing driver [] db = all_saved (λ hash time. refl) tt refl
  save-AllOrNothing driver (item ∷ items) db =
      let batch = item ∷ items in
      let P = AllOrNothingPair batch db in
      if-both P (db.max_open_conns == 0 || ltb db.in_use db.max_open_conns) _ _
        (if-both P driver.begins _ _
          (elim (Option-cases (batch_statements created_at addresses driver batch)) [
            | inl e ↦ rw e (failed_unchanged refl refl)
            | inr (statements, e) ↦ rw e (
                if-both P driver.commits _ _
                  (all_saved (batch_statements-HasWritten driver batch statements db e)
                    (batch_statements-IsSaved driver (apply_all statements db) batch statements e
                      (apply_all-present statements db))
                    (apply_all-in_use statements db))
                  (failed_unchanged refl refl))
          ])
          (failed_unchanged refl refl))
        (blocked_unchanged refl)
