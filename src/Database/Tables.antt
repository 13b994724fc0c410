-- ===== src/Database/Tables.antt =====
-- dix/database.go: the tables under the statements of a transaction.
use dotidx.Prelude.{
  ◌≡◌, refl, sym, ◌∙◌, Bool, true, false, true≢false, ◌&&◌, inl, inr, Bool-cases, List, [], ◌∷◌,
  ◌++◌, String, str_eq, eq_iff, All, if◌then◌else◌, arith,
}
use dotidx.Database.{
  BlockRow, Statement, insert_block, insert_address, SqlDatabase, upsert, has_pair, apply,
  apply_all,
}

both_self : (s t : String) → (str_eq s s && str_eq t t) ≡ true
both_self s t = ground (arith, eq_iff s s, eq_iff t t)

both_trans :
    (s t u s' t' u' : String)
    → (str_eq s t && str_eq s' t') ≡ true
    → (str_eq s u && str_eq s' u') ≡ true
    → (str_eq t u && str_eq t' u') ≡ true
both_trans s t u s' t' u' e f =
    ground (arith, eq_iff s t, eq_iff s u, eq_iff t u, eq_iff s' t', eq_iff s' u', eq_iff t' u')

has_pair-append :
    (address id a i : String) (pairs : List (String × String))
    → has_pair address id pairs ≡ true
    → has_pair address id (pairs ++ (a, i) ∷ []) ≡ true
has_pair-append address id a i [] e = elim (true≢false (sym e)) [ ]
has_pair-append address id a i ((b, j) ∷ pairs) e =
    let ih = has_pair-append address id a i pairs in ground arith

has_pair-append_self :
    (a i : String) (pairs : List (String × String)) → has_pair a i (pairs ++ (a, i) ∷ []) ≡ true
has_pair-append_self a i [] = ground (arith, eq_iff a a, eq_iff i i)
has_pair-append_self a i ((b, j) ∷ pairs) = let ih = has_pair-append_self a i pairs in ground arith

module _ {Raw : Type 0} where
  abbrev pub has_row : String → String → List (BlockRow Raw) → Bool
  has_row hash created_at [] = false
  has_row hash created_at (row ∷ rows) =
      if str_eq row.block.hash hash && str_eq row.created_at created_at
      then true
      else has_row hash created_at rows

  -- Whether the table has the key of what is inserted.
  abbrev pub present : Statement Raw → SqlDatabase Raw → Bool
  present (insert_block row) db = has_row row.block.hash row.created_at db.blocks
  present (insert_address address id) db = has_pair address id db.address2blocks

  has_row-upsert_self :
      (row : BlockRow Raw) (rows : List (BlockRow Raw))
      → has_row row.block.hash row.created_at (upsert row rows) ≡ true
  unfolding upsert
  has_row-upsert_self row [] = rw (both_self row.block.hash row.created_at) refl
  has_row-upsert_self row (old ∷ rows) =
      elim (Bool-cases
        (str_eq old.block.hash row.block.hash && str_eq old.created_at row.created_at)) [
          | inl same ↦ rw same (rw (both_self row.block.hash row.created_at) refl)
          | inr other ↦ rw other (rw other (has_row-upsert_self row rows))
        ]

  later_row :
      (hash created_at : String) (row : BlockRow Raw) (rows : List (BlockRow Raw))
      → has_row hash created_at rows ≡ true
      → has_row hash created_at (row ∷ rows) ≡ true
  later_row hash created_at row rows e = ground arith

  has_row-upsert :
      (hash created_at : String) (row : BlockRow Raw) (rows : List (BlockRow Raw))
      → has_row hash created_at rows ≡ true
      → has_row hash created_at (upsert row rows) ≡ true
  unfolding upsert
  has_row-upsert hash created_at row (old ∷ rows) e =
      elim (Bool-cases
        (str_eq old.block.hash row.block.hash && str_eq old.created_at row.created_at)) [
          | inl same ↦
              rw same
                (elim (Bool-cases
                  (str_eq old.block.hash hash && str_eq old.created_at created_at)) [
                    | inl m ↦
                        rw
                          (both_trans old.block.hash row.block.hash hash old.created_at
                            row.created_at created_at same m)
                          refl
                    | inr n ↦ later_row hash created_at row rows (rw n at e)
                  ])
          | inr other ↦
              rw other
                (elim (Bool-cases
                  (str_eq old.block.hash hash && str_eq old.created_at created_at)) [
                    | inl m ↦ rw m refl
                    | inr n ↦ rw n (has_row-upsert hash created_at row rows (rw n at e))
                  ])
        ]
  has_row-upsert hash created_at row [] e = elim (true≢false (sym e)) [ ]

  present-apply_self : (s : Statement Raw) (db : SqlDatabase Raw) → present s (apply s db) ≡ true
  unfolding apply
  present-apply_self (insert_block row) db = has_row-upsert_self row db.blocks
  present-apply_self (insert_address a i) db = elim (Bool-cases (has_pair a i db.address2blocks)) [
    | inl e ↦ rw e e
    | inr e ↦ rw e (has_pair-append_self a i db.address2blocks)
  ]

  present-apply :
      (s t : Statement Raw) (db : SqlDatabase Raw)
      → present s db ≡ true
      → present s (apply t db) ≡ true
  unfolding apply
  present-apply (insert_block row) (insert_block other) db e =
      has_row-upsert row.block.hash row.created_at other db.blocks e
  present-apply (insert_block row) (insert_address a i) db e =
      elim (Bool-cases (has_pair a i db.address2blocks)) [ inl f ↦ rw f e | inr f ↦ rw f e ]
  present-apply (insert_address b j) (insert_block row) db e = e
  present-apply (insert_address b j) (insert_address a i) db e =
      elim (Bool-cases (has_pair a i db.address2blocks)) [
        | inl f ↦ rw f e
        | inr f ↦ rw f (has_pair-append b j a i db.address2blocks e)
      ]

  apply-in_use : (t : Statement Raw) (db : SqlDatabase Raw) → (apply t db).in_use ≡ db.in_use
  unfolding apply
  apply-in_use (insert_block row) db = refl
  apply-in_use (insert_address a i) db = elim (Bool-cases (has_pair a i db.address2blocks)) [
    | inl f ↦ rw f refl
    | inr f ↦ rw f refl
  ]

  present-apply_all :
      (s : Statement Raw) (statements : List (Statement Raw)) (db : SqlDatabase Raw)
      → present s db ≡ true
      → present s (apply_all statements db) ≡ true
  unfolding apply_all
  present-apply_all s [] db e = e
  present-apply_all s (t ∷ statements) db e =
      present-apply_all s statements (apply t db) (present-apply s t db e)

  pub apply_all-present :
      (statements : List (Statement Raw)) (db : SqlDatabase Raw)
      → All (λ s. present s (apply_all statements db) ≡ true) statements
  unfolding apply_all
  apply_all-present [] db = tt
  apply_all-present (t ∷ statements) db = (
    present-apply_all t statements (apply t db) (present-apply_self t db),
    apply_all-present statements (apply t db),
  )

  pub apply_all-in_use :
      (statements : List (Statement Raw)) (db : SqlDatabase Raw)
      → (apply_all statements db).in_use ≡ db.in_use
  unfolding apply_all
  apply_all-in_use [] db = refl
  apply_all-in_use (t ∷ statements) db =
      apply_all-in_use statements (apply t db) ∙ apply-in_use t db
