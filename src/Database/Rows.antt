-- ===== src/Database/Rows.antt =====
-- dix/database.go: what the statements of a transaction write into the table of blocks.
use dotidx.Prelude.{
  ◌≡◌, refl, sym, ap, ◌∙◌, true, false, ◌&&◌, inl, inr, Bool-cases, Option, none, some, List, [],
  ◌∷◌, ◌++◌, String, str_eq, eq_iff, if◌then◌else◌, arith,
}
use dotidx.Database.{
  BlockRow, Statement, insert_block, insert_address, SqlDatabase, upsert, has_pair, apply,
  apply_all,
}

abbrev pub or_else {ℓ} : {A : Type ℓ} → Option A → Option A → Option A
or_else none other = other
or_else (some x) other = some x

or_else_assoc {ℓ} :
    {A : Type ℓ} (a b c : Option A) → or_else a (or_else b c) ≡ or_else (or_else a b) c
or_else_assoc none b c = refl
or_else_assoc (some x) b c = refl

or_else-none {ℓ} : {A : Type ℓ} (a : Option A) → a ≡ or_else a none
or_else-none none = refl
or_else-none (some x) = refl

both_same :
    (s t u s' t' u' : String)
    → (str_eq s t && str_eq s' t') ≡ true
    → (str_eq s u && str_eq s' u') ≡ (str_eq t u && str_eq t' u')
both_same s t u s' t' u' e =
    let first : s ≡ t = ground (arith, eq_iff s t) in
    let second : s' ≡ t' = ground (arith, eq_iff s' t') in
    ap (λ x. str_eq x u && str_eq s' u') first ∙ ap (λ x. str_eq t u && str_eq x u') second

both_apart :
    (s t u s' t' u' : String)
    → (str_eq s t && str_eq s' t') ≡ false
    → (str_eq s u && str_eq s' u') ≡ true
    → (str_eq t u && str_eq t' u') ≡ false
both_apart s t u s' t' u' e f =
    ground (arith, eq_iff s t, eq_iff s u, eq_iff t u, eq_iff s' t', eq_iff s' u', eq_iff t' u')

module _ {Raw : Type 0} where
  -- The row under a hash and a time.
  abbrev pub find_row : String → String → List (BlockRow Raw) → Option (BlockRow Raw)
  find_row hash time [] = none
  find_row hash time (row ∷ rows) =
      if str_eq row.block.hash hash && str_eq row.created_at time
      then some row
      else find_row hash time rows

  abbrev row_of : String → String → Statement Raw → Option (BlockRow Raw)
  row_of hash time (insert_block row) =
      if str_eq row.block.hash hash && str_eq row.created_at time then some row else none
  row_of hash time (insert_address address id) = none

  -- The row that the last statement with a hash and a time writes.
  abbrev pub latest : String → String → List (Statement Raw) → Option (BlockRow Raw)
  latest hash time [] = none
  latest hash time (s ∷ statements) = or_else (latest hash time statements) (row_of hash time s)

  pub latest-append :
      (hash time : String) (front back : List (Statement Raw))
      → latest hash time (front ++ back) ≡ or_else (latest hash time back) (latest hash time front)
  latest-append hash time [] back = or_else-none (latest hash time back)
  latest-append hash time (s ∷ front) back =
      ap (λ r. or_else r (row_of hash time s)) (latest-append hash time front back)
      ∙ sym (or_else_assoc (latest hash time back) (latest hash time front) (row_of hash time s))

  find_row-upsert :
      (hash time : String) (row : BlockRow Raw) (rows : List (BlockRow Raw))
      → find_row hash time (upsert row rows)
        ≡ or_else (row_of hash time (insert_block row)) (find_row hash time rows)
  unfolding upsert
  find_row-upsert hash time row [] =
      elim (Bool-cases (str_eq row.block.hash hash && str_eq row.created_at time)) [
        | inl e ↦ rw e refl
        | inr e ↦ rw e refl
      ]
  find_row-upsert hash time row (old ∷ rows) =
      elim (Bool-cases
        (str_eq old.block.hash row.block.hash && str_eq old.created_at row.created_at)) [
          | inl same ↦
              let found =
                both_same old.block.hash row.block.hash hash old.created_at row.created_at time
                  same in
              rw same
                (elim (Bool-cases (str_eq row.block.hash hash && str_eq row.created_at time)) [
                  | inl e ↦ rw e refl
                  | inr e ↦ rw (e, found ∙ e) refl
                ])
          | inr other ↦
              rw other
                (elim (Bool-cases (str_eq old.block.hash hash && str_eq old.created_at time)) [
                  | inl e ↦
                      let no_row =
                        both_apart old.block.hash row.block.hash hash old.created_at row.created_at
                          time other e in
                      rw (e, no_row) refl
                  | inr e ↦ rw e (find_row-upsert hash time row rows)
                ])
        ]

  find_row-apply :
      (hash time : String) (s : Statement Raw) (db : SqlDatabase Raw)
      → find_row hash time (apply s db).blocks
        ≡ or_else (row_of hash time s) (find_row hash time db.blocks)
  unfolding apply
  find_row-apply hash time (insert_block row) db = find_row-upsert hash time row db.blocks
  find_row-apply hash time (insert_address a i) db =
      elim (Bool-cases (has_pair a i db.address2blocks)) [ inl e ↦ rw e refl | inr e ↦ rw e refl ]

  pub find_row-apply_all :
      (hash time : String) (statements : List (Statement Raw)) (db : SqlDatabase Raw)
      → find_row hash time (apply_all statements db).blocks
        ≡ or_else (latest hash time statements) (find_row hash time db.blocks)
  unfolding apply_all
  find_row-apply_all hash time [] db = refl
  find_row-apply_all hash time (s ∷ statements) db =
      find_row-apply_all hash time statements (apply s db)
      ∙ ap (or_else (latest hash time statements)) (find_row-apply hash time s db)
      ∙ or_else_assoc (latest hash time statements) (row_of hash time s)
          (find_row hash time db.blocks)
