-- ===== src/Ingest/Scan.antt =====
-- cmd/dixbatch/dixbatch.go: the batches of one range of blocks.
use mathlib.Core.List.{append_assoc}
use dotidx.Prelude.{
  ℕ, zero, suc, ◌+◌, ◌-◌, ◌≤◌, ◌<◌, max, ◌≡◌, refl, ap, subst, ◌∙◌, inl, inr, Bool, true, false,
  List, [], ◌∷◌, ◌++◌, Option, none, some, lt→ltb, leb, ==_iff, length, length-append, All, arith,
  Bool-cases,
}
use dotidx.Batch.{missing_blocks}
use dotidx.Batch.Grouping.{flatten, RunFrom, RunFrom-append, IsBatch}
use dotidx.Ingest.{is_continuous, scan, scan_range, known_or_empty}

-- The loop's invariant before block `id`: no batch is begun, or the batch is a run of blocks that
-- ends just before `id` and has room.
data Pending (size id : ℕ) (current : List ℕ) (last : Option ℕ) : Type 0 where
  idle : current ≡ [] → last ≡ none → Pending size id current last
  building :
      (s l : ℕ)
      → RunFrom s current
      → s + length current ≡ id
      → last ≡ some l
      → id ≡ l + 1
      → 0 < length current
      → length current < size
      → Pending size id current last

-- What is offered from here on: the pending batch and the missing blocks, in good batches.
abbrev Offers : ℕ → List ℕ → List (List ℕ) → Type 0
Offers size ids bs = (flatten bs ≡ ids) × All (IsBatch size) bs

Offers-cons :
    (size : ℕ) (b ids : List ℕ) (bs : List (List ℕ))
    → IsBatch size b
    → Offers size ids bs
    → Offers size (b ++ ids) (b ∷ bs)
Offers-cons size b ids bs v o = (ap (◌++◌ b) o.0, (v, o.1))

-- A batch that has just been given block `id` is sent if it is full, and kept pending if not.
added :
    (size : ℕ) (existing : ℕ → Bool) (id n s : ℕ) (current ids : List ℕ)
    → RunFrom s current
    → s + length current ≡ id + 1
    → 0 < length current
    → length current ≤ max 1 size
    → Offers size ids (scan size existing (id + 1) n [] none)
    → (Pending size (id + 1) current (some id)
        → Offers size (current ++ ids) (scan size existing (id + 1) n current (some id)))
    → Offers size (current ++ ids) (elim (leb size (length current)) [
      | true ↦ current ∷ scan size existing (id + 1) n [] none
      | false ↦ scan size existing (id + 1) n current (some id)
    ])
added size existing id n s current ids r e p f sent kept =
    elim (Bool-cases (leb size (length current))) [
      | inl full ↦ rw full (
          Offers-cons size current ids _
            (record { first = s; consecutive = r; not_empty = p; fits = f }) sent)
      | inr room ↦ rw room (kept (building s id r e refl refl p (ground arith)))
    ]

scan-Offers :
    (size : ℕ) (existing : ℕ → Bool) (id n : ℕ) (current : List ℕ) (last : Option ℕ)
    → Pending size id current last
    → Offers size (current ++ missing_blocks existing id n) (scan size existing id n current last)
unfolding scan missing_blocks
scan-Offers size existing id zero current last (idle c l) = rw c (refl, tt)
scan-Offers size existing id zero current last (building s l r e q k p f) =
    rw (lt→ltb 0 (length current) p)
      (refl, (record { first = s; consecutive = r; not_empty = p; fits = omega arith }, tt))
scan-Offers size existing id (suc n) current last (idle c l) =
    rw (c, l)
      (elim (Bool-cases (existing id)) [
        | inl known ↦
            rw (known, scan) (scan-Offers size existing (id + 1) n [] none (idle refl refl))
        | inr missing ↦
            rw (missing, scan)
              (added size existing id n id (id ∷ []) (missing_blocks existing (id + 1) n) (refl, tt)
                refl (omega arith) (omega arith)
                (scan-Offers size existing (id + 1) n [] none (idle refl refl))
                (scan-Offers size existing (id + 1) n (id ∷ []) (some id)))
      ])
scan-Offers size existing id (suc n) current last (building s l r e q k p f) =
    let sent = scan-Offers size existing (id + 1) n [] none (idle refl refl) in
    elim (Bool-cases (existing id)) [
      | inl known ↦
          rw (known, scan)
            (rw (lt→ltb 0 (length current) p) (
              Offers-cons size current (missing_blocks existing (id + 1) n) _
                (record { first = s; consecutive = r; not_empty = p; fits = omega arith }) sent))
      | inr missing ↦
          let joined : is_continuous (some l) id ≡ true = (==_iff id (l + 1)).1 k in
          rw (missing, q, scan)
            (rw (joined, scan)
              (let o =
                  added size existing id n s (current ++ id ∷ [])
                    (missing_blocks existing (id + 1) n)
                    (subst (λ x. RunFrom s (current ++ x ∷ [])) e (RunFrom-append s current r))
                    (omega (arith, length-append current (id ∷ [])))
                    (omega (arith, length-append current (id ∷ [])))
                    (omega (arith, length-append current (id ∷ []))) sent
                    (scan-Offers size existing (id + 1) n (current ++ id ∷ []) (some id)) in
                (o.0 ∙ append_assoc current (id ∷ []) (missing_blocks existing (id + 1) n), o.1)))
    ]

-- For a range of blocks the sender offers, in order and once, the blocks that the database is not
-- known to have, in runs of consecutive blocks that are not empty and within the batch size (a size
-- of 0 counts as 1). Where the database gives an error, these are all the blocks of the range.
pub scan_range_lem :
    (batch_size : ℕ) (get_existing_blocks : ℕ → ℕ → Option (ℕ → Bool)) (start stop : ℕ)
    → let batches = scan_range batch_size get_existing_blocks start stop in
      (flatten batches
        ≡ missing_blocks (known_or_empty (get_existing_blocks start stop)) start (stop + 1 - start))
      × All (IsBatch batch_size) batches
unfolding scan_range
scan_range_lem size get start stop =
    scan-Offers size (known_or_empty (get start stop)) start (stop + 1 - start) [] none
      (idle refl refl)
