-- ===== src/Ingest.antt =====
-- cmd/dixbatch/dixbatch.go: the sender of `startWorkers`, which cuts the range of blocks into
-- batches for the workers, and dix/process.go, what a worker does with a batch. The sentinel -1 of
-- `lastBlockID` is `none`. Each function below gives the batches offered to `batchCh`, in order; a
-- cancelled context stops the sender at one of these sends, so that a prefix is delivered.
pub mod Scan
pub mod Ranges
pub mod Worker
mod Tests
use dotidx.Prelude.{
  ℕ, zero, suc, ◌+◌, ◌-◌, min, Bool, true, false, Option, none, some, List, [], ◌∷◌, ◌++◌, ltb, leb,
  ◌==◌, length, if◌then◌else◌,
}

-- `if len(currentBatch) > 0 { batchCh <- currentBatch }`
abbrev pub flush : List ℕ → List (List ℕ) → List (List ℕ)
flush current rest = if ltb 0 (length current) then current ∷ rest else rest

-- `lastBlockID != -1 && blockID == lastBlockID+1`
abbrev pub is_continuous : Option ℕ → ℕ → Bool
is_continuous none id = false
is_continuous (some last) id = id == last + 1

-- The loop over the blocks of a range, `n` of them from `id` on.
unfoldable pub scan : ℕ → (ℕ → Bool) → ℕ → ℕ → List ℕ → Option ℕ → List (List ℕ)
scan batch_size existing id zero current last = flush current []
scan batch_size existing id (suc n) current last = elim (existing id) [
  | true ↦ flush current (scan batch_size existing (id + 1) n [] none)
  | false ↦ elim (is_continuous last id) [
    | true ↦ elim (leb batch_size (length (current ++ id ∷ []))) [
      | true ↦ (current ++ id ∷ []) ∷ scan batch_size existing (id + 1) n [] none
      | false ↦ scan batch_size existing (id + 1) n (current ++ id ∷ []) (some id)
    ]
    | false ↦ flush current (elim (leb batch_size (length (id ∷ []))) [
      | true ↦ (id ∷ []) ∷ scan batch_size existing (id + 1) n [] none
      | false ↦ scan batch_size existing (id + 1) n (id ∷ []) (some id)
    ])
  ]
]

abbrev pub known_or_empty : Option (ℕ → Bool) → ℕ → Bool
known_or_empty (some existing) = existing
known_or_empty none = λ id. false

-- One round of the outer loop: the batches of the blocks from `start` to `stop`. An error of
-- `GetExistingBlocks` counts as an empty map.
unfoldable pub scan_range : ℕ → (ℕ → ℕ → Option (ℕ → Bool)) → ℕ → ℕ → List (List ℕ)
scan_range batch_size get_existing_blocks start stop =
    scan batch_size (known_or_empty (get_existing_blocks start stop)) start (stop + 1 - start) []
      none

abbrev pub step_range : ℕ
step_range = 100_000

-- The ranges that the outer loop goes through, where `heads` are the answers of `GetChainHeadID`.
-- The program exits on an error of that call: the list of answers then ends. Each round takes an
-- answer or moves `start` up, which bounds the rounds by `fuel`.
unfoldable pub ranges : ℕ → List ℕ → ℕ → ℕ → ℕ → List (ℕ × ℕ)
ranges zero heads start stop end_range = []
ranges (suc fuel) heads start stop end_range = elim (leb start end_range) [
  | false ↦ []
  | true ↦ (start, stop) ∷ elim (leb end_range stop) [
    | false ↦ ranges fuel heads stop (min (stop + step_range) end_range) end_range
    | true ↦ elim heads [
      | [] ↦ []
      | head ∷ later ↦ elim (leb head stop) [
        | true ↦ []
        | false ↦ ranges fuel later stop (min (stop + step_range) head) head
      ]
    ]
  ]
]

-- The rounds of `startWorkers` for the configured range and the head of the chain.
unfoldable pub start_workers : ℕ → List ℕ → ℕ → ℕ → ℕ → List (ℕ × ℕ)
unfolding ranges
start_workers fuel heads start_range end_range head =
    let last = min end_range head in
    ranges fuel heads start_range (min (start_range + step_range) last) last
