-- ===== src/Ingest/Tests.antt =====
-- The sender and a worker at concrete inputs.
use dotidx.Prelude.{ℕ, min, ◌≡◌, refl, true, Option, some, List, [], ◌∷◌, ◌++◌, ◌==◌, arith, All}
use dotidx.ChainReader.{ChainReader, last_of}
use dotidx.Batch.{missing_blocks}
use dotidx.Batch.Grouping.{flatten, IsBatch}
use dotidx.Ingest.{scan, scan_range, start_workers, known_or_empty}
use dotidx.Ingest.Scan.{scan_range_lem}
use dotidx.Ingest.Ranges.{Reaches, start_workers-Reaches}
use dotidx.Ingest.Worker.{process_block_batch, store_answer, ids_of_batch}

-- Block 4 is in the database.
some_known :
    scan_range 2 (λ s e. some (λ id. id == 4)) 1 7
    ≡ (1 ∷ 2 ∷ []) ∷ (3 ∷ []) ∷ (5 ∷ 6 ∷ []) ∷ (7 ∷ []) ∷ []
unfolding scan_range scan
some_known = refl

scan_range_lem_example :
    let batches = scan_range 2 (λ s e. some (λ id. id == 4)) 1 7 in
    (flatten batches ≡ missing_blocks (known_or_empty (some (λ id. id == 4))) 1 7)
    × All (IsBatch 2) batches
scan_range_lem_example = scan_range_lem 2 (λ s e. some (λ id. id == 4)) 1 7

-- The head has moved to 250000 when the sender gets to its end.
moving_head :
    start_workers 9 (250_000 ∷ 250_000 ∷ []) 1 150_000 200_000
    ≡ (1, 100_001) ∷ (100_001, 150_000) ∷ (150_000, 250_000) ∷ []
unfolding start_workers
moving_head = refl

start_workers-Reaches_example : Reaches 1 (min 10 9) (start_workers 40 (12 ∷ []) 1 10 9)
start_workers-Reaches_example =
    start_workers-Reaches 40 (12 ∷ []) 1 10 9 (omega arith) (omega arith)

abbrev reader : ChainReader ℕ
reader = record {
  get_chain_head_id = some 9;
  fetch_block = some;
  fetch_block_range = some;
  ping = true;
}

-- The database is the list of what was saved.
abbrev save : List ℕ → List ℕ → Option (List ℕ)
save blocks s = some (s ++ blocks)

-- A list with a gap: the worker asks for block 4 as well.
fills_gap : process_block_batch reader save (3 ∷ 5 ∷ []) [] ≡ 3 ∷ 4 ∷ 5 ∷ []
unfolding process_block_batch store_answer ids_of_batch last_of
fills_gap = refl
