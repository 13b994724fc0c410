-- ===== src/Live/Tests.antt =====
-- Ticks at concrete inputs.
use dotidx.Prelude.{
  ℕ, ◌≤◌, ◌≡◌, refl, true, false, Option, none, some, List, [], ◌∷◌, ◌++◌, ◌==◌, All, arith,
}
use dotidx.ChainReader.{ChainReader}
use dotidx.Live.{
  ChainState, attempt_reconnect, mark_disconnected, process_blocks, process_last_blocks,
}
use dotidx.Live.Skipped.{blocks_skipped}

-- A reader at a head that has all blocks, or all but block 3. The database lists the blocks saved.
abbrev at : ℕ → ChainReader ℕ
at head = record {
  get_chain_head_id = some head;
  fetch_block = some;
  fetch_block_range = some;
  ping = true;
}

abbrev lacks_three : ChainReader ℕ
lacks_three = record (at 5) { fetch_block = λ id. elim (id == 3) [ true ↦ none | false ↦ some id ] }

abbrev save : List ℕ → List ℕ → Option (List ℕ)
save blocks s = some (s ++ blocks)

abbrev start : ChainState
start = record { current = 2; head = 2; connected = true }

blocks_skipped_example :
    let t = process_last_blocks lacks_three save start [] in
    (t.state.current ≡ 5)
    × All (λ id. id ≤ 3) t.requested
    × All (λ id. 5 ≤ id) (process_last_blocks (at 6) save t.state (2 ∷ [])).requested
    × All
        (λ id. 5 ≤ id)
        (process_last_blocks (at 6) save (attempt_reconnect (at 6) t.state).0 (2 ∷ [])).requested
blocks_skipped_example =
    blocks_skipped save lacks_three (at 6) (at 6) start [] (2 ∷ []) 3 5 refl refl (omega arith) refl
      (λ id e. ground arith)

-- The block that fails once is in no later tick, though a later reader has it.
three_is_lost :
    let t = process_last_blocks lacks_three save start [] in
    (process_last_blocks (at 7) save (attempt_reconnect (at 6) t.state).0 t.db).db ≡ 2 ∷ 6 ∷ 7 ∷ []
unfolding process_last_blocks process_blocks mark_disconnected attempt_reconnect
three_is_lost = refl
