-- ===== src/Live/Progress.antt =====
-- cmd/dixlive/dixlive.go: a tick in which nothing fails.
use dotidx.Prelude.{
  ℕ, zero, suc, ◌+◌, ◌-◌, ◌≡◌, true, Option, none, some, List, [], ◌∷◌, inl, inr, Option-cases,
  arith,
}
use dotidx.ChainReader.{ChainReader}
use dotidx.Ingest.Worker.{ids_from}
use dotidx.Live.{ChainState, process_blocks, process_last_blocks}

module _ {B S : Type 0} (reader : ChainReader B) (save : List B → S → Option S) where
  -- The database after the blocks are fetched and saved one by one, or `none` at the first error.
  unfoldable pub save_blocks : List ℕ → S → Option S
  save_blocks [] s = some s
  save_blocks (id ∷ ids) s = elim (reader.fetch_block id) [
    | none ↦ none
    | some b ↦ elim (save (b ∷ []) s) [ none ↦ none | some s' ↦ save_blocks ids s' ]
  ]

  process_blocks-save_blocks :
      (next n : ℕ) (cs : ChainState) (s s' : S)
      → save_blocks (ids_from next n) s ≡ some s'
      → process_blocks reader save next n cs s
        ≡ record { state = cs; db = s'; requested = ids_from next n; fine = true }
  unfolding process_blocks save_blocks ids_from
  process_blocks-save_blocks next zero cs s s' e = ground arith
  process_blocks-save_blocks next (suc n) cs s s' e =
      elim (Option-cases (reader.fetch_block next)) [
        | inl f ↦ ground arith
        | inr (b, f) ↦ elim (Option-cases (save (b ∷ []) s)) [
          | inl g ↦ ground arith
          | inr (t, g) ↦
              rw (f, process_blocks)
                (rw (g, process_blocks)
                  (let ih = process_blocks-save_blocks (next + 1) n cs t s' (ground arith) in
                    rw ih))
        ]
      ]

  -- Where the head is not behind, and every block from the current one to the head is fetched and
  -- saved, a tick of a connected chain asks for these blocks in order and once, leaves the database
  -- with all of them saved, and the chain connected and at the head.
  process_last_blocks_lem :
      (cs : ChainState) (s s' : S) (head : ℕ)
      → cs.connected ≡ true
      → reader.get_chain_head_id ≡ some head
      → save_blocks (ids_from cs.current (head + 1 - cs.current)) s ≡ some s'
      → process_last_blocks reader save cs s ≡ record {
        state = record cs { current = head };
        db = s';
        requested = ids_from cs.current (head + 1 - cs.current);
        fine = true;
      }
  unfolding process_last_blocks
  process_last_blocks_lem cs s s' head c h e =
      rw (c, h, process_last_blocks)
        (let ih = process_blocks-save_blocks cs.current (head + 1 - cs.current) cs s s' e in
          rw ih (ground arith))
