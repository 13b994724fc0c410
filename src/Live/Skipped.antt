-- ===== src/Live/Skipped.antt =====
-- cmd/dixlive/dixlive.go: a tick in which a block cannot be fetched.
use dotidx.Prelude.{
  ℕ, zero, suc, ◌+◌, ◌-◌, ◌≤◌, ◌≡◌, refl, true, Option, none, some, List, [], ◌∷◌, inl, inr,
  Option-cases, Bool-cases, All, arith,
}
use dotidx.ChainReader.{ChainReader}
use dotidx.Live.{ChainState, attempt_reconnect, process_blocks, process_last_blocks}

All-weaken : {P Q : ℕ → Type 0} (ids : List ℕ) → ((id : ℕ) → P id → Q id) → All P ids → All Q ids
All-weaken [] f h = tt
All-weaken (id ∷ ids) f h = (f id h.0, All-weaken ids f h.1)

reconnected :
    {B : Type 0} {h : ℕ} (reader : ChainReader B) (cs : ChainState)
    → h ≤ cs.current
    → ((id : ℕ) → reader.get_chain_head_id ≡ some id → h ≤ id)
    → h ≤ (attempt_reconnect reader cs).0.current
unfolding attempt_reconnect
reconnected reader cs le later = elim (Bool-cases reader.ping) [
  | inr off ↦ rw (off, attempt_reconnect) le
  | inl on ↦ elim (Option-cases reader.get_chain_head_id) [
    | inl e ↦ rw (on, attempt_reconnect) (rw (e, attempt_reconnect) le)
    | inr (head, e) ↦ rw (on, attempt_reconnect) (rw (e, attempt_reconnect) (later head e))
  ]
]

module _ {B S : Type 0} (save : List B → S → Option S) where
  process_blocks-from :
      (reader : ChainReader B) (next n : ℕ) (cs : ChainState) (s : S)
      → All (λ id. next ≤ id) (process_blocks reader save next n cs s).requested
  unfolding process_blocks
  process_blocks-from reader next zero cs s = tt
  process_blocks-from reader next (suc n) cs s = elim (Option-cases (reader.fetch_block next)) [
    | inl f ↦ rw (f, process_blocks) (omega arith)
    | inr (b, f) ↦ elim (Option-cases (save (b ∷ []) s)) [
      | inl g ↦ rw (f, process_blocks) (rw (g, process_blocks) (omega arith))
      | inr (t, g) ↦
          rw (f, process_blocks)
            (rw (g, process_blocks)
              (
                omega arith,
                All-weaken _ (λ id (h : next + 1 ≤ id). omega arith)
                    (process_blocks-from reader (next + 1) n cs t),
              ))
    ]
  ]

  -- A failing block is the last one that the tick asks for.
  process_blocks-until :
      (reader : ChainReader B) (next n k : ℕ) (cs : ChainState) (s : S)
      → next ≤ k
      → reader.fetch_block k ≡ none
      → All (λ id. id ≤ k) (process_blocks reader save next n cs s).requested
  unfolding process_blocks
  process_blocks-until reader next zero k cs s h e = tt
  process_blocks-until reader next (suc n) k cs s h e =
      elim (Option-cases (reader.fetch_block next)) [
        | inl f ↦ rw (f, process_blocks) (h, tt)
        | inr (b, f) ↦ elim (Option-cases (save (b ∷ []) s)) [
          | inl g ↦ rw (f, process_blocks) (rw (g, process_blocks) (h, tt))
          | inr (t, g) ↦
              rw (f, process_blocks)
                (rw (g, process_blocks)
                  (h, process_blocks-until reader (next + 1) n k cs t (later b f) e))
        ]
      ]
    where
      later : (b : B) → reader.fetch_block next ≡ some b → next + 1 ≤ k
      later b f = ground (arith)

  -- All that a tick asks for is at the current block or after it.
  process_last_blocks-from :
      (reader : ChainReader B) (cs : ChainState) (s : S)
      → All (λ id. cs.current ≤ id) (process_last_blocks reader save cs s).requested
  unfolding process_last_blocks
  process_last_blocks-from reader cs s = elim (Bool-cases cs.connected) [
    | inr off ↦ rw (off, process_last_blocks) tt
    | inl on ↦ elim (Option-cases reader.get_chain_head_id) [
      | inl e ↦ rw (on, process_last_blocks) (rw (e, process_last_blocks) tt)
      | inr (head, e) ↦
          rw (on, process_last_blocks)
            (rw (e, process_last_blocks)
              (process_blocks-from reader cs.current (head + 1 - cs.current) cs s))
    ]
  ]

  one_tick :
      (reader : ChainReader B) (cs : ChainState) (s : S) (k head : ℕ)
      → cs.connected ≡ true
      → reader.get_chain_head_id ≡ some head
      → cs.current ≤ k
      → reader.fetch_block k ≡ none
      → let t = process_last_blocks reader save cs s in
        (t.state.current ≡ head) × All (λ id. id ≤ k) t.requested
  unfolding process_last_blocks
  one_tick reader cs s k head on e c f =
      rw (on, process_last_blocks)
        (rw (e, process_last_blocks)
          (refl, process_blocks-until reader cs.current (head + 1 - cs.current) k cs s c f))

  -- Where a fetch fails blocks are skipped. If in a tick of a connected chain, which nothing overlaps, block
  -- `k`, which is not before the current one, cannot be fetched, then the chain is moved to the head all
  -- the same: the tick asks for no block after `k`, and a tick that finds the state that it left, or
  -- the one after a reconnection at a head that has not gone back, with any reader and database,
  -- asks for no block before the head. So a block `k` before the head is not asked for by either,
  -- nor are the blocks between `k` and the head.
  pub blocks_skipped :
      (reader next other : ChainReader B) (cs : ChainState) (s s' : S) (k head : ℕ)
      → cs.connected ≡ true
      → reader.get_chain_head_id ≡ some head
      → cs.current ≤ k
      → reader.fetch_block k ≡ none
      → ((id : ℕ) → other.get_chain_head_id ≡ some id → head ≤ id)
      → let t = process_last_blocks reader save cs s in
        (t.state.current ≡ head)
        × All (λ id. id ≤ k) t.requested
        × All (λ id. head ≤ id) (process_last_blocks next save t.state s').requested
        × All
            (λ id. head ≤ id)
            (process_last_blocks next save (attempt_reconnect other t.state).0 s').requested
  blocks_skipped reader next other cs s s' k head on e c f later =
      let t = process_last_blocks reader save cs s in
      let (at_head, until) = one_tick reader cs s k head on e c f in
      (
        at_head,
        until,
        from next t.state s' (omega (arith, at_head)),
        from next (attempt_reconnect other t.state).0 s'
            (reconnected other t.state (omega (arith, at_head)) later),
      )
    where
      from :
          (reader : ChainReader B) (cs : ChainState) (s : S)
          → head ≤ cs.current
          → All (λ id. head ≤ id) (process_last_blocks reader save cs s).requested
      from reader cs s le =
          All-weaken _ (λ id (q : cs.current ≤ id). omega (arith, q, le))
            (process_last_blocks-from reader cs s)
