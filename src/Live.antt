-- ===== src/Live.antt =====
-- cmd/dixlive/dixlive.go: following the head of a chain. A tick of the monitor is a function of the state
-- that it finds and of the answers that the reader gives during it: the ticks run as goroutines, and
-- what is modelled is one that no other tick of its chain and no reconnection overlaps. `save` is
-- `Database.Save` as in `Ingest.Worker`.
pub mod Progress
pub mod Skipped
mod Tests
use dotidx.Prelude.{
  ℕ, zero, suc, ◌+◌, ◌-◌, Bool, true, false, Option, none, some, List, [], ◌∷◌, leb, if◌then◌else◌,
}
use dotidx.ChainReader.{ChainReader}

pub record ChainState : Type 0 where
  pub current : ℕ
  pub head : ℕ
  pub connected : Bool

unfoldable pub mark_disconnected : ChainState → ChainState
mark_disconnected cs = if cs.connected then record cs { connected = false } else cs

-- The state, and whether the chain is connected again.
unfoldable pub attempt_reconnect : {B : Type 0} → ChainReader B → ChainState → ChainState × Bool
attempt_reconnect reader cs = elim reader.ping [
  | false ↦ (cs, false)
  | true ↦ elim reader.get_chain_head_id [
    | none ↦ (cs, false)
    | some id ↦ (record cs { head = id; current = id; connected = true }, true)
  ]
]

-- What a tick leaves: the chain's state, the database, the blocks that it asked the reader for, in
-- order, and whether it returned no error.
pub record Tick (S : Type 0) : Type 0 where
  pub state : ChainState
  pub db : S
  pub requested : List ℕ
  pub fine : Bool

abbrev pub request : {S : Type 0} → ℕ → Tick S → Tick S
request id t = record t { requested = id ∷ t.requested }

module _ {B S : Type 0} (reader : ChainReader B) (save : List B → S → Option S) where
  -- The loop `for next <= head`, `n` rounds from `next` on.
  unfoldable pub process_blocks : ℕ → ℕ → ChainState → S → Tick S
  process_blocks next zero cs s = record { state = cs; db = s; requested = []; fine = true }
  process_blocks next (suc n) cs s = elim (reader.fetch_block next) [
    | none ↦ record { state = mark_disconnected cs; db = s; requested = next ∷ []; fine = true }
    | some b ↦ elim (save (b ∷ []) s) [
      | none ↦ record { state = cs; db = s; requested = next ∷ []; fine = true }
      | some s' ↦ request next (process_blocks (next + 1) n cs s')
    ]
  ]

  abbrev finish_at : ℕ → Tick S → Tick S
  finish_at head t = record t { state = record t.state { current = head } }

  unfoldable pub process_last_blocks : ChainState → S → Tick S
  process_last_blocks cs s = elim cs.connected [
    | false ↦ record { state = cs; db = s; requested = []; fine = false }
    | true ↦ elim reader.get_chain_head_id [
      | none ↦ record { state = mark_disconnected cs; db = s; requested = []; fine = false }
      | some head ↦ finish_at head (process_blocks cs.current (head + 1 - cs.current) cs s)
    ]
  ]
