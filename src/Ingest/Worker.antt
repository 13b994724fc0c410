-- ===== src/Ingest/Worker.antt =====
-- dix/process.go: what a worker of `startWorkers` does with a block or a batch. The state is the
-- database's; `save` is `Database.Save`, with `none` for an error, after which the transaction is
-- rolled back and the state is the old one.
use dotidx.Prelude.{
  ℕ, zero, suc, ◌+◌, ◌-◌, ◌<◌, ◌≡◌, refl, ap, Option, none, some, List, [], ◌∷◌, length, arith,
}
use dotidx.ChainReader.{ChainReader, last_of}
use dotidx.Batch.Grouping.{RunFrom}

abbrev saved : {S : Type 0} → Option S → S → S
saved none s = s
saved (some s') s = s'

unfoldable pub process_single_block :
    {B S : Type 0} → ChainReader B → (List B → S → Option S) → ℕ → S → S
process_single_block reader save id s = elim (reader.fetch_block id) [
  | none ↦ s
  | some b ↦ saved (save (b ∷ []) s) s
]

-- The loop that collects `ids`, `n` of them from `id` on.
unfoldable pub ids_from : ℕ → ℕ → List ℕ
ids_from id zero = []
ids_from id (suc n) = id ∷ ids_from (id + 1) n

-- The numbers from the first of the batch to its last.
unfoldable pub ids_of_batch : ℕ → List ℕ → List ℕ
unfolding ids_from
ids_of_batch id ids = ids_from id (last_of id ids + 1 - id)

-- What is done with the reader's answer: an error, no blocks, or blocks that are saved as a whole.
unfoldable pub store_answer : {B S : Type 0} → (List B → S → Option S) → Option (List B) → S → S
store_answer save none s = s
store_answer save (some []) s = s
store_answer save (some (b ∷ bs)) s = saved (save (b ∷ bs) s) s

unfoldable pub process_block_batch :
    {B S : Type 0} → ChainReader B → (List B → S → Option S) → List ℕ → S → S
process_block_batch reader save [] s = s
process_block_batch reader save (id ∷ ids) s =
    store_answer save (reader.fetch_block_range (ids_of_batch id ids)) s

last_of-run :
    (s : ℕ) (id : ℕ) (ids : List ℕ) → RunFrom s (id ∷ ids) → last_of id ids ≡ s + length ids
unfolding last_of
last_of-run s id [] r = omega (arith, r.0)
last_of-run s id (next ∷ ids) r = omega (arith, last_of-run (s + 1) next ids r.1)

pub ids_from-run : (s : ℕ) (ids : List ℕ) → RunFrom s ids → ids_from s (length ids) ≡ ids
unfolding ids_from
ids_from-run s [] r = refl
ids_from-run s (id ∷ ids) r = cc (r.0, ids_from-run (s + 1) ids r.1)

ids_of_batch-run : (s id : ℕ) (ids : List ℕ) → RunFrom s (id ∷ ids) → ids_of_batch id ids ≡ id ∷ ids
unfolding ids_of_batch
ids_of_batch-run s id ids r =
    let e : id ≡ s = r.0 in
    let n : last_of id ids + 1 - id ≡ suc (length ids) = omega (arith, last_of-run s id ids r) in
    rw n (rw e (rw e at (ids_from-run s (id ∷ ids) r)))

-- For a run of consecutive blocks that is not empty, as the sender makes them, a worker asks the
-- reader for just the blocks of the batch, and stores the answer to that request.
process_block_batch_lem :
    {B S : Type 0} (reader : ChainReader B) (save : List B → S → Option S) (s : S) (first : ℕ)
    (ids : List ℕ)
    → RunFrom first ids
    → 0 < length ids
    → process_block_batch reader save ids s ≡ store_answer save (reader.fetch_block_range ids) s
unfolding process_block_batch
process_block_batch_lem reader save s first [] r p = absurd (omega arith)
process_block_batch_lem reader save s first (id ∷ ids) r p =
    ap (λ x. store_answer save (reader.fetch_block_range x) s) (ids_of_batch-run first id ids r)
