-- ===== src/ChainReader/Tests.antt =====
-- Readers at concrete inputs: a chain whose block `n` is the number `n + 100`, up to block 9.
use dotidx.Prelude.{ℕ, zero, suc, ◌+◌, ◌-◌, ◌≡◌, refl, Option, none, some, List, [], ◌∷◌, arith}
use dotidx.ChainReader.{
  Http, Url, root, blocks_head, block, block_range, fetch_each, sidecar_block, sidecar_range,
  sidecar_block_range, sequential_from, last_of,
}
use dotidx.ChainReader.Sequential.{RangeAgrees, run_of}

-- A server that answers every request for a block, and for a range, with the numbers.
data Body : Type 0 where
  one : ℕ → Body
  many : List ℕ → Body

blocks_from : ℕ → ℕ → List ℕ
blocks_from first zero = []
blocks_from first (suc n) = (first + 100) ∷ blocks_from (first + 1) n

serve : Url → Option (ℕ × Body)
unfolding blocks_from
serve root = some (200, one 0)
serve blocks_head = some (200, one 109)
serve (block id) = some (200, one (id + 100))
serve (block_range first last) = some (200, many (blocks_from first (suc (last - first))))

abbrev server : Http ℕ
unfolding serve
server = record {
  Body = Body;
  get = serve;
  parse_block = elim [ one b ↦ some b | many bs ↦ none ];
  parse_blocks = elim [ one b ↦ none | many bs ↦ some bs ];
  block_id = some;
}

each_block :
    (first n : ℕ) → fetch_each (sidecar_block server) (run_of first n) ≡ some (blocks_from first n)
unfolding fetch_each sidecar_block run_of blocks_from serve
each_block first zero = refl
each_block first (suc n) = rw (each_block (first + 1) n)

server_agrees : RangeAgrees server
unfolding sidecar_range serve blocks_from
server_agrees first n =
    let e : first + n - first ≡ n = omega arith in rw (each_block first (suc n), e)

range_of_three : sidecar_block_range server (3 ∷ 4 ∷ 5 ∷ []) ≡ some (103 ∷ 104 ∷ 105 ∷ [])
unfolding sidecar_block_range sequential_from last_of sidecar_range serve blocks_from
range_of_three = refl
