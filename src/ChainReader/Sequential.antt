-- ===== src/ChainReader/Sequential.antt =====
-- dix/chainreader.go: `FetchBlockRange` against fetching each block.
use dotidx.Prelude.{
  ℕ, zero, suc, ◌+◌, ◌≡◌, refl, sym, ap, ◌∙◌, true, ◌&&◌, List, [], ◌∷◌, ltb, length, arith,
  Bool-cases, inl, inr,
}
use dotidx.ChainReader.{
  Http, sequential_from, last_of, fetch_each, sidecar_block, sidecar_range, sidecar_block_range,
}

-- The blocks `first`, `first + 1`, and so on, `n` of them.
unfoldable pub run_of : ℕ → ℕ → List ℕ
run_of first zero = []
run_of first (suc n) = first ∷ run_of (first + 1) n

-- The check accepts just the runs of consecutive numbers; the last of them is found from the length.
pub sequential-run :
    (id : ℕ) (ids : List ℕ)
    → sequential_from id ids ≡ true
    → (ids ≡ run_of (id + 1) (length ids)) × (last_of id ids ≡ id + length ids)
unfolding sequential_from last_of run_of
sequential-run id [] h = (refl, omega arith)
sequential-run id (next ∷ ids) h =
    let e : next ≡ id + 1 = ground arith in
    let (r, l) = sequential-run next ids (ground arith) in (cc (e, r), omega (arith, l, e))

-- A sidecar whose answer for a range of any length is the list of its answers for the blocks.
abbrev pub RangeAgrees : {B : Type 0} → Http B → Type 0
RangeAgrees http =
    (first n : ℕ)
    → sidecar_range http first (first + n) ≡ fetch_each (sidecar_block http) (run_of first (suc n))

-- Where a range request agrees with requests for its blocks, `FetchBlockRange` gives the same answer
-- as fetching each of the blocks, in the order asked for, whether or not the numbers are consecutive.
pub sidecar_block_range_lem :
    {B : Type 0} (http : Http B) (ids : List ℕ)
    → RangeAgrees http
    → sidecar_block_range http ids ≡ fetch_each (sidecar_block http) ids
unfolding sidecar_block_range fetch_each run_of
sidecar_block_range_lem http [] agrees = refl
sidecar_block_range_lem http (id ∷ ids) agrees =
    elim (Bool-cases (sequential_from id ids && ltb 1 (length (id ∷ ids)))) [
      | inr apart ↦ rw apart
      | inl together ↦
          let (r, l) = sequential-run id ids (ground arith) in
          rw (together, l)
            (agrees id (length ids) ∙ ap (fetch_each (sidecar_block http)) (sym (ap (◌∷◌ id) r)))
    ]
