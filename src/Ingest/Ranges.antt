-- ===== src/Ingest/Ranges.antt =====
-- cmd/dixbatch/dixbatch.go: the ranges that the sender goes through.
use dotidx.Prelude.{
  ℕ, zero, suc, ◌+◌, ◌-◌, ◌≤◌, ◌<◌, min, ◌≡◌, refl, inl, inr, List, [], ◌∷◌, leb, leb→le, le→leb,
  length, arith, Bool-cases,
}
use dotidx.Ingest.{ranges, start_workers, step_range}

-- A chain of ranges from `start` to some last block: each range is not empty and at most the step
-- long, and the next one begins with the block that the range ends with.
abbrev pub Chains : ℕ → ℕ → List (ℕ × ℕ) → Type 0
Chains start last [] = start ≡ last
Chains start last ((s, e) ∷ rest) =
    (s ≡ start) × (s ≤ e) × (e ≤ s + step_range) × Chains e last rest

-- The last block that the sender gets to, at least `end_range`.
pub record Reaches (start end_range : ℕ) (rs : List (ℕ × ℕ)) : Type 0 where
  pub last : ℕ
  pub far : end_range ≤ last
  pub chain : Chains start last rs

abbrev pub total : List ℕ → ℕ
total [] = 0
total (head ∷ heads) = head + total heads

Reaches-cons :
    (start stop low end_range : ℕ) (rs : List (ℕ × ℕ))
    → start ≤ stop
    → stop ≤ start + step_range
    → end_range ≤ low
    → Reaches stop low rs
    → Reaches start end_range ((start, stop) ∷ rs)
Reaches-cons start stop low end_range rs a b c r = record {
  last = r.last;
  far = omega (arith, r.far);
  chain = (refl, a, b, r.chain);
}

Reaches-stop :
    (start stop end_range : ℕ)
    → start ≤ stop
    → stop ≤ start + step_range
    → end_range ≤ stop
    → Reaches start end_range ((start, stop) ∷ [])
Reaches-stop start stop end_range a b c = record {
  last = stop;
  far = c;
  chain = (refl, a, b, refl);
}

ranges-Reaches :
    (fuel : ℕ) (heads : List ℕ) (start stop end_range : ℕ)
    → start ≤ stop
    → stop ≤ start + step_range
    → stop ≤ end_range
    → (end_range - stop) + (total heads + length heads) < fuel
    → Reaches start end_range (ranges fuel heads start stop end_range)
unfolding ranges
ranges-Reaches zero heads start stop end_range a b c d = absurd (omega arith)
ranges-Reaches (suc fuel) [] start stop end_range a b c d =
    rw (le→leb start end_range (omega arith), ranges)
      (elim (Bool-cases (leb end_range stop)) [
        | inl over ↦ rw (over, ranges) (Reaches-stop start stop end_range a b (leb→le _ _ over))
        | inr more ↦
            rw (more, ranges)
              (Reaches-cons start stop end_range end_range _ a b (omega arith) (
                ranges-Reaches fuel [] stop (min (stop + step_range) end_range) end_range
                  (omega arith) (omega arith) (omega arith) (ground arith)))
      ])
ranges-Reaches (suc fuel) (head ∷ later) start stop end_range a b c d =
    rw (le→leb start end_range (omega arith), ranges)
      (elim (Bool-cases (leb end_range stop)) [
        | inl over ↦
            rw (over, ranges)
              (elim (Bool-cases (leb head stop)) [
                | inl same ↦
                    rw (same, ranges) (Reaches-stop start stop end_range a b (leb→le _ _ over))
                | inr moved ↦
                    rw (moved, ranges)
                      (Reaches-cons start stop head end_range _ a b (ground arith) (
                        ranges-Reaches fuel later stop (min (stop + step_range) head) head
                          (ground arith) (omega arith) (omega arith) (omega arith)))
              ])
        | inr more ↦
            rw (more, ranges)
              (Reaches-cons start stop end_range end_range _ a b (omega arith) (
                ranges-Reaches fuel (head ∷ later) stop (min (stop + step_range) end_range)
                  end_range (omega arith) (omega arith) (omega arith) (ground arith)))
      ])

-- Where the configured range begins no later than its end, or the chain's head if that is lower,
-- the sender goes through ranges of at most the step, without a gap, that begin at the start and get
-- to that end at least: the fuel is the distance, and what the heads that are read later add.
pub start_workers-Reaches :
    (fuel : ℕ) (heads : List ℕ) (start_range end_range head : ℕ)
    → start_range ≤ min end_range head
    → min end_range head - start_range + (total heads + length heads) < fuel
    → Reaches start_range (min end_range head) (start_workers fuel heads start_range end_range head)
unfolding start_workers
start_workers-Reaches fuel heads start_range end_range head h k =
    ranges-Reaches fuel heads start_range _ (min end_range head) (omega arith) (omega arith)
      (omega arith) (omega arith)
