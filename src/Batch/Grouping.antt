-- ===== src/Batch/Grouping.antt =====
-- cmd/dixmgr/workflow_batch.go: what `groupIntoContinuousBatches` returns.
use mathlib.Core.List.{append_assoc}
use dotidx.Prelude.{
  zero, true, false, inl, inr, leb, refl, ℕ, suc, ◌+◌, ◌≤◌, ◌<◌, max, ◌≡◌, sym, ap, ◌∙◌, ◌⊎◌, ◌&&◌,
  List, [], ◌∷◌, ◌++◌, some, ltb, lt→ltb, ◌==◌, subst, length, length-append, All, arith,
  Bool-cases,
}
use dotidx.Batch.{
  group_from, group_into_continuous_batches, Job, block_batch, single_block, job_of, dispatch,
  dispatched, await_worker,
}

-- The blocks of a list of batches, in order.
abbrev pub flatten : List (List ℕ) → List ℕ
flatten [] = []
flatten (b ∷ bs) = b ++ flatten bs

-- The numbers from `s` on, each one more than the one before.
abbrev pub RunFrom : ℕ → List ℕ → Type 0
RunFrom s [] = Unit
RunFrom s (x ∷ xs) = (x ≡ s) × RunFrom (s + 1) xs

-- The first block of a list of batches is `x`.
abbrev pub StartsWith : ℕ → List (List ℕ) → Type 0
StartsWith x [] = ⊥
StartsWith x ([] ∷ bs) = ⊥
StartsWith x ((y ∷ b) ∷ bs) = y ≡ x

-- A batch is a run of consecutive blocks, not empty, and within the batch size; a size of 0 counts
-- as 1.
pub record IsBatch (batch_size : ℕ) (b : List ℕ) : Type 0 where
  pub first : ℕ
  pub consecutive : RunFrom first b
  pub not_empty : 0 < length b
  pub fits : length b ≤ max 1 batch_size

-- Two neighbours could not have been one batch: the first is full, or the second does not begin
-- with the block that follows the first.
abbrev pub IsMaximal : ℕ → List (List ℕ) → Type 0
IsMaximal batch_size [] = Unit
IsMaximal batch_size (b ∷ bs) =
    ((s : ℕ) → RunFrom s b → (batch_size ≤ length b) ⊎ (StartsWith (s + length b) bs → ⊥))
    × IsMaximal batch_size bs

pub RunFrom-append : (s : ℕ) (b : List ℕ) → RunFrom s b → RunFrom s (b ++ (s + length b) ∷ [])
RunFrom-append s [] r = (omega arith, tt)
RunFrom-append s (x ∷ b) r = (r.0, subst_last (RunFrom-append (s + 1) b r.1))
  where
    subst_last :
        RunFrom (s + 1) (b ++ (s + 1 + length b) ∷ [])
        → RunFrom (s + 1) (b ++ (s + suc (length b)) ∷ [])
    subst_last h = let e : s + 1 + length b ≡ s + suc (length b) = omega arith in rw (← e) h

-- The batches that are done stay in front.
group_from-append :
    (size : ℕ) (done : List (List ℕ)) (current : List ℕ) (prev : ℕ) (ids : List ℕ)
    → 0 < length current
    → group_from size done current prev ids ≡ done ++ group_from size [] current prev ids
unfolding group_from
group_from-append size done current prev [] p = ground arith
group_from-append size done current prev (id ∷ ids) p =
    elim (Bool-cases (id == prev + 1 && ltb (length current) size)) [
      | inl e ↦
          rw (e, group_from)
            (group_from-append size done (current ++ id ∷ []) id ids
              (omega (arith, length-append current (id ∷ []))))
      | inr e ↦
          rw (e, group_from)
            (group_from-append size (done ++ current ∷ []) (id ∷ []) id ids (omega arith)
              ∙ append_assoc done (current ∷ []) _
              ∙ ap (◌++◌ done)
                  (sym (group_from-append size (current ∷ []) (id ∷ []) id ids (omega arith))))
    ]

StartsWith-unique : (x y : ℕ) (bs : List (List ℕ)) → StartsWith x bs → StartsWith y bs → x ≡ y
StartsWith-unique x y [] h k = absurd h
StartsWith-unique x y ([] ∷ bs) h k = absurd h
StartsWith-unique x y ((z ∷ b) ∷ bs) h k = sym h ∙ k

RunFrom-unique : (s t : ℕ) (b : List ℕ) → 0 < length b → RunFrom s b → RunFrom t b → s ≡ t
RunFrom-unique s t [] p h k = absurd (omega arith)
RunFrom-unique s t (x ∷ b) p h k = sym h.0 ∙ k.0

StartsWith-cons :
    (s : ℕ) (b : List ℕ) (bs : List (List ℕ)) → 0 < length b → RunFrom s b → StartsWith s (b ∷ bs)
StartsWith-cons s [] bs p r = absurd (omega arith)
StartsWith-cons s (x ∷ b) bs p r = r.0

-- The loop's invariant: `current` is a run of blocks that ends in `prev`.
record Current (size s : ℕ) (current : List ℕ) (prev : ℕ) : Type 0 where
  run : RunFrom s current
  some_block : 0 < length current
  fits : length current ≤ max 1 size
  ends : s + length current ≡ prev + 1

-- What the loop makes of it.
record Grouped (size s : ℕ) (current ids : List ℕ) (bs : List (List ℕ)) : Type 0 where
  whole : flatten bs ≡ current ++ ids
  batches : All (IsBatch size) bs
  maximal : IsMaximal size bs
  starts : StartsWith s bs

Current-IsBatch :
    {size s : ℕ} {current : List ℕ} {prev : ℕ} → Current size s current prev → IsBatch size current
Current-IsBatch {s = s} c = record {
  first = s;
  consecutive = c.run;
  not_empty = c.some_block;
  fits = c.fits;
}

Current-single : (size id : ℕ) → Current size id (id ∷ []) id
Current-single size id = record {
  run = (refl, tt);
  some_block = omega arith;
  fits = omega arith;
  ends = omega arith;
}

Current-extend :
    (size s : ℕ) (current : List ℕ) (prev id : ℕ)
    → Current size s current prev
    → (id == prev + 1 && ltb (length current) size) ≡ true
    → Current size s (current ++ id ∷ []) id
Current-extend size s current prev id c e =
    let next : s + length current ≡ id = ground (arith, c.ends) in
    record {
      run = subst (λ x. RunFrom s (current ++ x ∷ [])) next (RunFrom-append s current c.run);
      some_block = omega (arith, length-append current (id ∷ []));
      fits = ground (arith, length-append current (id ∷ []));
      ends = omega (arith, length-append current (id ∷ []), next);
    }

cut :
    (size s : ℕ) (current : List ℕ) (prev id : ℕ) (ids : List ℕ) (bs : List (List ℕ))
    → Current size s current prev
    → (id == prev + 1 && ltb (length current) size) ≡ false
    → Grouped size id (id ∷ []) ids bs
    → Grouped size s current (id ∷ ids) (current ∷ bs)
cut size s current prev id ids bs c e g = record {
  whole = ap (◌++◌ current) g.whole;
  batches = (Current-IsBatch c, g.batches);
  maximal = (λ t r. apart t (RunFrom-unique s t current c.some_block c.run r), g.maximal);
  starts = StartsWith-cons s current bs c.some_block c.run;
}
  where
    new_start : (t : ℕ) → s ≡ t → StartsWith (t + length current) bs → id ≡ prev + 1
    new_start t q h =
        StartsWith-unique id (t + length current) bs g.starts h ∙ omega (arith, c.ends)

    apart : (t : ℕ) → s ≡ t → (size ≤ length current) ⊎ (StartsWith (t + length current) bs → ⊥)
    apart t q = elim (Bool-cases (ltb (length current) size)) [
      | inl room ↦ inr (λ h. clash (new_start t q h) room)
      | inr full ↦ inl (ground arith)
    ]
      where
        clash : id ≡ prev + 1 → ltb (length current) size ≡ true → ⊥
        clash q room = ground arith

group_from-Grouped :
    (size s : ℕ) (current : List ℕ) (prev : ℕ) (ids : List ℕ)
    → Current size s current prev
    → Grouped size s current ids (group_from size [] current prev ids)
unfolding group_from
group_from-Grouped size s current prev [] c = rw (lt→ltb 0 (length current) c.some_block) (record {
  whole = refl;
  batches = (Current-IsBatch c, tt);
  maximal = (λ t r. inr (λ h. h), tt);
  starts = StartsWith-cons s current [] c.some_block c.run;
})
group_from-Grouped size s current prev (id ∷ ids) c =
    elim (Bool-cases (id == prev + 1 && ltb (length current) size)) [
      | inl e ↦
          let g =
            group_from-Grouped size s (current ++ id ∷ []) id ids
              (Current-extend size s current prev id c e) in
          rw (e, group_from)
            (record {
              whole = g.whole ∙ append_assoc current (id ∷ []) ids;
              batches = g.batches;
              maximal = g.maximal;
              starts = g.starts;
            })
      | inr e ↦
          rw (e, group_from)
            (rw (group_from-append size (current ∷ []) (id ∷ []) id ids (omega arith)) (
              cut size s current prev id ids _ c e
                (group_from-Grouped size id (id ∷ []) id ids (Current-single size id))))
    ]

-- The batches are the given blocks in their order, none lost and none made up; each batch is a run
-- of consecutive blocks, not empty and within the batch size (a size of 0 counts as 1); and no two
-- neighbours could have been one batch.
pub group_into_continuous_batches_lem :
    (ids : List ℕ) (batch_size : ℕ)
    → let batches = group_into_continuous_batches ids batch_size in
      (flatten batches ≡ ids) × All (IsBatch batch_size) batches × IsMaximal batch_size batches
unfolding group_into_continuous_batches
group_into_continuous_batches_lem [] size = (refl, tt, tt)
group_into_continuous_batches_lem (id ∷ ids) size =
    let g = group_from-Grouped size id (id ∷ []) id ids (Current-single size id) in
    (g.whole, g.batches, g.maximal)

-- The blocks that a job fetches.
abbrev pub job_blocks : Job → List ℕ
job_blocks (block_batch ids) = ids
job_blocks (single_block id) = id ∷ []

abbrev pub blocks : List Job → List ℕ
blocks [] = []
blocks (j ∷ js) = job_blocks j ++ blocks js

job_of-blocks :
    (b : List ℕ) → 0 < length b → (job : Job) × (job_of b ≡ some job) × (job_blocks job ≡ b)
unfolding job_of
job_of-blocks [] p = absurd (omega arith)
job_of-blocks (id ∷ []) p = (single_block id, refl, refl)
job_of-blocks (id ∷ id' ∷ b) p = (block_batch (id ∷ id' ∷ b), ground arith, refl)

-- With a worker or more the wait for one ends.
await_worker-some :
    (max_workers futures active : ℕ)
    → 0 < max_workers
    → active ≤ futures
    → (free : ℕ) × (await_worker max_workers futures active ≡ some free) × (free ≤ active)
unfolding await_worker
await_worker-some max_workers futures zero p h =
    let room : leb max_workers 0 ≡ false = ground arith in (0, rw room refl, omega arith)
await_worker-some max_workers futures (suc active) p h =
    elim (Bool-cases (leb max_workers (suc active))) [
      | inr room ↦ (suc active, rw room refl, omega arith)
      | inl full ↦
          let (free, e, le) = await_worker-some max_workers futures active p (omega (arith, h)) in
          let some_future : (futures == 0) ≡ false = ground arith in
          (free, rw full (rw some_future e), omega (arith, le))
    ]

-- Batches that are not empty are dispatched without a panic, and the jobs fetch their blocks.
pub dispatch-blocks :
    (max_workers futures active size : ℕ) (bs : List (List ℕ))
    → 0 < max_workers
    → active ≤ futures
    → All (IsBatch size) bs
    → (jobs : List Job) × (dispatch max_workers futures active bs ≡ dispatched jobs)
      × (blocks jobs ≡ flatten bs)
unfolding dispatch
dispatch-blocks max_workers futures active size [] p h v = ([], refl, refl)
dispatch-blocks max_workers futures active size (b ∷ bs) p h v =
    let (free, found, le) = await_worker-some max_workers futures active p h in
    let (jobs, e, f) =
      dispatch-blocks max_workers (futures + 1) (free + 1) size bs p (omega (arith, h, le)) v.1 in
    let (job, e', f') = job_of-blocks b v.0.not_empty in
    (job ∷ jobs, rw (found, dispatch) (rw (e, e')), rw (f, f'))
