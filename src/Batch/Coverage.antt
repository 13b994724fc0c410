-- ===== src/Batch/Coverage.antt =====
-- cmd/dixmgr/workflow_batch.go: which blocks `BatchWorkflow` fetches.
use mathlib.Core.List.{append_assoc}
use dotidx.Prelude.{
  ℕ, zero, suc, ◌+◌, ◌-◌, ◌≤◌, ◌<◌, ◌≡◌, refl, sym, subst, ◌∙◌, inl, inr, Bool, true, false, ◌&&◌,
  true≢false, List, [], ◌∷◌, ◌++◌, some, ltb, leb, leb→le, ◌==◌, length, arith, Bool-cases,
}
use dotidx.Batch.{
  BatchWorkflowConfig, Activities, Job, Outcome, Run, completed, failed, panicked, waiting,
  out_of_fuel, continue_as_new, stop, dispatched, after_jobs, all_succeed, missing_blocks,
  current_end, dispatch, group_into_continuous_batches, process_ranges, resolve_end, batch_workflow,
  history_limit,
}
use dotidx.Batch.Grouping.{job_blocks, blocks, group_into_continuous_batches_lem, dispatch-blocks}

pub missing_blocks-add :
    (existing : ℕ → Bool) (id m n : ℕ)
    → missing_blocks existing id (m + n)
      ≡ missing_blocks existing id m ++ missing_blocks existing (id + m) n
unfolding missing_blocks
missing_blocks-add existing id zero n =
    let e : id + 0 ≡ id = omega arith in let f : 0 + n ≡ n = omega arith in rw (e, f)
missing_blocks-add existing id (suc m) n =
    let e : id + suc m ≡ id + 1 + m = omega arith in
    let f : suc m + n ≡ suc (m + n) = omega arith in
    rw (e, f) (ground (arith, missing_blocks-add existing (id + 1) m n))

pub blocks-append : (js ks : List Job) → blocks (js ++ ks) ≡ blocks js ++ blocks ks
blocks-append [] ks = refl
blocks-append (j ∷ js) ks =
    rw (blocks-append js ks) (sym (append_assoc (job_blocks j) (blocks js) (blocks ks)))

-- The jobs for a list of missing blocks fetch just those.
jobs_for :
    (ids : List ℕ) (max_workers size : ℕ)
    → 0 < max_workers
    → (jobs : List Job) × (dispatch max_workers 0 0 (group_into_continuous_batches ids size)
        ≡ dispatched jobs)
      × (blocks jobs ≡ ids)
jobs_for ids max_workers size workers =
    let (whole, batches, maximal) = group_into_continuous_batches_lem ids size in
    let (jobs, e, f) = dispatch-blocks max_workers 0 0 size _ workers (omega arith) batches in
    (jobs, e, f ∙ whole)

-- What a run has fetched from `start` on: on completion every missing block up to the end, and
-- before `Continue-As-New` every one below the new start, which is within the range, with the rest
-- of the configuration kept. A run fails only if a job does; it does not panic, wait for ever or run out of
-- fuel.
module _ (process : Job → Bool) (config : BatchWorkflowConfig) where
  abbrev pub CoversBlocks : (ℕ → Bool) → ℕ → ℕ → List ℕ → Outcome → Type 0
  CoversBlocks existing start end_range ids completed =
      ids ≡ missing_blocks existing start (end_range + 1 - start)
  CoversBlocks existing start end_range ids (continue_as_new next) =
      (start < next.start_range)
      × (next.start_range ≤ end_range)
      × (next ≡ record config { start_range = next.start_range })
      × (ids ≡ missing_blocks existing start (next.start_range - start))
  CoversBlocks existing start end_range ids failed = (job : Job) × (process job ≡ false)
  CoversBlocks existing start end_range ids panicked = ⊥
  CoversBlocks existing start end_range ids waiting = ⊥
  CoversBlocks existing start end_range ids out_of_fuel = ⊥

  abbrev pub Covers : (ℕ → Bool) → ℕ → ℕ → Run → Type 0
  Covers existing start end_range r =
      CoversBlocks existing start end_range (blocks r.jobs) r.outcome

failing_job :
    (process : Job → Bool) (jobs : List Job)
    → all_succeed process jobs ≡ false
    → (job : Job) × (process job ≡ false)
unfolding all_succeed
failing_job process [] h = absurd (true≢false h)
failing_job process (job ∷ jobs) h = elim (Bool-cases (process job)) [
  | inl fine ↦ failing_job process jobs (rw fine at h)
  | inr broken ↦ (job, broken)
]

current_end_bounds :
    (start end_range : ℕ)
    → start ≤ end_range
    → (start ≤ current_end start end_range) × (current_end start end_range ≤ end_range)
unfolding current_end
current_end_bounds start end_range h = ground arith

pub missing_split :
    (existing : ℕ → Bool) (start mid stop : ℕ)
    → start ≤ mid
    → mid ≤ stop
    → missing_blocks existing start (stop - start)
      ≡ missing_blocks existing start (mid - start) ++ missing_blocks existing mid (stop - mid)
missing_split existing start mid stop h k =
    let e : stop - start ≡ (mid - start) + (stop - mid) = omega arith in
    let f : start + (mid - start) ≡ mid = omega arith in
    rw e (
      subst
        (λ x.
          missing_blocks existing start ((mid - start) + (stop - mid))
          ≡ missing_blocks existing start (mid - start) ++ missing_blocks existing x (stop - mid))
        f (missing_blocks-add existing start (mid - start) (stop - mid)))

nothing_missing :
    (existing : ℕ → Bool) (start end_range : ℕ)
    → end_range < start
    → [] ≡ missing_blocks existing start (end_range + 1 - start)
unfolding missing_blocks
nothing_missing existing start end_range h = let e : end_range + 1 - start ≡ 0 = omega arith in rw e

empty_of_length : (ids : List ℕ) → (length ids == 0) ≡ true → [] ≡ ids
empty_of_length [] h = refl
empty_of_length (id ∷ ids) h = absurd (ground arith)

module _ (process : Job → Bool) (config : BatchWorkflowConfig) (existing : ℕ → Bool)
    (start mid end_range : ℕ) where
  -- A range is fetched, and then the rest.
  join_blocks :
      (done ids : List ℕ) (o : Outcome)
      → start < mid
      → mid ≤ end_range + 1
      → done ≡ missing_blocks existing start (mid - start)
      → CoversBlocks process config existing mid end_range ids o
      → CoversBlocks process config existing start end_range (done ++ ids) o
  join_blocks done ids completed h k e c =
      rw (e, c) (sym (missing_split existing start mid (end_range + 1) (omega arith) k))
  join_blocks done ids (continue_as_new next) h k e c = (
    omega arith,
    c.1,
    c.2,
    rw (e, c.3)
        (sym (missing_split existing start mid next.start_range (omega arith) (omega arith))),
  )
  join_blocks done ids failed h k e c = c
  join_blocks done ids panicked h k e c = c
  join_blocks done ids waiting h k e c = c
  join_blocks done ids out_of_fuel h k e c = c

-- The check for existing blocks answers for each range, and knows there which of its blocks exist.
abbrev pub Knows : Activities → (ℕ → Bool) → Type 0
Knows activities existing =
    (s e : ℕ)
    → (answer : ℕ → Bool) × (activities.check_existing_blocks s e ≡ some answer)
      × ((id : ℕ) → s ≤ id → id ≤ e → answer id ≡ existing id)

missing_blocks-ext :
    (answer existing : ℕ → Bool) (id n : ℕ)
    → ((k : ℕ) → id ≤ k → k < id + n → answer k ≡ existing k)
    → missing_blocks answer id n ≡ missing_blocks existing id n
unfolding missing_blocks
missing_blocks-ext answer existing id zero same = refl
missing_blocks-ext answer existing id (suc n) same = rw (same id (omega arith) (omega arith)) (
    rw
      (missing_blocks-ext answer existing (id + 1) n
        (λ k low high. same k (omega (arith, low)) (omega (arith, high))))
      refl)

module _ (activities : Activities) (config : BatchWorkflowConfig) (end_range : ℕ)
    (existing : ℕ → Bool) (known : Knows activities existing)
    (workers : 0 < config.max_workers) where
  after_jobs-Covers :
      (start last total : ℕ) (missing : List ℕ) (rest : Run)
      → start ≤ last
      → last ≤ end_range
      → missing ≡ missing_blocks existing start (last + 1 - start)
      → Covers activities.process config existing (last + 1) end_range rest
      → Covers activities.process config existing start end_range (
          after_jobs activities config end_range
            (dispatch config.max_workers 0 0
              (group_into_continuous_batches missing config.batch_size))
            total
            (last + 1)
            rest)
  after_jobs-Covers start last total missing rest h k m c =
      let (jobs, e, f) = jobs_for missing config.max_workers config.batch_size workers in
      rw e (elim (Bool-cases (all_succeed activities.process jobs)) [
        | inl fine ↦
            rw fine (elim (Bool-cases (ltb history_limit total && leb (last + 1) end_range)) [
              | inl again ↦ rw again (omega arith, ground arith, refl, f ∙ m)
              | inr more ↦ rw more (
                  subst
                    (λ x.
                      CoversBlocks activities.process config existing start end_range x
                        rest.outcome)
                    (sym (blocks-append jobs rest.jobs))
                    (join_blocks activities.process config existing start (last + 1) end_range
                      (blocks jobs) (blocks rest.jobs) rest.outcome (omega arith) (omega arith)
                      (f ∙ m) c))
            ])
        | inr broken ↦ rw broken (failing_job activities.process jobs broken)
      ])

  process_ranges-Covers :
      (fuel start processed : ℕ)
      → end_range + 1 - start < fuel
      → Covers activities.process config existing start end_range
          (process_ranges activities config end_range fuel start processed)
  unfolding process_ranges
  process_ranges-Covers zero start processed h = absurd (omega arith)
  process_ranges-Covers (suc fuel) start processed h =
      let last = current_end start end_range in
      let (answer, answered, agrees) = known start last in
      let missing = missing_blocks answer start (last + 1 - start) in
      let same : missing ≡ missing_blocks existing start (last + 1 - start) =
        missing_blocks-ext answer existing start (last + 1 - start)
          (λ k low high. agrees k low (omega (arith, low, high))) in
      elim (Bool-cases (leb start end_range)) [
        | inr over ↦
            rw (over, process_ranges) (nothing_missing existing start end_range (ground arith))
        | inl more ↦
            let (above, below) = current_end_bounds start end_range (leb→le start end_range more) in
            elim (Bool-cases (length missing == 0)) [
              | inl none_missing ↦
                  rw (more, answered, process_ranges)
                    (rw (none_missing, process_ranges)
                      (join_blocks activities.process config existing start (last + 1) end_range []
                        _
                        (process_ranges activities config end_range fuel (last + 1)
                          processed).outcome
                        (omega arith) (omega arith) (empty_of_length missing none_missing ∙ same)
                        (process_ranges-Covers fuel (last + 1) processed (omega arith))))
              | inr some_missing ↦
                  rw (more, answered, process_ranges)
                    (rw (some_missing, process_ranges)
                      (after_jobs-Covers start last (processed + length missing) missing _ above
                        below same
                        (process_ranges-Covers fuel (last + 1) (processed + length missing)
                          (omega arith))))
            ]
      ]

  -- Where the end of the range is known, the check for existing blocks answers for every range which
  -- of its blocks exist, and there is a worker or more, a run of the workflow that completes has fetched
  -- every missing block of the range, in order and once; one that ends in `Continue-As-New` has
  -- fetched those below the new start, which is further on and within the range, and passes the rest
  -- of its configuration on; it fails only if a job fails, and, as every activity ends, it neither
  -- panics nor waits or runs on for ever.
  pub batch_workflow-Covers :
      resolve_end config.end_range activities.get_chain_head ≡ some end_range
      → Covers activities.process config existing config.start_range end_range
          (batch_workflow activities config)
  unfolding batch_workflow
  batch_workflow-Covers e =
      rw (e, batch_workflow) (process_ranges-Covers _ config.start_range 0 (omega arith))
