-- ===== src/Batch.antt =====
-- cmd/dixmgr/workflow_batch.go: the batch indexing workflow. Block numbers are ℕ; the sentinel -1
-- of `EndRange` is `none`. The activities that Temporal runs (the chain's head, the blocks that the
-- database has, one job's result) are fields of `Activities`.
pub mod Grouping
pub mod Coverage
pub mod Chain
pub mod Concurrency
mod Tests
use dotidx.Prelude.{
  ℕ, zero, suc, ◌+◌, ◌-◌, Bool, true, false, ◌&&◌, Option, none, some, List, [], ◌∷◌, ◌++◌, ltb,
  leb, ◌==◌, length, if◌then◌else◌,
}

pub record BatchWorkflowConfig : Type 0 where
  pub start_range : ℕ
  pub end_range : Option ℕ
  pub batch_size : ℕ
  pub max_workers : ℕ

-- The loop of `groupIntoContinuousBatches` from index 1 on; `prev` is `blockIDs[i-1]`.
unfoldable pub group_from : ℕ → List (List ℕ) → List ℕ → ℕ → List ℕ → List (List ℕ)
group_from batch_size batches current prev [] =
    if ltb 0 (length current) then batches ++ current ∷ [] else batches
group_from batch_size batches current prev (id ∷ ids) =
    elim (id == prev + 1 && ltb (length current) batch_size) [
      | true ↦ group_from batch_size batches (current ++ id ∷ []) id ids
      | false ↦ group_from batch_size (batches ++ current ∷ []) (id ∷ []) id ids
    ]

unfoldable pub group_into_continuous_batches : List ℕ → ℕ → List (List ℕ)
unfolding group_from
group_into_continuous_batches [] batch_size = []
group_into_continuous_batches (id ∷ ids) batch_size = group_from batch_size [] (id ∷ []) id ids

-- An activity that `processBatchesConcurrently` starts.
pub data Job : Type 0 where
  block_batch : List ℕ → Job
  single_block : ℕ → Job

-- `none` is the panic of `batch[0]` on an empty batch.
unfoldable pub job_of : List ℕ → Option Job
job_of batch =
    if ltb 1 (length batch)
    then some (block_batch batch)
    else elim batch [ [] ↦ none | id ∷ rest ↦ some (single_block id) ]

-- How the dispatch loop ends: with the jobs that it has started, in order, by a panic, or not at all.
pub data Dispatched : Type 0 where
  dispatched : List Job → Dispatched
  dispatch_panics dispatch_waits : Dispatched

abbrev pub cons_job : Option Job → Dispatched → Dispatched
cons_job none rest = dispatch_panics
cons_job (some job) (dispatched jobs) = dispatched (job ∷ jobs)
cons_job (some job) dispatch_panics = dispatch_panics
cons_job (some job) dispatch_waits = dispatch_waits

-- The loop `for activeFutures >= config.MaxWorkers`, with the number of futures so far. `Await` goes on
-- as soon as one of them is ready, which comes since every activity ends; where there is none it
-- waits for ever, which is `none`.
unfoldable pub await_worker : ℕ → ℕ → ℕ → Option ℕ
await_worker max_workers futures zero = if leb max_workers 0 then none else some 0
await_worker max_workers futures (suc active) =
    let waited = await_worker max_workers futures active in
    if leb max_workers (suc active)
    then (if futures == 0 then none else waited)
    else some (suc active)

-- The dispatch loop of `processBatchesConcurrently`, with the numbers of futures and of active ones.
unfoldable pub dispatch : ℕ → ℕ → ℕ → List (List ℕ) → Dispatched
unfolding await_worker job_of
dispatch max_workers futures active [] = dispatched []
dispatch max_workers futures active (batch ∷ batches) =
    elim (await_worker max_workers futures active) [
      | none ↦ dispatch_waits
      | some free ↦ cons_job (job_of batch) (dispatch max_workers (futures + 1) (free + 1) batches)
    ]

pub record Activities : Type 0 where
  pub get_chain_head : Option ℕ
  pub check_existing_blocks : ℕ → ℕ → Option (ℕ → Bool)
  pub process : Job → Bool

-- The loop over `future.Get`: the first error is the result.
unfoldable pub all_succeed : (Job → Bool) → List Job → Bool
all_succeed process [] = true
all_succeed process (job ∷ jobs) = process job && all_succeed process jobs

-- The loop that collects `missingBlocks`, over `n` blocks from `id` on.
unfoldable pub missing_blocks : (ℕ → Bool) → ℕ → ℕ → List ℕ
missing_blocks existing id zero = []
missing_blocks existing id (suc n) =
    let rest = missing_blocks existing (id + 1) n in if existing id then rest else id ∷ rest

abbrev pub step_range : ℕ
step_range = 100_000

abbrev pub history_limit : ℕ
history_limit = 500_000

unfoldable pub current_end : ℕ → ℕ → ℕ
current_end start end_range =
    let full = start + step_range - 1 in if ltb end_range full then end_range else full

pub data Outcome : Type 0 where
  completed failed panicked waiting out_of_fuel : Outcome
  continue_as_new : BatchWorkflowConfig → Outcome

-- What a workflow did: the jobs that it started, in order, and how it ended.
pub record Run : Type 0 where
  pub jobs : List Job
  pub outcome : Outcome

abbrev pub stop : Outcome → Run
stop outcome = record { jobs = []; outcome = outcome }

abbrev pub prepend : List Job → Run → Run
prepend jobs r = record { jobs = jobs ++ r.jobs; outcome = r.outcome }

module _ (activities : Activities) (config : BatchWorkflowConfig) (end_range : ℕ) where
  open activities use {check_existing_blocks, process}

  -- What follows a range whose jobs are started: an error, `Continue-As-New`, or the next range.
  abbrev after_jobs : Dispatched → ℕ → ℕ → Run → Run
  after_jobs dispatch_panics processed next rest = stop panicked
  after_jobs dispatch_waits processed next rest = stop waiting
  after_jobs (dispatched jobs) processed next rest =
      if all_succeed process jobs
      then (if ltb history_limit processed && leb next end_range
          then record {
            jobs = jobs;
            outcome = continue_as_new (record config { start_range = next });
          }
          else prepend jobs rest)
      else record { jobs = jobs; outcome = failed }

  -- The loop over ranges; `processed` is `processedBlocks`. Each round moves the start of the range
  -- up, so that one round for each block left, and one more, is enough fuel.
  unfoldable pub process_ranges : ℕ → ℕ → ℕ → Run
  process_ranges zero start processed = stop out_of_fuel
  process_ranges (suc fuel) start processed = elim (leb start end_range) [
    | false ↦ stop completed
    | true ↦ elim (check_existing_blocks start (current_end start end_range)) [
      | none ↦ stop failed
      | some existing ↦
          let last = current_end start end_range in
          let missing = missing_blocks existing start (last + 1 - start) in
          let total = processed + length missing in
          elim (length missing == 0) [
            | true ↦ process_ranges fuel (last + 1) processed
            | false ↦
                after_jobs
                  (dispatch config.max_workers 0 0
                    (group_into_continuous_batches missing config.batch_size))
                  total (last + 1) (process_ranges fuel (last + 1) total)
          ]
    ]
  ]

abbrev pub resolve_end : Option ℕ → Option ℕ → Option ℕ
resolve_end (some end_range) head = some end_range
resolve_end none head = head

unfoldable pub batch_workflow : Activities → BatchWorkflowConfig → Run
batch_workflow activities config = elim (resolve_end config.end_range activities.get_chain_head) [
  | none ↦ stop failed
  | some end_range ↦
      process_ranges activities config end_range (suc (end_range + 1 - config.start_range))
        config.start_range 0
]

abbrev pub resume : List Job → Outcome → (BatchWorkflowConfig → Run) → Run
resume jobs (continue_as_new next) again = prepend jobs (again next)
resume jobs outcome again = record { jobs = jobs; outcome = outcome }

-- Temporal runs the workflow again on the configuration of `Continue-As-New`.
unfoldable pub batch_workflow_chain : ℕ → Activities → BatchWorkflowConfig → Run
batch_workflow_chain zero activities config = stop out_of_fuel
batch_workflow_chain (suc fuel) activities config =
    let r = batch_workflow activities config in
    resume r.jobs r.outcome (λ next. batch_workflow_chain fuel activities next)
