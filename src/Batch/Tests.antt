-- ===== src/Batch/Tests.antt =====
-- Runs of the batch workflow at concrete inputs.
use dotidx.Prelude.{leb, ◌&&◌, ℕ, ◌≡◌, refl, Bool, true, some, [], ◌∷◌, ◌==◌, arith, All}
use dotidx.Batch.{
  waiting, BatchWorkflowConfig, Activities, block_batch, group_into_continuous_batches,
  missing_blocks, dispatch, job_of, current_end, all_succeed, process_ranges, batch_workflow,
  batch_workflow_chain,
}
use dotidx.Batch.Grouping.{flatten, IsBatch, IsMaximal, group_into_continuous_batches_lem}
use dotidx.Batch.Coverage.{Knows, Covers, batch_workflow-Covers}
use dotidx.Batch.Chain.{FetchesAll, batch_workflow_chain-FetchesAll}

grouped :
    group_into_continuous_batches (1 ∷ 2 ∷ 3 ∷ 5 ∷ 6 ∷ 9 ∷ []) 2
    ≡ (1 ∷ 2 ∷ []) ∷ (3 ∷ []) ∷ (5 ∷ 6 ∷ []) ∷ (9 ∷ []) ∷ []
unfolding group_into_continuous_batches
grouped = refl

group_into_continuous_batches_lem_example :
    let batches = group_into_continuous_batches (1 ∷ 2 ∷ 3 ∷ 5 ∷ []) 2 in
    (flatten batches ≡ 1 ∷ 2 ∷ 3 ∷ 5 ∷ []) × All (IsBatch 2) batches × IsMaximal 2 batches
group_into_continuous_batches_lem_example = group_into_continuous_batches_lem (1 ∷ 2 ∷ 3 ∷ 5 ∷ []) 2

-- Block 4 is in the database.
abbrev existing : ℕ → Bool
existing id = id == 4

abbrev activities : Activities
activities = record {
  get_chain_head = some 6;
  check_existing_blocks = λ s e. some (λ id. leb s id && leb id e && existing id);
  process = λ job. true;
}

abbrev config : BatchWorkflowConfig
config = record { start_range = 2; end_range = some 6; batch_size = 10; max_workers = 2 }

fetched :
    (batch_workflow activities config).jobs
    ≡ block_batch (2 ∷ 3 ∷ []) ∷ block_batch (5 ∷ 6 ∷ []) ∷ []
unfolding batch_workflow process_ranges missing_blocks group_into_continuous_batches dispatch job_of
    current_end all_succeed
fetched = refl

knows : Knows activities existing
knows s e = (_, refl, λ id low high. ground arith)

-- Without workers the first batch waits for ever.
no_workers : (batch_workflow activities (record config { max_workers = 0 })).outcome ≡ waiting
unfolding batch_workflow process_ranges missing_blocks group_into_continuous_batches dispatch job_of
    current_end all_succeed
no_workers = refl

batch_workflow-Covers_example :
    Covers activities.process config existing 2 6 (batch_workflow activities config)
batch_workflow-Covers_example =
    batch_workflow-Covers activities config 6 existing knows (omega arith) refl

batch_workflow_chain-FetchesAll_example :
    FetchesAll existing 2 6 (batch_workflow_chain 9 activities config)
batch_workflow_chain-FetchesAll_example =
    batch_workflow_chain-FetchesAll 9 activities config 6 existing knows (omega arith) (λ job. refl)
      refl (omega arith)
