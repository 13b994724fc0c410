-- ===== src/Batch/Chain.antt =====
-- cmd/dixmgr/workflow_batch.go: the workflow with the runs that `Continue-As-New` adds.
use dotidx.Prelude.{
  ℕ, zero, suc, ◌+◌, ◌-◌, ◌≤◌, ◌<◌, ◌≡◌, refl, sym, ap, ap₂, subst, ◌∙◌, Bool, true, true≢false,
  List, ◌++◌, some, arith,
}
use dotidx.Batch.{
  BatchWorkflowConfig, Activities, Job, Outcome, Run, completed, failed, panicked, waiting,
  out_of_fuel, continue_as_new, resume, missing_blocks, batch_workflow, batch_workflow_chain,
}
use dotidx.Batch.Grouping.{blocks}
use dotidx.Batch.Coverage.{Knows, CoversBlocks, blocks-append, missing_split, batch_workflow-Covers}

-- The run completes and has fetched every missing block of the range.
abbrev pub FetchesAll : (ℕ → Bool) → ℕ → ℕ → Run → Type 0
FetchesAll existing start end_range r =
    (r.outcome ≡ completed)
    × (blocks r.jobs ≡ missing_blocks existing start (end_range + 1 - start))

module _ (process : Job → Bool) (fine : (job : Job) → process job ≡ true)
    (config : BatchWorkflowConfig) (existing : ℕ → Bool) (end_range : ℕ) where
  resume-FetchesAll :
      (jobs : List Job) (o : Outcome) (again : BatchWorkflowConfig → Run)
      → CoversBlocks process config existing config.start_range end_range (blocks jobs) o
      → ((next : BatchWorkflowConfig)
          → next ≡ record config { start_range = next.start_range }
          → config.start_range < next.start_range
          → next.start_range ≤ end_range
          → FetchesAll existing next.start_range end_range (again next))
      → FetchesAll existing config.start_range end_range (resume jobs o again)
  resume-FetchesAll jobs completed again c ih = (refl, c)
  resume-FetchesAll jobs (continue_as_new next) again c ih =
      let (o, b) = ih next c.2 c.0 c.1 in
      (
        o,
        blocks-append jobs (again next).jobs
            ∙ ap₂ ◌++◌ c.3 b
            ∙ sym (
                missing_split existing config.start_range next.start_range (end_range + 1)
                  (omega arith) (omega arith)),
      )
  resume-FetchesAll jobs failed again c ih = absurd (true≢false (sym (fine c.0) ∙ c.1))
  resume-FetchesAll jobs panicked again c ih = absurd c
  resume-FetchesAll jobs waiting again c ih = absurd c
  resume-FetchesAll jobs out_of_fuel again c ih = absurd c

-- Where the check for existing blocks answers for every range which of its blocks exist, there is a worker
-- or more, and every job ends and succeeds, the workflow and the runs that follow it by `Continue-As-New` complete,
-- and together they fetch every block of the range that the database lacks, in order and once. One
-- run for each block of the range, and one more, is enough.
pub batch_workflow_chain-FetchesAll :
    (fuel : ℕ) (activities : Activities) (config : BatchWorkflowConfig) (end_range : ℕ)
    (existing : ℕ → Bool)
    → Knows activities existing
    → 0 < config.max_workers
    → ((job : Job) → activities.process job ≡ true)
    → config.end_range ≡ some end_range
    → end_range + 1 - config.start_range < fuel
    → FetchesAll existing config.start_range end_range (batch_workflow_chain fuel activities config)
unfolding batch_workflow_chain
batch_workflow_chain-FetchesAll zero activities config end_range existing known workers fine e h =
    absurd (omega arith)
batch_workflow_chain-FetchesAll (suc fuel) activities config end_range existing known workers fine e
      h =
    resume-FetchesAll activities.process fine config existing end_range
      (batch_workflow activities config).jobs (batch_workflow activities config).outcome _
      (batch_workflow-Covers activities config end_range existing known workers (rw e))
      λ next same above below.
        batch_workflow_chain-FetchesAll fuel activities next end_range existing known
          (subst (λ (c : BatchWorkflowConfig). 0 < c.max_workers) (sym same) workers) fine
          (ap (λ (c : BatchWorkflowConfig). c.end_range) same ∙ e) (omega arith)
