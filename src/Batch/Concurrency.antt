-- ===== src/Batch/Concurrency.antt =====
-- cmd/dixmgr/workflow_batch.go: the concurrency control of `processBatchesConcurrently`. `started`
-- counts the futures, `ready` those whose activity has ended, and `active` is `activeFutures`.
use dotidx.Prelude.{ℕ, zero, suc, ◌+◌, ◌-◌, ◌≤◌, ◌<◌, ◌≡◌, refl, arith}

pub record Pool : Type 0 where
  pub started : ℕ
  pub ready : ℕ
  pub active : ℕ

abbrev pub idle_pool : Pool
idle_pool = record { started = 0; ready = 0; active = 0 }

-- One move of the dispatch loop, or of the workers.
pub data Step (max_workers : ℕ) (s : Pool) (t : Pool) : Type 0 where
  -- `workflow.ExecuteActivity`, once `activeFutures < config.MaxWorkers`
  start :
      s.active < max_workers
      → t ≡ record s { started = s.started + 1; active = s.active + 1 }
      → Step max_workers s t
  -- `workflow.Await` returns since some future is ready; none is taken off the list
  wake :
      max_workers ≤ s.active
      → 0 < s.ready
      → t ≡ record s { active = s.active - 1 }
      → Step max_workers s t
  -- an activity ends
  finish : s.ready < s.started → t ≡ record s { ready = s.ready + 1 } → Step max_workers s t

pub data Reach (max_workers : ℕ) (s : Pool) : Pool → Type 0 where
  here : Reach max_workers s s
  next : {t u : Pool} → Reach max_workers s t → Step max_workers t u → Reach max_workers s u

pub record IsValid (max_workers : ℕ) (s : Pool) : Type 0 where
  pub ended : s.ready ≤ s.started
  pub counted : s.active ≤ s.started
  pub limited : s.active ≤ max_workers
  -- while no activity has ended, every one that was started is counted
  pub exact : s.ready ≡ 0 → s.active ≡ s.started

Step-IsValid : (m : ℕ) (s t : Pool) → IsValid m s → Step m s t → IsValid m t
Step-IsValid m s t v (start l e) = rw e (ground arith)
Step-IsValid m s t v (wake l r e) = rw e (ground arith)
Step-IsValid m s t v (finish r e) = rw e (ground arith)

Reach-IsValid : (m : ℕ) {t : Pool} → Reach m idle_pool t → IsValid m t
Reach-IsValid m here = ground arith
Reach-IsValid m (next {t} {u} r st) = Step-IsValid m t u (Reach-IsValid m r) st

-- Until a first activity has ended, at most `MaxWorkers` are started.
limited_before_ready : (m : ℕ) (t : Pool) → Reach m idle_pool t → t.ready ≡ 0 → t.started ≤ m
limited_before_ready m t r z = ground (arith, Reach-IsValid m r)

fill : (k m : ℕ) → k ≤ m → Reach m idle_pool (record { started = k; ready = 0; active = k })
fill zero m h = here
fill (suc k) m h = next (fill k m (omega arith)) (start (omega arith) (ground arith))

-- The limit holds no longer once one activity has ended: from then on each `Await` returns at once,
-- and every further batch can be started while no other activity ends. So with a limit of one or
-- more any number of activities, `n` beyond the limit, can run at once.
workers_unbounded :
    (n m : ℕ) → 0 < m → Reach m idle_pool (record { started = m + suc n; ready = 1; active = m })
workers_unbounded zero m p =
    next
      (next (next (fill m m (omega arith)) (finish p refl)) (wake (omega arith) (omega arith) refl))
      (start (omega arith) (ground arith))
workers_unbounded (suc n) m p =
    next (next (workers_unbounded n m p) (wake (omega arith) (omega arith) refl))
      (start (omega arith) (ground arith))
