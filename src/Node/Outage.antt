-- ===== src/Node/Outage.antt =====
-- cmd/dixmgr/workflow_node.go: what a node does while its service is not active.
use dotidx.Prelude.{
  ℕ, suc, ◌+◌, ◌-◌, ◌*◌, ◌≤◌, ◌<◌, min, ◌≡◌, refl, ap, ◌⊎◌, inl, inr, List, [], ◌∷◌, ◌++◌, ltb,
  length, All, if◌then◌else◌, arith,
}
use dotidx.Node.{
  NodeWorkflowConfig, Health, check_failed, inactive, active, Round, Action, health_update,
  node_failed, restart_service, ready_sent, ready_not_sent, sleep, NodeState, step, rounds,
}

-- How often an action is a restart of the service, or the signal of a permanent failure.
abbrev pub is_restart : Action → ℕ
is_restart (health_update b) = 0
is_restart node_failed = 0
is_restart restart_service = 1
is_restart ready_sent = 0
is_restart ready_not_sent = 0
is_restart (sleep d) = 0

abbrev pub is_failure : Action → ℕ
is_failure (health_update b) = 0
is_failure node_failed = 1
is_failure restart_service = 0
is_failure ready_sent = 0
is_failure ready_not_sent = 0
is_failure (sleep d) = 0

abbrev pub slept : Action → ℕ
slept (health_update b) = 0
slept node_failed = 0
slept restart_service = 0
slept ready_sent = 0
slept ready_not_sent = 0
slept (sleep d) = d

-- A quantity of actions, summed up.
unfoldable pub sum : (Action → ℕ) → List Action → ℕ
sum f [] = 0
sum f (a ∷ rest) = f a + sum f rest

pub sum-append :
    (f : Action → ℕ) (done bs : List Action) → sum f (done ++ bs) ≡ sum f done + sum f bs
unfolding sum
sum-append f [] bs = omega arith
sum-append f (a ∷ rest) bs = omega (arith, sum-append f rest bs)

abbrev pub found_inactive : Health → ℕ
found_inactive check_failed = 0
found_inactive inactive = 1
found_inactive active = 0

-- How many rounds find the service inactive.
abbrev pub inactive_rounds : List Round → ℕ
inactive_rounds [] = 0
inactive_rounds (r ∷ rs) = found_inactive r.health + inactive_rounds rs

-- A round that finds the service active.
abbrev pub IsActive : Round → Type 0
IsActive r = r.health ≡ active

abbrev pub NotActive : Round → Type 0
NotActive r = (r.health ≡ check_failed) ⊎ (r.health ≡ inactive)

-- A health check that fails restarts nothing.
failed_check :
    (config : NodeWorkflowConfig) (r : Round) (s : NodeState)
    → r.health ≡ check_failed
    → let (s', actions) = step config r s in
      (s'.restart_count ≡ s.restart_count)
      × (sum is_restart actions ≡ 0)
      × (sum is_failure actions ≡ 0)
unfolding step sum
failed_check config r s e = rw (e, step) (ground arith)

-- A round on an inactive service takes one restart, while there is one left.
inactive_round :
    (config : NodeWorkflowConfig) (r : Round) (s : NodeState)
    → r.health ≡ inactive
    → let (s', actions) = step config r s in
      (s'.restart_count ≡ s.restart_count + sum is_restart actions)
      × (sum is_restart actions ≡ (if ltb s.restart_count config.max_restarts then 1 else 0))
unfolding step sum
inactive_round config r s e = rw (e, step) (ground arith)

rounds-nil :
    (f : Action → ℕ) (config : NodeWorkflowConfig) (s : NodeState)
    → ((rounds config [] s).0 ≡ s) × (sum f (rounds config [] s).1 ≡ 0)
unfolding rounds sum
rounds-nil f config s = (refl, refl)

rounds-cons :
    (f : Action → ℕ) (config : NodeWorkflowConfig) (r : Round) (rs : List Round) (s : NodeState)
    → let (s', actions) = step config r s in
      ((rounds config (r ∷ rs) s).0 ≡ (rounds config rs s').0)
      × (sum f (rounds config (r ∷ rs) s).1 ≡ sum f actions + sum f (rounds config rs s').1)
unfolding rounds
rounds-cons f config r rs s =
    (refl, sum-append f (step config r s).1 (rounds config rs (step config r s).0).1)

-- One round of an outage: its restarts are one or none.
outage_round :
    (config : NodeWorkflowConfig) (r : Round) (s : NodeState)
    → NotActive r
    → let (s', actions) = step config r s in
      (s'.restart_count ≡ s.restart_count + sum is_restart actions)
      × (sum is_restart actions
          ≡ min (found_inactive r.health) (config.max_restarts - s.restart_count))
outage_round config r s (inl e) =
    let (c, d, q) = failed_check config r s e in
    let w : found_inactive r.health ≡ 0 = rw e refl in (omega (arith, c, d), omega (arith, d, w))
outage_round config r s (inr e) =
    let (c, d) = inactive_round config r s e in
    let w : found_inactive r.health ≡ 1 = rw e refl in (c, ground (arith, d, w))

-- While no round finds the service active, a node restarts it in each round that finds it inactive,
-- until the restarts since the last active round are at the maximum; from then on it restarts no
-- more, however long the outage. The count of restarts goes up with them and does not pass the
-- maximum.
pub outage_restarts :
    (config : NodeWorkflowConfig) (rs : List Round) (s : NodeState)
    → All NotActive rs
    → s.restart_count ≤ config.max_restarts
    → let (s', actions) = rounds config rs s in
      (sum is_restart actions ≡ min (inactive_rounds rs) (config.max_restarts - s.restart_count))
      × (s'.restart_count ≡ s.restart_count + sum is_restart actions)
      × (s'.restart_count ≤ config.max_restarts)
outage_restarts config [] s out h =
    let (x, y) = rounds-nil is_restart config s in
    let c = ap NodeState.restart_count x in
    (omega (arith, y), omega (arith, c, y), omega (arith, c))
outage_restarts config (r ∷ rs) s out h =
    let (x, y) = rounds-cons is_restart config r rs s in
    let (c, d) = outage_round config r s out.0 in
    let (a, b, k) = outage_restarts config rs (step config r s).0 out.1 (omega (arith, c, d)) in
    let z = ap NodeState.restart_count x in
    (omega (arith, y, a, c, d), omega (arith, z, b, c, y), omega (arith, z, k))

-- The pauses of a round on an inactive service with a restart left.
backoff_round :
    (config : NodeWorkflowConfig) (r : Round) (s : NodeState)
    → r.health ≡ inactive
    → s.restart_count < config.max_restarts
    → let (s', actions) = step config r s in
      (s'.restart_count ≡ s.restart_count + 1)
      × (sum slept actions
          ≡ (if ltb 0 s.restart_count then (s.restart_count + 1) * config.restart_backoff else 0)
            + config.watch_interval)
unfolding step sum
backoff_round config r s e h = rw (e, step) (ground arith)

abbrev pub IsInactive : Round → Type 0
IsInactive r = r.health ≡ inactive

next_term :
    (c n b w t u : ℕ)
    → t ≡ (c + 1) * b + w
    → 2 * u + (c + 1) * (c + 1 + 1) * b ≡ (c + 1 + n) * (c + 1 + n + 1) * b + 2 * n * w
    → 2 * (t + u) + c * (c + 1) * b ≡ (c + suc n) * (c + suc n + 1) * b + 2 * suc n * w
next_term c n b w t u h k = grind arith

-- From a count of one or more the pauses before the restarts are those of an arithmetic series.
backoff_from :
    (config : NodeWorkflowConfig) (rs : List Round) (s : NodeState)
    → All IsInactive rs
    → 0 < s.restart_count
    → s.restart_count + length rs ≤ config.max_restarts
    → let c = s.restart_count in
      2 * sum slept (rounds config rs s).1 + c * (c + 1) * config.restart_backoff
      ≡ (c + length rs) * (c + length rs + 1) * config.restart_backoff
        + 2 * length rs * config.watch_interval
backoff_from config [] s out p h = let (x, y) = rounds-nil slept config s in rw y (grind arith)
backoff_from config (r ∷ rs) s out p h =
    let (x, y) = rounds-cons slept config r rs s in
    let (c, d) = backoff_round config r s out.0 (omega arith) in
    let ih =
      backoff_from config rs (step config r s).0 out.1 (omega (arith, c)) (omega (arith, c)) in
    let t : sum slept (step config r s).1
        ≡ (s.restart_count + 1) * config.restart_backoff + config.watch_interval =
      ground (arith, d) in
    rw y (
      next_term s.restart_count (length rs) config.restart_backoff config.watch_interval _ _ t
        (rw c at ih))

first_term :
    (n b w t u : ℕ)
    → t ≡ w
    → 2 * u + (0 + 1) * (0 + 1 + 1) * b ≡ (0 + 1 + n) * (0 + 1 + n + 1) * b + 2 * n * w
    → 2 * (t + u) + 2 * b ≡ suc n * (suc n + 1) * b + 2 * suc n * w
first_term n b w t u h k = grind arith

-- The pauses before restarts grow by the same amount each, and not as powers: over an outage of `n`
-- rounds on an inactive service that begins with no restart counted, and within the maximum, they
-- add up to `(n * (n + 1) / 2 - 1)` times the base, besides the `n` watch intervals.
backoff_is_linear :
    (config : NodeWorkflowConfig) (r : Round) (rs : List Round) (s : NodeState)
    → All IsInactive (r ∷ rs)
    → s.restart_count ≡ 0
    → length (r ∷ rs) ≤ config.max_restarts
    → let n = length (r ∷ rs) in
      2 * sum slept (rounds config (r ∷ rs) s).1 + 2 * config.restart_backoff
      ≡ n * (n + 1) * config.restart_backoff + 2 * n * config.watch_interval
backoff_is_linear config r rs s out z h =
    let (x, y) = rounds-cons slept config r rs s in
    let (c, d) = backoff_round config r s out.0 (omega arith) in
    let ih =
      backoff_from config rs (step config r s).0 out.1 (omega (arith, c)) (omega (arith, c)) in
    let t : sum slept (step config r s).1 ≡ config.watch_interval = ground (arith, d) in
    let one : (step config r s).0.restart_count ≡ 0 + 1 = omega (arith, c, z) in
    rw y (first_term (length rs) config.restart_backoff config.watch_interval _ _ t (rw one at ih))
