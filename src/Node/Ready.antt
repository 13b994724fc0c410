-- ===== src/Node/Ready.antt =====
-- cmd/dixmgr/workflow_node.go: when a node tells its parent that it is ready.
use dotidx.Prelude.{
  ◌⊎◌, ℕ, ◌+◌, ◌≡◌, refl, Bool, false, ◌&&◌, ◌||◌, inl, inr, List, [], ◌∷◌, if◌then◌else◌, str_eq,
  arith,
}
use dotidx.Node.{
  NodeWorkflowConfig, Health, check_failed, inactive, active, Round, Action, health_update,
  node_failed, restart_service, ready_sent, ready_not_sent, sleep, NodeState, is_ready, step,
  rounds,
}
use dotidx.Node.Outage.{sum, sum-append}

abbrev pub is_ready_sent : Action → ℕ
is_ready_sent (health_update b) = 0
is_ready_sent node_failed = 0
is_ready_sent restart_service = 0
is_ready_sent ready_sent = 1
is_ready_sent ready_not_sent = 0
is_ready_sent (sleep d) = 0

-- The round finds the service active, and synced where that is asked for, and the signal gets out.
abbrev pub can_signal : NodeWorkflowConfig → Round → Bool
can_signal config r = elim r.health [
  | check_failed ↦ false
  | inactive ↦ false
  | active ↦ is_ready config r && r.delivered
]

abbrev pub any_can_signal : NodeWorkflowConfig → List Round → Bool
any_can_signal config [] = false
any_can_signal config (r ∷ rs) = can_signal config r || any_can_signal config rs

-- A ready signal is configured.
pub record IsConfigured (config : NodeWorkflowConfig) : Type 0 where
  pub named : str_eq config.ready_signal "" ≡ false
  pub owned : str_eq config.parent_workflow_id "" ≡ false

Health-cases : (h : Health) → (h ≡ check_failed) ⊎ (h ≡ inactive) ⊎ (h ≡ active)
Health-cases check_failed = inl refl
Health-cases inactive = inr (inl refl)
Health-cases active = inr (inr refl)

ready_round :
    (config : NodeWorkflowConfig) (r : Round) (s : NodeState)
    → IsConfigured config
    → let (s', actions) = step config r s in
      (s'.ready_signal_sent ≡ s.ready_signal_sent || can_signal config r)
      × (sum is_ready_sent actions
          ≡ (if s.ready_signal_sent then 0 else if can_signal config r then 1 else 0))
unfolding step sum is_ready
ready_round config r s c = elim (Health-cases r.health) [
  | inl e ↦ rw (e, step) (ground arith)
  | inr (inl e) ↦ rw (e, step) (ground arith)
  | inr (inr e) ↦ rw (e, step) (ground arith)
]

-- With a signal configured, a node sends it to its parent once, in the first round that finds the
-- service active, and synced where the sync is checked, and in which the signal gets out; it sends
-- it never where there is no such round, and not again where it was sent before.
pub ready_sent_once :
    (config : NodeWorkflowConfig) (rs : List Round) (s : NodeState)
    → IsConfigured config
    → let (s', actions) = rounds config rs s in
      (s'.ready_signal_sent ≡ s.ready_signal_sent || any_can_signal config rs)
      × (sum is_ready_sent actions
          ≡ (if s.ready_signal_sent then 0 else if any_can_signal config rs then 1 else 0))
unfolding rounds sum
ready_sent_once config [] s c = ground arith
ready_sent_once config (r ∷ rs) s c =
    let (f, n) = ready_round config r s c in
    let (f', n') = ready_sent_once config rs (step config r s).0 c in
    let a = sum-append is_ready_sent (step config r s).1 (rounds config rs (step config r s).0).1 in
    (joined s.ready_signal_sent _ _ _ _ f f', added s.ready_signal_sent _ _ _ _ _ _ f n n' a)
  where
    joined : (b x y c d : Bool) → c ≡ b || x → d ≡ c || y → d ≡ b || (x || y)
    joined b x y c d e f = ground arith

    added :
        (b x y c : Bool) (k m t : ℕ)
        → c ≡ b || x
        → k ≡ (if b then 0 else if x then 1 else 0)
        → m ≡ (if c then 0 else if y then 1 else 0)
        → t ≡ k + m
        → t ≡ (if b then 0 else if (x || y) then 1 else 0)
    added b x y c k m t e f g h = ground arith
