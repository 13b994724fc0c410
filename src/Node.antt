-- ===== src/Node.antt =====
-- cmd/dixmgr/workflow_node.go: `NodeWorkflow`, which watches and restarts one service, and its
-- parents in the children: workflow_cluster.go (`Cluster`) and workflow_dependant.go (`Dependant`).
-- The activities and Temporal's signals are given by their answers, one `Round` for each round of
-- the monitoring loop; the loop ends when the final sleep is cancelled, that is with the list of
-- rounds. Of a health signal the model keeps whether the node is healthy.
pub mod Outage
pub mod Ready
pub mod Cluster
pub mod Dependant
mod Tests
use dotidx.Prelude.{
  ℕ, zero, suc, ◌+◌, ◌*◌, Bool, true, false, not, ◌&&◌, ◌||◌, Option, none, some, List, [], ◌∷◌,
  ◌++◌, ltb, if◌then◌else◌, String, str_eq,
}

pub record NodeWorkflowConfig : Type 0 where
  pub name : String
  pub watch_interval : ℕ
  pub max_restarts : ℕ
  pub restart_backoff : ℕ
  pub parent_workflow_id : String
  pub check_sync : Bool
  pub ready_signal : String

-- What `CheckSystemdServiceActivity` gives.
pub data Health : Type 0 where
  check_failed inactive active : Health

-- `synced` is the result of `CheckNodeSyncActivity`, `delivered` whether the ready signal can be
-- sent, and `now` the workflow's time.
pub record Round : Type 0 where
  pub health : Health
  pub synced : Option Bool
  pub delivered : Bool
  pub now : ℕ

-- What the workflow does to the outside. `ready_sent` is a ready signal that is delivered.
pub data Action : Type 0 where
  health_update : Bool → Action
  node_failed restart_service ready_sent ready_not_sent : Action
  sleep : ℕ → Action

pub record NodeState : Type 0 where
  pub restart_count : ℕ
  pub consecutive_failures : ℕ
  pub last_healthy : ℕ
  pub ready_signal_sent : Bool

unfoldable pub start_state : ℕ → NodeState
start_state now = record {
  restart_count = 0;
  consecutive_failures = 0;
  last_healthy = now;
  ready_signal_sent = false;
}

-- `if config.ParentWorkflowID != ""`
abbrev pub to_parent : NodeWorkflowConfig → Action → List Action
to_parent config a = if str_eq config.parent_workflow_id "" then [] else a ∷ []

unfoldable pub emit_ready_signal : NodeWorkflowConfig → Round → List Action × Bool
emit_ready_signal config r =
    if str_eq config.ready_signal "" || str_eq config.parent_workflow_id ""
    then ([], true)
    else if r.delivered
    then (ready_sent ∷ [], true)
    else (ready_not_sent ∷ [], false)

-- The restart count, and what is done, where the service is not active.
unfoldable pub attempt_restart : NodeWorkflowConfig → ℕ → ℕ × List Action
attempt_restart config restart_count =
    if ltb restart_count config.max_restarts
    then if ltb 1 (restart_count + 1)
      then (
        restart_count + 1,
        sleep ((restart_count + 1) * config.restart_backoff) ∷ restart_service ∷ [],
      )
      else (restart_count + 1, restart_service ∷ [])
    else (restart_count, to_parent config node_failed)

-- `config.CheckSync` with a node that is synced, or no check.
unfoldable pub is_ready : NodeWorkflowConfig → Round → Bool
is_ready config r = if config.check_sync then elim r.synced [ none ↦ false | some b ↦ b ] else true

unfoldable pub check_ready : NodeWorkflowConfig → Round → Bool → List Action × Bool
unfolding emit_ready_signal is_ready
check_ready config r sent =
    if sent
    then ([], true)
    else if is_ready config r
    then emit_ready_signal config r
    else ([], false)

unfoldable pub check_health :
    NodeWorkflowConfig → Round → Health → NodeState → NodeState × List Action
unfolding attempt_restart check_ready
check_health config r check_failed s = (
  record s { consecutive_failures = s.consecutive_failures + 1 },
  to_parent config (health_update false),
)
check_health config r inactive s =
    let (count, actions) = attempt_restart config s.restart_count in
    (
      record s { consecutive_failures = s.consecutive_failures + 1; restart_count = count },
      to_parent config (health_update false) ++ actions,
    )
check_health config r active s =
    let (actions, sent) = check_ready config r s.ready_signal_sent in
    (
      record s {
        consecutive_failures = 0;
        restart_count = 0;
        last_healthy = r.now;
        ready_signal_sent = sent;
      },
      to_parent config (health_update true) ++ actions,
    )

-- One round of the monitoring loop.
unfoldable pub step : NodeWorkflowConfig → Round → NodeState → NodeState × List Action
unfolding check_health
step config r s =
    let (s', actions) = check_health config r r.health s in
    (s', actions ++ sleep config.watch_interval ∷ [])

-- The rounds from a state on.
unfoldable pub rounds : NodeWorkflowConfig → List Round → NodeState → NodeState × List Action
unfolding step
rounds config [] s = (s, [])
rounds config (r ∷ rs) s =
    let (s', actions) = step config r s in
    let (s'', later) = rounds config rs s' in (s'', actions ++ later)

-- `NodeWorkflow` started at the time `now`.
unfoldable pub node_workflow : NodeWorkflowConfig → ℕ → List Round → NodeState × List Action
unfolding rounds start_state
node_workflow config now rs =
    let (s, actions) = rounds config rs (start_state now) in
    (s, to_parent config (health_update false) ++ actions)
