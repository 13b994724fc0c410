-- ===== src/Infra/Plan.antt =====
-- cmd/dixmgr/helpers.go: `FromMgrConfigToInfraInput`, the plan that is made from the configuration
-- file. The two maps of `cfg.Parachains` are lists in the order of the iteration.
use dotidx.Prelude.{
  ℕ, ◌≡◌, refl, inl, inr, Bool-cases, Option-cases, Bool, true, false, none, some, List, [], ◌∷◌,
  ◌++◌, All, String, str_eq, if◌then◌else◌, arith, Dict, lookup,
}
use dotidx.Node.{
  NodeWorkflowConfig, Round, Health, Action, health_update, sleep, check_failed, inactive, active,
  NodeState, to_parent, emit_ready_signal, attempt_restart, check_ready, is_ready, check_health,
  step, rounds, node_workflow, start_state,
}
use dotidx.Node.Outage.{is_restart, slept, sum, sum-append}
use dotidx.Infra.Names.{str_append, ready_signal_relay, ready_signal_para, workflow_id_infra}
use dotidx.Infra.{ParaPlan, RelayPlan, InfrastructureWorkflowInput}

-- Of a chain's settings, the number of sidecars.
pub record ParaChainConfig : Type 0 where
  pub sidecar_count : ℕ

-- A node whose settings are all Go's zero values.
abbrev pub zero_node : NodeWorkflowConfig
zero_node = record {
  name = "";
  watch_interval = 0;
  max_restarts = 0;
  restart_backoff = 0;
  parent_workflow_id = "";
  check_sync = false;
  ready_signal = "";
}

abbrev pub chain_node : String → String → NodeWorkflowConfig
chain_node name signal = record zero_node {
  name = name;
  check_sync = true;
  ready_signal = signal;
  parent_workflow_id = workflow_id_infra;
}

-- `if relayConfig, exists := chainConfigs[relayName]; exists`
unfoldable pub relay_node : String → Dict ParaChainConfig → NodeWorkflowConfig
unfolding lookup
relay_node relay chains = elim (lookup relay chains) [
  | none ↦ zero_node
  | some config ↦ chain_node (str_append "RelayChain-" relay) (ready_signal_relay relay)
]

unfoldable pub plan_chains : String → Dict ParaChainConfig → List ParaPlan
plan_chains relay [] = []
plan_chains relay ((chain, config) ∷ chains) =
    let rest = plan_chains relay chains in
    if str_eq chain relay
    then rest
    else record {
      chain_id = chain;
      node =
          chain_node (str_append "Chain-" (str_append relay (str_append "-" chain)))
            (ready_signal_para relay chain);
      sidecar_count = config.sidecar_count;
    }
      ∷ rest

unfoldable pub plan_relays : Dict (Dict ParaChainConfig) → List RelayPlan
unfolding relay_node plan_chains
plan_relays [] = []
plan_relays ((relay, chains) ∷ relays) =
    record {
      relay_id = relay;
      node = relay_node relay chains;
      parachains = plan_chains relay chains;
    }
    ∷ plan_relays relays

unfoldable pub from_mgr_config : Dict (Dict ParaChainConfig) → InfrastructureWorkflowInput
unfolding plan_relays
from_mgr_config relays = record {
  relay_plans = plan_relays relays;
  nginx_service = "dix-nginx";
  after_nginx_services = "dixlive" ∷ "dixfe" ∷ "dixbatch" ∷ "dixcron" ∷ [];
}

-- A property of all nodes of a plan.
unfoldable pub PlanAll : (NodeWorkflowConfig → Type 0) → List RelayPlan → Type 0
PlanAll P plans = All (λ plan. P plan.node × All (λ para. P para.node) plan.parachains) plans

-- Settings that are zero except for the names, and the check of the sync.
pub record IsUnset (node : NodeWorkflowConfig) : Type 0 where
  pub no_restarts : node.max_restarts ≡ 0
  pub no_interval : node.watch_interval ≡ 0

module _ (P : NodeWorkflowConfig → Type 0)
    (of_chain : (name signal : String) → P (chain_node name signal)) where
  plan_chains-All :
      (relay : String) (chains : Dict ParaChainConfig)
      → All (λ para. P para.node) (plan_chains relay chains)
  unfolding plan_chains
  plan_chains-All relay [] = tt
  plan_chains-All relay ((chain, config) ∷ chains) = elim (Bool-cases (str_eq chain relay)) [
    | inl e ↦ rw e (plan_chains-All relay chains)
    | inr e ↦ rw e (of_chain _ _, plan_chains-All relay chains)
  ]

  relay_node-Has :
      P zero_node → (relay : String) (chains : Dict ParaChainConfig) → P (relay_node relay chains)
  unfolding relay_node
  relay_node-Has of_zero relay chains = elim (Option-cases (lookup relay chains)) [
    | inl e ↦ rw (e, relay_node) of_zero
    | inr (config, e) ↦ rw (e, relay_node) (of_chain _ _)
  ]

  pub plan_relays-All :
      P zero_node → (relays : Dict (Dict ParaChainConfig)) → PlanAll P (plan_relays relays)
  unfolding PlanAll plan_relays
  plan_relays-All of_zero [] = tt
  plan_relays-All of_zero ((relay, chains) ∷ relays) = (
    (relay_node-Has of_zero relay chains, plan_chains-All relay chains),
    plan_relays-All of_zero relays,
  )

-- What a list of actions adds up to, in restarts and in pauses.
record IsIdle (actions : List Action) : Type 0 where
  no_restart : sum is_restart actions ≡ 0
  no_pause : sum slept actions ≡ 0

IsIdle-append : (front back : List Action) → IsIdle front → IsIdle back → IsIdle (front ++ back)
IsIdle-append front back f b = record {
  no_restart = omega (arith, sum-append is_restart front back, f.no_restart, b.no_restart);
  no_pause = omega (arith, sum-append slept front back, f.no_pause, b.no_pause);
}

to_parent-IsIdle :
    (node : NodeWorkflowConfig) (a : Action)
    → is_restart a ≡ 0
    → slept a ≡ 0
    → IsIdle (to_parent node a)
unfolding sum
to_parent-IsIdle node a r p = record { no_restart = ground arith; no_pause = ground arith }

check_ready-IsIdle :
    (node : NodeWorkflowConfig) (r : Round) (sent : Bool) → IsIdle (check_ready node r sent).0
unfolding check_ready is_ready emit_ready_signal sum
check_ready-IsIdle node r sent = record { no_restart = ground arith; no_pause = ground arith }

attempt_restart-IsIdle :
    (node : NodeWorkflowConfig) (count : ℕ) → IsUnset node → IsIdle (attempt_restart node count).1
unfolding attempt_restart sum
attempt_restart-IsIdle node count u =
    let e = u.no_restarts in record { no_restart = ground arith; no_pause = ground arith }

check_health-IsIdle :
    (node : NodeWorkflowConfig) (r : Round) (health : Health) (s : NodeState)
    → IsUnset node
    → IsIdle (check_health node r health s).1
unfolding check_health
check_health-IsIdle node r check_failed s u = to_parent-IsIdle node _ refl refl
check_health-IsIdle node r inactive s u =
    IsIdle-append (to_parent node (health_update false)) _ (to_parent-IsIdle node _ refl refl)
      (attempt_restart-IsIdle node s.restart_count u)
check_health-IsIdle node r active s u =
    IsIdle-append (to_parent node (health_update true)) _ (to_parent-IsIdle node _ refl refl)
      (check_ready-IsIdle node r s.ready_signal_sent)

sleep-IsIdle : (d : ℕ) → d ≡ 0 → IsIdle (sleep d ∷ [])
unfolding sum
sleep-IsIdle d e = record { no_restart = refl; no_pause = omega (arith, e) }

rounds-IsIdle :
    (node : NodeWorkflowConfig) (rs : List Round) (s : NodeState)
    → IsUnset node
    → IsIdle (rounds node rs s).1
unfolding rounds step sum
rounds-IsIdle node [] s u = record { no_restart = refl; no_pause = refl }
rounds-IsIdle node (r ∷ rs) s u =
    IsIdle-append _ (rounds node rs (check_health node r r.health s).0).1
      (IsIdle-append (check_health node r r.health s).1 _ (check_health-IsIdle node r r.health s u)
        (sleep-IsIdle _ u.no_interval))
      (rounds-IsIdle node rs _ u)

-- A node that neither restarts its service nor pauses, whatever it finds.
pub IsAbandoned : NodeWorkflowConfig → Type 0
IsAbandoned node =
    (now : ℕ) (rs : List Round)
    → let (s, actions) = node_workflow node now rs in
      (sum is_restart actions ≡ 0) × (sum slept actions ≡ 0)

node_workflow-IsAbandoned : (node : NodeWorkflowConfig) → IsUnset node → IsAbandoned node
unfolding IsAbandoned node_workflow
node_workflow-IsAbandoned node u now rs =
    let idle =
      IsIdle-append (to_parent node (health_update false)) _ (to_parent-IsIdle node _ refl refl)
        (rounds-IsIdle node rs (start_state now) u) in
    (idle.no_restart, idle.no_pause)

-- In the plan made from a configuration file, the node workflow of every relay chain and of every
-- parachain never restarts its service, however often it is found inactive, and never pauses between
-- its rounds: the limit and the interval of the configuration are left out of the plan.
pub from_mgr_config-IsAbandoned :
    (relays : Dict (Dict ParaChainConfig))
    → PlanAll IsAbandoned (from_mgr_config relays).relay_plans
unfolding from_mgr_config
from_mgr_config-IsAbandoned relays =
    plan_relays-All IsAbandoned
      (λ name signal.
        node_workflow-IsAbandoned _ (record { no_restarts = refl; no_interval = refl }))
      (node_workflow-IsAbandoned _ (record { no_restarts = refl; no_interval = refl })) relays
