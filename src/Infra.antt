-- ===== src/Infra.antt =====
-- cmd/dixmgr/workflow_infrastructure.go and helpers.go: `InfrastructureWorkflow`, which starts the
-- services in their order, as the list of what it does. `itoa` is `%d` of fmt. The children are the
-- order of the starts (`Order`) and what the children wait for (`Delay`).
pub mod Names
pub mod Order
pub mod Plan
pub mod Delay
mod Tests
use dotidx.Prelude.{ℕ, zero, suc, ◌+◌, ◌*◌, Bool, true, false, List, [], ◌∷◌, ◌++◌, String}
use dotidx.Node.{NodeWorkflowConfig}
use dotidx.Node.Dependant.{DependencyInfo, DependentServiceConfig}
use dotidx.Infra.Names.{
  str_append, ready_signal_relay, ready_signal_para, ready_signal_sidecar, ready_signal_svc,
  workflow_id_infra, workflow_id_node_relay, workflow_id_node_para, workflow_id_sidecar,
  workflow_id_svc,
}

pub record ParaPlan : Type 0 where
  pub chain_id : String
  pub node : NodeWorkflowConfig
  pub sidecar_count : ℕ

pub record RelayPlan : Type 0 where
  pub relay_id : String
  pub node : NodeWorkflowConfig
  pub parachains : List ParaPlan

pub record InfrastructureWorkflowInput : Type 0 where
  pub relay_plans : List RelayPlan
  pub nginx_service : String
  pub after_nginx_services : List String

-- A child workflow that is started under an identifier, or a signal that is received, which the
-- workflow waits for without a timeout.
pub data Action : Type 0 where
  start_node : String → NodeWorkflowConfig → Action
  start_dependent : String → DependentServiceConfig → Action
  receive : String → Action

abbrev second : ℕ
second = 1_000_000_000

-- The settings that sidecars, nginx and the services share.
abbrev pub service_node : String → String → NodeWorkflowConfig
service_node name ready_signal = record {
  name = name;
  watch_interval = 30 * second;
  max_restarts = 5;
  restart_backoff = 10 * second;
  parent_workflow_id = workflow_id_infra;
  check_sync = false;
  ready_signal = ready_signal;
}

-- A service that depends on signals of the infrastructure workflow, for 24 hours each.
abbrev pub depends_on : List String → NodeWorkflowConfig → DependentServiceConfig
depends_on signal_names node = record {
  node_config = node;
  dependencies =
      record {
        workflow_id = workflow_id_infra;
        signal_names = signal_names;
        required_any = false;
        timeout_hours = 24;
      }
      ∷ [];
}

unfoldable pub wait_all : List String → List Action
wait_all [] = []
wait_all (name ∷ names) = receive name ∷ wait_all names

unfoldable pub start_services : String → List String → List Action
start_services nginx_ready [] = []
start_services nginx_ready (name ∷ names) =
    start_dependent (workflow_id_svc name)
      (depends_on (nginx_ready ∷ []) (service_node name (ready_signal_svc name)))
    ∷ start_services nginx_ready names

module _ (itoa : ℕ → String) where
  -- The sidecars of a parachain, `n` of them from index `i` on.
  unfoldable pub start_sidecars : String → String → ℕ → ℕ → List Action
  start_sidecars relay chain i zero = []
  start_sidecars relay chain i (suc n) =
      start_dependent (workflow_id_sidecar itoa relay chain i) (
        depends_on (ready_signal_para relay chain ∷ []) (
          service_node
            (str_append "Sidecar-"
              (str_append relay (str_append "-" (str_append chain (str_append "-" (itoa i))))))
            (ready_signal_sidecar itoa relay chain i)))
      ∷ start_sidecars relay chain (i + 1) n

  unfoldable pub sidecar_signals : String → String → ℕ → ℕ → List String
  sidecar_signals relay chain i zero = []
  sidecar_signals relay chain i (suc n) =
      ready_signal_sidecar itoa relay chain i ∷ sidecar_signals relay chain (i + 1) n

  unfoldable pub start_parachains : String → List ParaPlan → List Action
  unfolding start_sidecars
  start_parachains relay [] = []
  start_parachains relay (para ∷ paras) =
      start_dependent (workflow_id_node_para relay para.chain_id)
        (depends_on (ready_signal_relay relay ∷ []) para.node)
      ∷ receive (ready_signal_para relay para.chain_id)
      ∷ (start_sidecars relay para.chain_id 0 para.sidecar_count ++ start_parachains relay paras)

  unfoldable pub start_relays : List RelayPlan → List Action
  unfolding start_parachains
  start_relays [] = []
  start_relays (plan ∷ plans) =
      start_node (workflow_id_node_relay plan.relay_id) plan.node
      ∷ receive (ready_signal_relay plan.relay_id)
      ∷ (start_parachains plan.relay_id plan.parachains ++ start_relays plans)

  -- `allSidecarSignals` after the first phase.
  unfoldable pub para_signals : String → List ParaPlan → List String
  unfolding sidecar_signals
  para_signals relay [] = []
  para_signals relay (para ∷ paras) =
      sidecar_signals relay para.chain_id 0 para.sidecar_count ++ para_signals relay paras

  unfoldable pub all_sidecar_signals : List RelayPlan → List String
  unfolding para_signals
  all_sidecar_signals [] = []
  all_sidecar_signals (plan ∷ plans) =
      para_signals plan.relay_id plan.parachains ++ all_sidecar_signals plans

  unfoldable pub infrastructure_workflow : InfrastructureWorkflowInput → List Action
  unfolding start_relays all_sidecar_signals wait_all start_services
  infrastructure_workflow input =
      let sidecars = all_sidecar_signals input.relay_plans in
      let nginx_ready = ready_signal_svc input.nginx_service in
      start_relays input.relay_plans
      ++ (wait_all sidecars
          ++ (start_dependent (workflow_id_svc input.nginx_service)
                (depends_on sidecars (service_node "Nginx" nginx_ready))
              ∷ receive nginx_ready
              ∷ (start_services nginx_ready input.after_nginx_services
                  ++ (receive "Shutdown" ∷ []))))
