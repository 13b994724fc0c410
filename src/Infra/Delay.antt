-- ===== src/Infra/Delay.antt =====
-- cmd/dixmgr/workflow_infrastructure.go with workflow_dependant.go and workflow_node.go: which of the
-- signals that a child waits for it receives. A node sends its ready signal to its parent workflow.
use dotidx.Prelude.{
  ℕ, zero, suc, ◌+◌, ◌≡◌, ◌≢◌, refl, ap, ap₂, inl, inr, ◌⊎◌, Bool, true, false, Option, none, some,
  List, [], ◌∷◌, ◌++◌, All, All-append, String, str_eq, eq_iff, ◌&&◌, ◌||◌, if◌then◌else◌, arith,
  Dict,
}
use dotidx.Node.{NodeWorkflowConfig}
use dotidx.Node.Dependant.{DependencyInfo, wait_signals, wait_dependencies, dependent_service}
use dotidx.Infra.Names.{workflow_id_infra, infra≢para, infra≢sidecar, infra≢svc}
use dotidx.Infra.Plan.{ParaChainConfig, PlanAll, plan_relays-All, from_mgr_config}
use dotidx.Infra.{
  ParaPlan, RelayPlan, InfrastructureWorkflowInput, Action, start_node, start_dependent, receive,
  start_sidecars, start_parachains, start_relays, all_sidecar_signals, wait_all, start_services,
  infrastructure_workflow,
}

-- Whether a node, when it is ready, sends this signal to this workflow.
unfoldable pub sends : NodeWorkflowConfig → String → String → Bool
sends node id name =
    if str_eq node.ready_signal "" || str_eq node.parent_workflow_id ""
    then false
    else str_eq node.parent_workflow_id id && str_eq node.ready_signal name

-- What a workflow receives when all these nodes become ready.
unfoldable pub signals_to : List NodeWorkflowConfig → String → String → Option Bool
unfolding sends
signals_to [] id name = none
signals_to (node ∷ nodes) id name =
    let rest = signals_to nodes id name in if sends node id name then some true else rest

-- The nodes that are started, sooner or later.
unfoldable pub nodes_of : List Action → List NodeWorkflowConfig
nodes_of [] = []
nodes_of (start_node id node ∷ actions) = node ∷ nodes_of actions
nodes_of (start_dependent id service ∷ actions) = service.node_config ∷ nodes_of actions
nodes_of (receive name ∷ actions) = nodes_of actions

-- All signals of the dependencies.
unfoldable pub signals_of : List DependencyInfo → List String
signals_of [] = []
signals_of (dep ∷ deps) = dep.signal_names ++ signals_of deps

-- The workflow that a node reports to is that of the infrastructure.
abbrev Reports : NodeWorkflowConfig → Type 0
Reports node = (node.parent_workflow_id ≡ workflow_id_infra) ⊎ (node.parent_workflow_id ≡ "")

sends_none :
    (node : NodeWorkflowConfig) (id name : String)
    → Reports node
    → workflow_id_infra ≢ id
    → sends node id name ≡ false
unfolding sends
sends_none node id name (inl e) ne = ground (arith, e, ne, eq_iff node.parent_workflow_id id)
sends_none node id name (inr e) ne = ground (arith, e, eq_iff node.parent_workflow_id "")

signals_to-none :
    (nodes : List NodeWorkflowConfig) (id name : String)
    → All Reports nodes
    → workflow_id_infra ≢ id
    → signals_to nodes id name ≡ none
unfolding signals_to
signals_to-none [] id name a ne = refl
signals_to-none (node ∷ nodes) id name (r, a) ne =
    rw (sends_none node id name r ne) (signals_to-none nodes id name a ne)

wait_signals-none :
    (answer : String → Option Bool) (names : List String)
    → ((name : String) → answer name ≡ none)
    → wait_signals answer names ≡ names
unfolding wait_signals
wait_signals-none answer [] e = refl
wait_signals-none answer (name ∷ names) e =
    rw (e name) (ap (◌∷◌ name) (wait_signals-none answer names e))

wait_dependencies-none :
    (answer : String → Option Bool) (deps : List DependencyInfo)
    → ((name : String) → answer name ≡ none)
    → wait_dependencies (λ id. answer) deps ≡ signals_of deps
unfolding wait_dependencies signals_of
wait_dependencies-none answer [] e = refl
wait_dependencies-none answer (dep ∷ deps) e =
    ap₂ ◌++◌ (wait_signals-none answer dep.signal_names e) (wait_dependencies-none answer deps e)

-- Each start is of a node that reports to the infrastructure workflow, and the child that waits for
-- signals is not that workflow.
abbrev Apart : Action → Type 0
Apart (start_node id node) = Reports node
Apart (start_dependent id service) = Reports service.node_config × (workflow_id_infra ≢ id)
Apart (receive name) = Unit

module _ (itoa : ℕ → String) where
  start_sidecars-Apart :
      (relay chain : String) (i n : ℕ) → All Apart (start_sidecars itoa relay chain i n)
  unfolding start_sidecars
  start_sidecars-Apart relay chain i zero = tt
  start_sidecars-Apart relay chain i (suc n) =
      ((inl refl, infra≢sidecar itoa relay chain i), start_sidecars-Apart relay chain (i + 1) n)

  start_parachains-Apart :
      (relay : String) (paras : List ParaPlan)
      → All (λ para. Reports para.node) paras
      → All Apart (start_parachains itoa relay paras)
  unfolding start_parachains
  start_parachains-Apart relay [] a = tt
  start_parachains-Apart relay (para ∷ paras) (r, a) = (
    (r, infra≢para relay para.chain_id),
    (
      tt,
      All-append Apart (start_sidecars itoa relay para.chain_id 0 para.sidecar_count) _
          (start_sidecars-Apart relay para.chain_id 0 para.sidecar_count)
          (start_parachains-Apart relay paras a),
    ),
  )

  start_relays-Apart :
      (plans : List RelayPlan) → PlanAll Reports plans → All Apart (start_relays itoa plans)
  unfolding start_relays PlanAll
  start_relays-Apart [] a = tt
  start_relays-Apart (plan ∷ plans) ((r, ps), a) = (
    r,
    (
      tt,
      All-append Apart (start_parachains itoa plan.relay_id plan.parachains) _
          (start_parachains-Apart plan.relay_id plan.parachains ps) (start_relays-Apart plans a),
    ),
  )

wait_all-Apart : (names : List String) → All Apart (wait_all names)
unfolding wait_all
wait_all-Apart [] = tt
wait_all-Apart (name ∷ names) = (tt, wait_all-Apart names)

start_services-Apart :
    (nginx_ready : String) (names : List String) → All Apart (start_services nginx_ready names)
unfolding start_services
start_services-Apart nginx_ready [] = tt
start_services-Apart nginx_ready (name ∷ names) =
    ((inl refl, infra≢svc name), start_services-Apart nginx_ready names)

infrastructure_workflow-Apart :
    (itoa : ℕ → String) (input : InfrastructureWorkflowInput)
    → PlanAll Reports input.relay_plans
    → All Apart (infrastructure_workflow itoa input)
unfolding infrastructure_workflow
infrastructure_workflow-Apart itoa input a =
    All-append Apart (start_relays itoa input.relay_plans) _
      (start_relays-Apart itoa input.relay_plans a)
      (All-append Apart (wait_all _) _ (wait_all-Apart (all_sidecar_signals itoa input.relay_plans))
        (
          (inl refl, infra≢svc input.nginx_service),
          (
            tt,
            All-append Apart (start_services _ input.after_nginx_services) _
                (start_services-Apart _ input.after_nginx_services) (tt, tt),
          ),
        ))

nodes_of-Reports : (actions : List Action) → All Apart actions → All Reports (nodes_of actions)
unfolding nodes_of
nodes_of-Reports [] a = tt
nodes_of-Reports (start_node id node ∷ actions) (r, a) = (r, nodes_of-Reports actions a)
nodes_of-Reports (start_dependent id service ∷ actions) ((r, ne), a) =
    (r, nodes_of-Reports actions a)
nodes_of-Reports (receive name ∷ actions) (r, a) = nodes_of-Reports actions a

-- A child with dependencies waits for the timeouts of all its signals, even if every node in the list
-- becomes ready at once.
abbrev pub WaitsInVain : List NodeWorkflowConfig → Action → Type 0
WaitsInVain nodes (start_node id node) = Unit
WaitsInVain nodes (start_dependent id service) =
    let (waited, started) = dependent_service (λ dep. signals_to nodes id) service in
    (waited ≡ signals_of service.dependencies) × ((name : String) → signals_to nodes id name ≡ none)
WaitsInVain nodes (receive name) = Unit

Apart-WaitsInVain :
    (nodes : List NodeWorkflowConfig) (actions : List Action)
    → All Reports nodes
    → All Apart actions
    → All (WaitsInVain nodes) actions
unfolding dependent_service
Apart-WaitsInVain nodes [] r a = tt
Apart-WaitsInVain nodes (start_node id node ∷ actions) r (p, a) =
    (tt, Apart-WaitsInVain nodes actions r a)
Apart-WaitsInVain nodes (start_dependent id service ∷ actions) r ((p, ne), a) =
    let silent = λ (name : String). signals_to-none nodes id name r ne in
    (
      (wait_dependencies-none (signals_to nodes id) service.dependencies silent, silent),
      Apart-WaitsInVain nodes actions r a,
    )
Apart-WaitsInVain nodes (receive name ∷ actions) r (p, a) =
    (tt, Apart-WaitsInVain nodes actions r a)

-- In the run of a plan made from a configuration file, every child that depends on others receives
-- none of the signals that it waits for, and so waits for the timeout of each of them, even if every
-- node of the plan becomes ready: nodes send their ready signals to the infrastructure workflow only,
-- which does not pass them on.
pub infrastructure_workflow-WaitsInVain :
    (itoa : ℕ → String) (relays : Dict (Dict ParaChainConfig))
    → let actions = infrastructure_workflow itoa (from_mgr_config relays) in
      All (WaitsInVain (nodes_of actions)) actions
unfolding from_mgr_config
infrastructure_workflow-WaitsInVain itoa relays =
    let a =
      infrastructure_workflow-Apart itoa (from_mgr_config relays)
        (plan_relays-All Reports (λ name signal. inl refl) (inr refl) relays) in
    Apart-WaitsInVain _ _ (nodes_of-Reports _ a) a
