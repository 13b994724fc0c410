-- ===== src/Infra/Order.antt =====
-- cmd/dixmgr/workflow_infrastructure.go: the order of the starts. `Awaited seen actions` says that
-- every child that is started with dependencies is so after the signals of its dependencies, where
-- `seen` are those received before.
use dotidx.Prelude.{ℕ, zero, suc, ◌+◌, List, [], ◌∷◌, ◌++◌, All, String}
use mathlib.Core.List.{Mem, mem-cons_self, mem-cons_of_mem}
use dotidx.Node.Dependant.{DependencyInfo}
use dotidx.Infra.Names.{ready_signal_relay, ready_signal_para}
use dotidx.Infra.{
  ParaPlan, RelayPlan, InfrastructureWorkflowInput, Action, start_node, start_dependent, receive,
  start_sidecars, start_parachains, start_relays, all_sidecar_signals, wait_all, start_services,
  infrastructure_workflow,
}

abbrev Received : List String → List DependencyInfo → Type 0
Received seen deps = All (λ dep. All (λ name. Mem name seen) dep.signal_names) deps

unfoldable pub Awaited : List String → List Action → Type 0
Awaited seen [] = Unit
Awaited seen (start_node id node ∷ actions) = Awaited seen actions
Awaited seen (start_dependent id service ∷ actions) =
    Received seen service.dependencies × Awaited seen actions
Awaited seen (receive name ∷ actions) = Awaited (name ∷ seen) actions

-- What is received in the course of a list.
abbrev signals_after : List String → List Action → List String
signals_after seen [] = seen
signals_after seen (start_node id node ∷ actions) = signals_after seen actions
signals_after seen (start_dependent id service ∷ actions) = signals_after seen actions
signals_after seen (receive name ∷ actions) = signals_after (name ∷ seen) actions

Awaited-append :
    (seen : List String) (front back : List Action)
    → Awaited seen front
    → Awaited (signals_after seen front) back
    → Awaited seen (front ++ back)
unfolding Awaited
Awaited-append seen [] back f b = b
Awaited-append seen (start_node id node ∷ front) back f b = Awaited-append seen front back f b
Awaited-append seen (start_dependent id service ∷ front) back (d, f) b =
    (d, Awaited-append seen front back f b)
Awaited-append seen (receive name ∷ front) back f b = Awaited-append (name ∷ seen) front back f b

-- Nothing that is received is forgotten.
Mem-signals_after :
    (seen : List String) (actions : List Action) (name : String)
    → Mem name seen
    → Mem name (signals_after seen actions)
Mem-signals_after seen [] name m = m
Mem-signals_after seen (start_node id node ∷ actions) name m = Mem-signals_after seen actions name m
Mem-signals_after seen (start_dependent id service ∷ actions) name m =
    Mem-signals_after seen actions name m
Mem-signals_after seen (receive other ∷ actions) name m =
    Mem-signals_after (other ∷ seen) actions name (mem-cons_of_mem other m)

module _ (itoa : ℕ → String) where
  start_sidecars-Awaited :
      (relay chain : String) (i n : ℕ) (seen : List String)
      → Mem (ready_signal_para relay chain) seen
      → Awaited seen (start_sidecars itoa relay chain i n)
  unfolding Awaited start_sidecars
  start_sidecars-Awaited relay chain i zero seen m = tt
  start_sidecars-Awaited relay chain i (suc n) seen m =
      (((m, tt), tt), start_sidecars-Awaited relay chain (i + 1) n seen m)

  start_parachains-Awaited :
      (relay : String) (paras : List ParaPlan) (seen : List String)
      → Mem (ready_signal_relay relay) seen
      → Awaited seen (start_parachains itoa relay paras)
  unfolding Awaited start_parachains
  start_parachains-Awaited relay [] seen m = tt
  start_parachains-Awaited relay (para ∷ paras) seen m = (
    ((m, tt), tt),
    Awaited-append _ (start_sidecars itoa relay para.chain_id 0 para.sidecar_count) _
        (start_sidecars-Awaited relay para.chain_id 0 para.sidecar_count _ mem-cons_self)
        (start_parachains-Awaited relay paras _ (
          Mem-signals_after _ (start_sidecars itoa relay para.chain_id 0 para.sidecar_count) _
            (mem-cons_of_mem _ m))),
  )

  start_relays-Awaited :
      (plans : List RelayPlan) (seen : List String) → Awaited seen (start_relays itoa plans)
  unfolding Awaited start_relays
  start_relays-Awaited [] seen = tt
  start_relays-Awaited (plan ∷ plans) seen =
      Awaited-append _ (start_parachains itoa plan.relay_id plan.parachains) _
        (start_parachains-Awaited plan.relay_id plan.parachains _ mem-cons_self)
        (start_relays-Awaited plans _)

start_services-Awaited :
    (nginx_ready : String) (names seen : List String)
    → Mem nginx_ready seen
    → Awaited seen (start_services nginx_ready names)
unfolding Awaited start_services
start_services-Awaited nginx_ready [] seen m = tt
start_services-Awaited nginx_ready (name ∷ names) seen m =
    (((m, tt), tt), start_services-Awaited nginx_ready names seen m)

wait_all-Awaited : (names seen : List String) → Awaited seen (wait_all names)
unfolding Awaited wait_all
wait_all-Awaited [] seen = tt
wait_all-Awaited (name ∷ names) seen = wait_all-Awaited names (name ∷ seen)

wait_all-Received :
    (names seen : List String) → All (λ name. Mem name (signals_after seen (wait_all names))) names
unfolding wait_all
wait_all-Received [] seen = tt
wait_all-Received (name ∷ names) seen = (
  Mem-signals_after (name ∷ seen) (wait_all names) name mem-cons_self,
  wait_all-Received names (name ∷ seen),
)

-- Every child that is started with dependencies, that is each parachain, each sidecar, nginx and each
-- service after it, is started after the workflow has itself received all signals of those
-- dependencies, whatever the plan is.
pub infrastructure_workflow-Awaited :
    (itoa : ℕ → String) (input : InfrastructureWorkflowInput)
    → Awaited [] (infrastructure_workflow itoa input)
unfolding infrastructure_workflow Awaited
infrastructure_workflow-Awaited itoa input =
    let sidecars = all_sidecar_signals itoa input.relay_plans in
    Awaited-append [] (start_relays itoa input.relay_plans) _
      (start_relays-Awaited itoa input.relay_plans [])
      (Awaited-append _ (wait_all sidecars) _ (wait_all-Awaited sidecars _) (
        (wait_all-Received sidecars _, tt),
        Awaited-append _ (start_services _ input.after_nginx_services) _
            (start_services-Awaited _ input.after_nginx_services _ mem-cons_self) tt,
      ))
