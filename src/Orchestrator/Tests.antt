-- ===== src/Orchestrator/Tests.antt =====
-- A manager with three restarts, and a tree of a relay chain with its parachain.
use dotidx.Prelude.{suc, ◌≤◌, refl, true, false, none, some, [], ◌∷◌, arith}
use dotidx.Orchestrator.Systemd.{OrchestratorConfig, active_state, read_active, Job}
use dotidx.Orchestrator.Watch.{IsOutage, watch-IsOutage, IsDown}
use dotidx.Orchestrator.Tree.{
  Service, ServiceNodes, node, no_nodes, more_nodes, Watchers, start_tree, process_nodes, visit,
  start_and_watch_leaf, cancel,
}
use dotidx.Orchestrator.{Tick, watch, initial_state}

abbrev config : OrchestratorConfig
config = record {
  watch_interval = 30;
  max_restarts = 3;
  restart_backoff = 5;
  operation_timeout = 0;
}

abbrev job : Job
job = record { job_id = some 7; result = some (2000, "done") }

abbrev down : Tick
down = record { properties = active_state "failed"; ctx_done = false; restart = job }

down-IsDown : IsDown down
unfolding read_active
down-IsDown = record { inactive = λ e. ground arith; running = refl }

watch-IsOutage_example :
    IsOutage config 0 3 (watch config (down ∷ down ∷ down ∷ down ∷ []) (initial_state none))
unfolding initial_state
watch-IsOutage_example =
    watch-IsOutage config (down ∷ down ∷ down ∷ down ∷ []) (initial_state none) 3
      (down-IsDown, (down-IsDown, (down-IsDown, (down-IsDown, tt)))) refl

abbrev leaf : Service
leaf = record {
  systemd_unit = "relay.service";
  is_leaf = true;
  restart_count = 0;
  cancel_watcher = none;
}

abbrev roots : ServiceNodes
roots = more_nodes (node leaf (more_nodes (node leaf no_nodes) no_nodes)) no_nodes

abbrev fresh : Watchers
fresh = record { started = 0; cancelled = [] }

two_started : suc 1 ≤ (start_tree roots fresh).1.started
unfolding start_tree process_nodes visit start_and_watch_leaf cancel
two_started = omega arith
