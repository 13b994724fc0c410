-- ===== src/Node/Tests.antt =====
-- A node, a cluster and a service with dependencies at concrete inputs.
use dotidx.Prelude.{
  ◌+◌, ◌-◌, ◌≤◌, min, ◌≡◌, refl, inl, inr, true, false, none, some, [], ◌∷◌, arith,
}
use dotidx.Node.{
  NodeWorkflowConfig, check_failed, inactive, active, Round, health_update, node_failed,
  restart_service, sleep, node_workflow, rounds, start_state, is_ready,
}
use dotidx.Node.Outage.{sum, is_restart, outage_restarts}
use dotidx.Node.Ready.{is_ready_sent, ready_sent_once}
use dotidx.Node.Cluster.{ClusterWorkflowConfig}
use dotidx.Node.Dependant.{DependentServiceConfig, dependent_service}

abbrev config : NodeWorkflowConfig
config = record {
  name = "polkadot";
  watch_interval = 30;
  max_restarts = 2;
  restart_backoff = 10;
  parent_workflow_id = "cluster";
  check_sync = true;
  ready_signal = "NodeReady";
}

abbrev down : Round
down = record { health = inactive; synced = none; delivered = true; now = 100 }

abbrev lost : Round
lost = record { health = check_failed; synced = none; delivered = true; now = 100 }

abbrev syncing : Round
syncing = record { health = active; synced = some false; delivered = true; now = 100 }

abbrev synced_round : Round
synced_round = record { health = active; synced = some true; delivered = true; now = 100 }

-- The third inactive round finds no restart left.
given_up :
    (node_workflow config 0 (down ∷ down ∷ down ∷ [])).1
    ≡ health_update false
      ∷ health_update false
      ∷ restart_service
      ∷ sleep 30
      ∷ health_update false
      ∷ sleep 20
      ∷ restart_service
      ∷ sleep 30
      ∷ health_update false
      ∷ node_failed
      ∷ sleep 30
      ∷ []
unfolding node_workflow
given_up = refl

outage_restarts_example :
    let (s', actions) = rounds config (down ∷ lost ∷ down ∷ down ∷ []) (start_state 0) in
    (sum is_restart actions ≡ min 3 (2 - 0))
    × (s'.restart_count ≡ 0 + sum is_restart actions)
    × (s'.restart_count ≤ 2)
unfolding start_state
outage_restarts_example =
    outage_restarts config (down ∷ lost ∷ down ∷ down ∷ []) (start_state 0)
      (inr refl, (inl refl, (inr refl, (inr refl, tt)))) (omega arith)

ready_sent_once_example :
    let (s', actions) =
      rounds config (down ∷ syncing ∷ synced_round ∷ synced_round ∷ []) (start_state 0) in
    (s'.ready_signal_sent ≡ true) × (sum is_ready_sent actions ≡ 1)
unfolding start_state is_ready
ready_sent_once_example =
    ready_sent_once config (down ∷ syncing ∷ synced_round ∷ synced_round ∷ []) (start_state 0)
      (record { named = refl; owned = refl })

abbrev cluster : ClusterWorkflowConfig
cluster = record { name = "relay"; replica_count = 2; quorum = 2; nodes = config ∷ config ∷ [] }

abbrev frontend : DependentServiceConfig
frontend = record {
  node_config = config;
  dependencies =
      record {
        workflow_id = "sidecar";
        signal_names = "SidecarReady1" ∷ "SidecarReady2" ∷ [];
        required_any = false;
        timeout_hours = 24;
      }
      ∷ [];
}

-- Nothing waits for the second sidecar, although all are asked for.
first_sidecar : (dependent_service (λ dep name. some true) frontend).0 ≡ "SidecarReady1" ∷ []
unfolding dependent_service
first_sidecar = refl
