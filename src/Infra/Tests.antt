-- ===== src/Infra/Tests.antt =====
-- A relay chain with one parachain that has two sidecars.
use dotidx.Prelude.{ℕ, zero, suc, [], ◌∷◌, All, String, Dict}
use dotidx.Infra.{infrastructure_workflow}
use dotidx.Infra.Plan.{
  ParaChainConfig, PlanAll, IsAbandoned, from_mgr_config, from_mgr_config-IsAbandoned,
}
use dotidx.Infra.Order.{Awaited, infrastructure_workflow-Awaited}
use dotidx.Infra.Delay.{nodes_of, WaitsInVain, infrastructure_workflow-WaitsInVain}

abbrev digit : ℕ → String
digit zero = "0"
digit (suc n) = "1"

abbrev chains : Dict (Dict ParaChainConfig)
chains =
    (
      "polkadot",
      ("polkadot", record { sidecar_count = 0 }) ∷ ("assethub", record { sidecar_count = 2 }) ∷ [],
    )
    ∷ []

infrastructure_workflow-Awaited_example :
    Awaited [] (infrastructure_workflow digit (from_mgr_config chains))
infrastructure_workflow-Awaited_example =
    infrastructure_workflow-Awaited digit (from_mgr_config chains)

from_mgr_config-IsAbandoned_example : PlanAll IsAbandoned (from_mgr_config chains).relay_plans
from_mgr_config-IsAbandoned_example = from_mgr_config-IsAbandoned chains

infrastructure_workflow-WaitsInVain_example :
    let actions = infrastructure_workflow digit (from_mgr_config chains) in
    All (WaitsInVain (nodes_of actions)) actions
infrastructure_workflow-WaitsInVain_example = infrastructure_workflow-WaitsInVain digit chains
