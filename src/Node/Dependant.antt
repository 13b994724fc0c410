-- ===== src/Node/Dependant.antt =====
-- cmd/dixmgr/workflow_dependant.go: a service that waits for others before it starts. `answer` says
-- what the selector receives for a signal of a dependency: the value of the signal, or `none` where
-- the timeout comes first, which is only logged.
use dotidx.Prelude.{
  ℕ, ◌≡◌, refl, ap, Bool-cases, inl, inr, Bool, true, false, Option, none, some, List, [], ◌∷◌,
  ◌++◌, All, String,
}
use dotidx.Node.{NodeWorkflowConfig}

pub record DependencyInfo : Type 0 where
  pub workflow_id : String
  pub signal_names : List String
  pub required_any : Bool
  pub timeout_hours : ℕ

pub record DependentServiceConfig : Type 0 where
  pub node_config : NodeWorkflowConfig
  pub dependencies : List DependencyInfo

-- The value of `ready` after the selection.
abbrev pub received : Option Bool → Bool
received none = false
received (some ready) = ready

-- The signals of a dependency that are waited for.
unfoldable pub wait_signals : (String → Option Bool) → List String → List String
wait_signals answer [] = []
wait_signals answer (name ∷ names) =
    name ∷ elim (received (answer name)) [ true ↦ [] | false ↦ wait_signals answer names ]

-- The signals waited for, in order, and the node that is then run as a child.
unfoldable pub wait_dependencies :
    (String → String → Option Bool) → List DependencyInfo → List String
unfolding wait_signals
wait_dependencies answer [] = []
wait_dependencies answer (dep ∷ deps) =
    wait_signals (answer dep.workflow_id) dep.signal_names ++ wait_dependencies answer deps

unfoldable pub dependent_service :
    (String → String → Option Bool) → DependentServiceConfig → List String × NodeWorkflowConfig
unfolding wait_dependencies
dependent_service answer config = (wait_dependencies answer config.dependencies, config.node_config)

-- The signals are waited for one after another up to the first that says ready.
pub data UntilReady (answer : String → Option Bool) (names waited : List String) : Type 0 where
  none_ready :
      All (λ name. received (answer name) ≡ false) names
      → waited ≡ names
      → UntilReady answer names waited
  one_ready :
      (before after : List String) (name : String)
      → names ≡ before ++ name ∷ after
      → All (λ name. received (answer name) ≡ false) before
      → received (answer name) ≡ true
      → waited ≡ before ++ name ∷ []
      → UntilReady answer names waited

wait_more :
    (answer : String → Option Bool) (name : String) (names waited : List String)
    → received (answer name) ≡ false
    → UntilReady answer names waited
    → UntilReady answer (name ∷ names) (name ∷ waited)
wait_more answer name names waited e (none_ready a w) = none_ready (e, a) (ap (◌∷◌ name) w)
wait_more answer name names waited e (one_ready before after n s b r w) =
    one_ready (name ∷ before) after n (ap (◌∷◌ name) s) (e, b) r (ap (◌∷◌ name) w)

wait_signals-UntilReady :
    (answer : String → Option Bool) (names : List String)
    → UntilReady answer names (wait_signals answer names)
unfolding wait_signals
wait_signals-UntilReady answer [] = none_ready tt refl
wait_signals-UntilReady answer (name ∷ names) = elim (Bool-cases (received (answer name))) [
  | inl e ↦ rw e (one_ready [] names name refl tt e refl)
  | inr e ↦ rw e (wait_more answer name names _ e (wait_signals-UntilReady answer names))
]

-- What is waited for is such a part for each dependency, in their order.
pub data Waits (answer : String → String → Option Bool)
    : List DependencyInfo → List String → Type 0 where
  no_more : Waits answer [] []
  then_next :
      (dep : DependencyInfo) (deps : List DependencyInfo) (first rest : List String)
      → UntilReady (answer dep.workflow_id) dep.signal_names first
      → Waits answer deps rest
      → Waits answer (dep ∷ deps) (first ++ rest)

wait_dependencies-Waits :
    (answer : String → String → Option Bool) (deps : List DependencyInfo)
    → Waits answer deps (wait_dependencies answer deps)
unfolding wait_dependencies
wait_dependencies-Waits answer [] = no_more
wait_dependencies-Waits answer (dep ∷ deps) =
    then_next dep deps _ _ (wait_signals-UntilReady (answer dep.workflow_id) dep.signal_names)
      (wait_dependencies-Waits answer deps)

-- A service waits for its dependencies in order, and for each of them, whether it asks for any of its
-- signals or for all, for signal after signal up to the first that says ready, or for all where none
-- does; and then the node is started, also after timeouts.
dependent_service_lem :
    (answer : String → String → Option Bool) (config : DependentServiceConfig)
    → let (waited, started) = dependent_service answer config in
      Waits answer config.dependencies waited × (started ≡ config.node_config)
unfolding dependent_service
dependent_service_lem answer config = (wait_dependencies-Waits answer config.dependencies, refl)
