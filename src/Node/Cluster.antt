-- ===== src/Node/Cluster.antt =====
-- cmd/dixmgr/workflow_cluster.go: redundant instances of a node, and the quorum of healthy ones.
use dotidx.Prelude.{
  sym, subst, take, lookup-insert, lookup-insert_self, lookup-insert_ne, ℕ, zero, suc, ◌+◌, ◌≡◌,
  refl, ap, ◌∙◌, ◌⊎◌, inl, inr, Bool, ◌≢◌, Option, none, some, List, [], ◌∷◌, ◌++◌, All, String,
  str_eq, arith, leb, if◌then◌else◌, length, Dict, lookup, insert,
}
use dotidx.Node.{NodeWorkflowConfig}

pub record ClusterWorkflowConfig : Type 0 where
  pub name : String
  pub replica_count : ℕ
  pub quorum : ℕ
  pub nodes : List NodeWorkflowConfig

-- The nodes that are started: `none` is the panic of `config.Nodes[i]`.
unfoldable pub start_replicas : ℕ → List NodeWorkflowConfig → Option (List NodeWorkflowConfig)
start_replicas zero nodes = some []
start_replicas (suc n) [] = none
start_replicas (suc n) (node ∷ nodes) = elim (start_replicas n nodes) [
  | none ↦ none
  | some started ↦ some (node ∷ started)
]

-- The count of the healthy nodes in the map `healthyNodes`.
unfoldable pub healthy_count : Dict Bool → ℕ
healthy_count [] = 0
healthy_count ((id, healthy) ∷ nodes) =
    let rest = healthy_count nodes in if healthy then suc rest else rest

pub record Update : Type 0 where
  pub node_id : String
  pub is_healthy : Bool

-- One update: the map, and whether the quorum is met.
unfoldable pub receive : ClusterWorkflowConfig → Update → Dict Bool → Dict Bool × Bool
unfolding healthy_count
receive config u healthy_nodes =
    let healthy_nodes = insert u.node_id u.is_healthy healthy_nodes in
    (healthy_nodes, leb config.quorum (healthy_count healthy_nodes))

-- The map after some updates, from the empty one on.
unfoldable pub receive_all : ClusterWorkflowConfig → List Update → Dict Bool → Dict Bool
unfolding receive
receive_all config [] healthy_nodes = healthy_nodes
receive_all config (u ∷ us) healthy_nodes = receive_all config us (receive config u healthy_nodes).0

-- The latest word on a node, and `d` where there is none.
abbrev pub latest : String → List Update → Option Bool → Option Bool
latest id [] d = d
latest id (u ∷ us) d = latest id us (if str_eq u.node_id id then some u.is_healthy else d)

abbrev pub one_if : Option Bool → ℕ
one_if none = 0
one_if (some healthy) = if healthy then 1 else 0

insert-healthy_count :
    (id : String) (healthy : Bool) (nodes : Dict Bool)
    → healthy_count (insert id healthy nodes) + one_if (lookup id nodes)
      ≡ healthy_count nodes + one_if (some healthy)
unfolding healthy_count insert lookup
insert-healthy_count id healthy [] = ground arith
insert-healthy_count id healthy ((j, w) ∷ nodes) =
    ground (arith, insert-healthy_count id healthy nodes)

-- Every replica is started, the first nodes of the configuration; with too few nodes configured the
-- workflow panics.
start_replicas_lem :
    (n : ℕ) (nodes : List NodeWorkflowConfig)
    → start_replicas n nodes ≡ (if leb n (length nodes) then some (take n nodes) else none)
unfolding start_replicas
start_replicas_lem zero nodes = ground arith
start_replicas_lem (suc n) [] = ground arith
start_replicas_lem (suc n) (node ∷ nodes) = ground (arith, start_replicas_lem n nodes)

lookup-receive_all :
    (config : ClusterWorkflowConfig) (id : String) (us : List Update) (m : Dict Bool)
    → lookup id (receive_all config us m) ≡ latest id us (lookup id m)
unfolding receive_all
lookup-receive_all config id [] m = refl
lookup-receive_all config id (u ∷ us) m =
    lookup-receive_all config id us (insert u.node_id u.is_healthy m)
    ∙ ap (latest id us) (lookup-insert u.node_id id u.is_healthy m)

-- How many of some nodes a map, or the latest of the updates, says to be healthy.
abbrev healthy_of : List String → Dict Bool → ℕ
healthy_of [] m = 0
healthy_of (id ∷ ids) m = one_if (lookup id m) + healthy_of ids m

abbrev pub healthy_latest : List String → List Update → ℕ
healthy_latest [] us = 0
healthy_latest (id ∷ ids) us = one_if (latest id us none) + healthy_latest ids us

abbrev pub Distinct : List String → Type 0
Distinct [] = Unit
Distinct (id ∷ ids) = All (λ j. j ≢ id) ids × Distinct ids

abbrev pub In : String → List String → Type 0
In id [] = ⊥
In id (j ∷ ids) = (j ≡ id) ⊎ In id ids

healthy_of-other :
    (id : String) (healthy : Bool) (ids : List String) (m : Dict Bool)
    → All (λ j. j ≢ id) ids
    → healthy_of ids (insert id healthy m) ≡ healthy_of ids m
healthy_of-other id healthy [] m a = refl
healthy_of-other id healthy (j ∷ ids) m a =
    rw (lookup-insert_ne id j healthy m (λ e. a.0 (sym e)), healthy_of-other id healthy ids m a.1)
      refl

In-ne : (j id : String) (ids : List String) → All (λ k. k ≢ j) ids → In id ids → id ≢ j
In-ne j id [] a i = elim i [ ]
In-ne j id (k ∷ ids) a (inl e) = subst (λ x. x ≢ j) e a.0
In-ne j id (k ∷ ids) a (inr i) = In-ne j id ids a.1 i

healthy_of-insert :
    (id : String) (healthy : Bool) (ids : List String) (m : Dict Bool)
    → Distinct ids
    → In id ids
    → healthy_of ids (insert id healthy m) + one_if (lookup id m)
      ≡ healthy_of ids m + one_if (some healthy)
healthy_of-insert id healthy [] m d i = elim i [ ]
healthy_of-insert id healthy (j ∷ ids) m d (inl e) =
    let a : All (λ k. k ≢ id) ids = subst (λ x. All (λ k. k ≢ x) ids) e d.0 in
    rw (e, lookup-insert_self id healthy m, healthy_of-other id healthy ids m a) (omega arith)
healthy_of-insert id healthy (j ∷ ids) m d (inr i) =
    rw (lookup-insert_ne id j healthy m (In-ne j id ids d.0 i))
      (omega (arith, healthy_of-insert id healthy ids m d.1 i))

-- The count of the map is that of its nodes.
receive_all-count :
    (config : ClusterWorkflowConfig) (ids : List String) (us : List Update) (m : Dict Bool)
    → Distinct ids
    → All (λ u. In u.node_id ids) us
    → healthy_count m ≡ healthy_of ids m
    → healthy_count (receive_all config us m) ≡ healthy_of ids (receive_all config us m)
unfolding receive_all
receive_all-count config ids [] m d a e = e
receive_all-count config ids (u ∷ us) m d a e =
    receive_all-count config ids us (insert u.node_id u.is_healthy m) d a.1 (
      omega (
        arith,
        insert-healthy_count u.node_id u.is_healthy m,
        healthy_of-insert u.node_id u.is_healthy ids m d a.0,
      ))

healthy_of-empty : (ids : List String) → healthy_of ids [] ≡ 0
unfolding lookup
healthy_of-empty [] = refl
healthy_of-empty (id ∷ ids) = omega (arith, healthy_of-empty ids)

healthy_of-latest :
    (config : ClusterWorkflowConfig) (ids : List String) (us : List Update)
    → healthy_of ids (receive_all config us []) ≡ healthy_latest ids us
unfolding lookup
healthy_of-latest config [] us = refl
healthy_of-latest config (id ∷ ids) us =
    rw (lookup-receive_all config id us [], healthy_of-latest config ids us) refl

receive_all-append :
    (config : ClusterWorkflowConfig) (us : List Update) (u : Update) (m : Dict Bool)
    → receive_all config (us ++ u ∷ []) m ≡ insert u.node_id u.is_healthy (receive_all config us m)
unfolding receive_all
receive_all-append config [] u m = refl
receive_all-append config (v ∷ us) u m =
    receive_all-append config us u (insert v.node_id v.is_healthy m)

-- After any updates of a cluster's nodes, in any order, an update finds the quorum met just if the
-- number of nodes whose latest update says healthy is not below it, counted over any list without
-- repeats in which all updated nodes are; a node without an update does not count.
receive-quorum :
    (config : ClusterWorkflowConfig) (ids : List String) (us : List Update) (u : Update)
    → Distinct ids
    → All (λ v. In v.node_id ids) (us ++ u ∷ [])
    → (receive config u (receive_all config us [])).1
      ≡ leb config.quorum (healthy_latest ids (us ++ u ∷ []))
unfolding receive healthy_count
receive-quorum config ids us u d a = ap (leb config.quorum) (
    ap healthy_count (sym (receive_all-append config us u []))
    ∙ receive_all-count config ids (us ++ u ∷ []) [] d a (sym (healthy_of-empty ids))
    ∙ healthy_of-latest config ids (us ++ u ∷ []))
