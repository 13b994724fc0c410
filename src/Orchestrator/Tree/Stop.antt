-- ===== src/Orchestrator/Tree/Stop.antt =====
-- dix/orchestrator.go: what `StopTree` cancels after `StartTree`.
use dotidx.Prelude.{
  ℕ, zero, suc, ◌+◌, ◌≤◌, ◌≡◌, refl, sym, ap, ap₂, ◌∙◌, subst, ◌==◌, true, false, inl, inr,
  Bool-cases, List, ◌∷◌, if◌then◌else◌, arith,
}
use mathlib.Core.List.{Mem, mem-cons_self, mem-cons_of_mem}
use dotidx.Orchestrator.Tree.{
  Service, ServiceNode, ServiceNodes, node, no_nodes, more_nodes, Watchers, is_managed, cancel,
  start_and_watch_leaf, stop_leaf, watcher_ends, visit, process_node_recursive, process_nodes,
  start_tree, stop_tree,
}

abbrev managed_here : Service → ℕ
managed_here s = if is_managed s then 1 else 0

-- How many services of a tree are watched.
abbrev mutual
  managed : ServiceNode → ℕ
  managed (node s children) = managed_here s + managed_nodes children

  managed_nodes : ServiceNodes → ℕ
  managed_nodes no_nodes = 0
  managed_nodes (more_nodes n ns) = managed n + managed_nodes ns

-- `k` watchers from `i` on, cancelled one after another.
abbrev cancel_from : ℕ → ℕ → List ℕ → List ℕ
cancel_from i zero ids = ids
cancel_from i (suc k) ids = cancel_from (i + 1) k (i ∷ ids)

cancel_from-add :
    (i j k : ℕ) (ids : List ℕ)
    → cancel_from i (j + k) ids ≡ cancel_from (i + j) k (cancel_from i j ids)
cancel_from-add i zero k ids =
    let left : zero + k ≡ k = omega arith in
    let right : i ≡ i + zero = omega arith in
    ap (λ n. cancel_from i n ids) left ∙ ap (λ n. cancel_from n k ids) right
cancel_from-add i (suc j) k ids =
    let left : suc j + k ≡ suc (j + k) = omega arith in
    let right : i + 1 + j ≡ i + suc j = omega arith in
    ap (λ n. cancel_from i n ids) left
    ∙ cancel_from-add (i + 1) j k (i ∷ ids)
    ∙ ap (λ n. cancel_from n k (cancel_from (i + 1) j (i ∷ ids))) right

visit_managed :
    (leaf_action : Service → Watchers → Service × Watchers) (s : Service) (w : Watchers)
    → is_managed s ≡ true
    → visit leaf_action s w ≡ leaf_action s w
unfolding visit
visit_managed leaf_action s w e = rw e refl

visit_other :
    (leaf_action : Service → Watchers → Service × Watchers) (s : Service) (w : Watchers)
    → is_managed s ≡ false
    → visit leaf_action s w ≡ (s, w)
unfolding visit
visit_other leaf_action s w e = rw e refl

visit-started :
    (s : Service) (w : Watchers)
    → (visit start_and_watch_leaf s w).1.started ≡ w.started + managed_here s
unfolding visit start_and_watch_leaf cancel
visit-started s w = ground arith

-- A visit by `StopTree` to what one by `StartTree` leaves.
visit-cancelled :
    (s : Service) (w v : Watchers)
    → (visit stop_leaf (visit start_and_watch_leaf s w).0 v).1.cancelled
      ≡ cancel_from w.started (managed_here s) v.cancelled
unfolding start_and_watch_leaf stop_leaf cancel
visit-cancelled s w v = elim (Bool-cases (is_managed s)) [
  | inl e ↦
      rw (visit_managed start_and_watch_leaf s w e)
        (rw (visit_managed stop_leaf (start_and_watch_leaf s w).0 v e) (rw e refl))
  | inr e ↦
      rw (visit_other start_and_watch_leaf s w e) (rw (visit_other stop_leaf s v e) (rw e refl))
]

mutual
  unfolding process_node_recursive

  node-started :
      (n : ServiceNode) (w : Watchers)
      → (process_node_recursive start_and_watch_leaf n w).1.started ≡ w.started + managed n
  node-started (node s children) w =
      omega (arith, visit-started s w, nodes-started children (visit start_and_watch_leaf s w).1)

  nodes-started :
      (ns : ServiceNodes) (w : Watchers)
      → (process_nodes start_and_watch_leaf ns w).1.started ≡ w.started + managed_nodes ns
  nodes-started no_nodes w = omega arith
  nodes-started (more_nodes n ns) w = omega (
    arith,
    node-started n w,
    nodes-started ns (process_node_recursive start_and_watch_leaf n w).1,
  )

mutual
  unfolding process_node_recursive

  node-cancelled :
      (n : ServiceNode) (w v : Watchers)
      → (process_node_recursive stop_leaf
          (process_node_recursive start_and_watch_leaf n w).0
          v).1.cancelled
        ≡ cancel_from w.started (managed n) v.cancelled
  node-cancelled (node s children) w v =
      nodes-cancelled children (visit start_and_watch_leaf s w).1 _
      ∙ ap₂ (λ i ids. cancel_from i (managed_nodes children) ids) (visit-started s w)
          (visit-cancelled s w v)
      ∙ sym (cancel_from-add w.started (managed_here s) (managed_nodes children) v.cancelled)

  nodes-cancelled :
      (ns : ServiceNodes) (w v : Watchers)
      → (process_nodes stop_leaf (process_nodes start_and_watch_leaf ns w).0 v).1.cancelled
        ≡ cancel_from w.started (managed_nodes ns) v.cancelled
  nodes-cancelled no_nodes w v = refl
  nodes-cancelled (more_nodes n ns) w v =
      nodes-cancelled ns (process_node_recursive start_and_watch_leaf n w).1 _
      ∙ ap₂ (λ i ids. cancel_from i (managed_nodes ns) ids) (node-started n w)
          (node-cancelled n w v)
      ∙ sym (cancel_from-add w.started (managed n) (managed_nodes ns) v.cancelled)

Mem-cancel_from_tail : (i k id : ℕ) (ids : List ℕ) → Mem id ids → Mem id (cancel_from i k ids)
Mem-cancel_from_tail i zero id ids m = m
Mem-cancel_from_tail i (suc k) id ids m =
    Mem-cancel_from_tail (i + 1) k id (i ∷ ids) (mem-cons_of_mem i m)

Mem-cancel_from :
    (i k id : ℕ) (ids : List ℕ) → i ≤ id → suc id ≤ i + k → Mem id (cancel_from i k ids)
Mem-cancel_from i zero id ids low high = let no : ⊥ = omega (arith, low, high) in elim no [ ]
Mem-cancel_from i (suc k) id ids low high = elim (Bool-cases (i == id)) [
  | inl e ↦
      let same : i ≡ id = ground arith in
      Mem-cancel_from_tail (i + 1) k id (i ∷ ids) (subst (λ n. Mem n (i ∷ ids)) same mem-cons_self)
  | inr e ↦
      let later : i + 1 ≤ id = ground arith in
      Mem-cancel_from (i + 1) k id (i ∷ ids) later (omega (arith, high))
]

-- When the trees are stopped, the watcher of every service that was started with them is cancelled,
-- if none of them ended before.
stop_tree-start_tree :
    (roots : ServiceNodes) (w v : Watchers) (id : ℕ)
    → let (started_roots, after_start) = start_tree roots w in
      w.started ≤ id → suc id ≤ after_start.started → Mem id (stop_tree started_roots v).1.cancelled
unfolding start_tree stop_tree
stop_tree-start_tree roots w v id low high = rw (nodes-cancelled roots w v) (
    Mem-cancel_from w.started (managed_nodes roots) id v.cancelled low
      (omega (arith, high, nodes-started roots w)))

-- When a service that has a watcher is started again, and the old watcher, which that cancels, ends
-- afterwards, stopping the service cancels nothing: its new watcher goes on.
stop_leaf-watcher_ends :
    (s : Service) (w v : Watchers)
    → let (s', w') = start_and_watch_leaf s w in
      ((stop_leaf s' v).1.cancelled ≡ w.started ∷ v.cancelled)
      × (stop_leaf (watcher_ends s') v ≡ (watcher_ends s', v))
unfolding start_and_watch_leaf stop_leaf watcher_ends cancel
stop_leaf-watcher_ends s w v = (refl, refl)
