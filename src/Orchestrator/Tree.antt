-- ===== src/Orchestrator/Tree.antt =====
-- dix/orchestrator.go: `StartTree` and `StopTree`, the traversal of the tree of services. Watchers are
-- numbered as they are started; `cancel_watcher` is the number of the one that it cancels.
pub mod Stop
use dotidx.Prelude.{
  ℕ, zero, suc, ◌+◌, ◌≤◌, ◌<◌, ◌≡◌, refl, sym, ap, ap₂, ◌∙◌, subst, ◌==◌, Bool, true, false, not,
  ◌&&◌, inl, inr, Bool-cases, Option, none, some, List, [], ◌∷◌, ◌++◌, String, str_eq,
  if◌then◌else◌, arith,
}
use mathlib.Core.List.{Mem, mem-cons_self, mem-cons_of_mem}

pub record Service : Type 0 where
  pub systemd_unit : String
  pub is_leaf : Bool
  pub restart_count : ℕ
  pub cancel_watcher : Option ℕ

mutual
  pub data ServiceNode : Type 0 where
    node : Service → ServiceNodes → ServiceNode

  pub data ServiceNodes : Type 0 where
    no_nodes : ServiceNodes
    more_nodes : ServiceNode → ServiceNodes → ServiceNodes

-- How many watchers were started, and which contexts were cancelled, the last one first.
pub record Watchers : Type 0 where
  pub started : ℕ
  pub cancelled : List ℕ

-- `if node.IsLeaf && node.SystemdUnit != ""`
abbrev pub is_managed : Service → Bool
is_managed s = s.is_leaf && not (str_eq s.systemd_unit "")

unfoldable pub cancel : Option ℕ → Watchers → Watchers
cancel none w = w
cancel (some id) w = record w { cancelled = id ∷ w.cancelled }

unfoldable pub start_and_watch_leaf : Service → Watchers → Service × Watchers
unfolding cancel
start_and_watch_leaf s w = (
  record s { restart_count = 0; cancel_watcher = some w.started },
  record (cancel s.cancel_watcher w) { started = w.started + 1 },
)

-- The action of `StopTree` on a leaf.
unfoldable pub stop_leaf : Service → Watchers → Service × Watchers
unfolding cancel
stop_leaf s w = (s, cancel s.cancel_watcher w)

-- The end of a watcher of the service, deferred in `watchService`.
unfoldable pub watcher_ends : Service → Service
watcher_ends s = record s { cancel_watcher = none }

module _ (leaf_action : Service → Watchers → Service × Watchers) where
  unfoldable pub visit : Service → Watchers → Service × Watchers
  visit s w = if is_managed s then leaf_action s w else (s, w)

  unfoldable mutual
    unfolding visit

    pub process_node_recursive : ServiceNode → Watchers → ServiceNode × Watchers
    process_node_recursive (node s children) w =
        let (s', w') = visit s w in
        let (children', w'') = process_nodes children w' in (node s' children', w'')

    pub process_nodes : ServiceNodes → Watchers → ServiceNodes × Watchers
    process_nodes no_nodes w = (no_nodes, w)
    process_nodes (more_nodes n ns) w =
        let (n', w') = process_node_recursive n w in
        let (ns', w'') = process_nodes ns w' in (more_nodes n' ns', w'')

-- `RootNodes` is the list of nodes.
unfoldable pub start_tree : ServiceNodes → Watchers → ServiceNodes × Watchers
unfolding process_node_recursive
start_tree = process_nodes start_and_watch_leaf

unfoldable pub stop_tree : ServiceNodes → Watchers → ServiceNodes × Watchers
unfolding process_node_recursive
stop_tree = process_nodes stop_leaf
