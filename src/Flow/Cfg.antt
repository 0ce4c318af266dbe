-- ===== src/Flow/Cfg.antt =====
-- aderyn_core/src/context/flow.rs: the graph, its raw operations and `add_node`.
pub mod Returns
pub mod Template
pub mod Built
pub mod Rules
pub mod Edges
use aderyn.Prelude.{
  ℕ, ◌+◌, Bool, Option, none, some, List, [], ◌∷◌, ◌++◌, map, ◌==◌, if◌then◌else◌, is_some,
  contains, length,
}
use aderyn.Prelude.Assoc.{lookup, insert, remove}
use aderyn.Flow.Node.{CfgNode, CfgNodeDescriptor, is_reducible}

pub record Cfg : Type 0 where
  pub nodes : List (ℕ × CfgNode)
  pub adj_list : List (ℕ × List ℕ)
  pub next_available_id : ℕ
  pub reduction_queue : List ℕ
  pub start_end_pairs : List (ℕ × ℕ)
  pub start_cond_pairs : List (ℕ × ℕ)
  pub start_loop_expr : List (ℕ × ℕ)
  pub loop_expr_start : List (ℕ × ℕ)
  pub cond_start_pairs : List (ℕ × ℕ)

-- `Cfg::new`
abbrev pub new : Cfg
new = record {
  nodes = [];
  adj_list = [];
  next_available_id = 0;
  reduction_queue = [];
  start_end_pairs = [];
  start_cond_pairs = [];
  start_loop_expr = [];
  loop_expr_start = [];
  cond_start_pairs = [];
}

-- A method that mutates the graph. `none` is a panic, or fuel that has run out.
abbrev pub M : Type 0 → Type 0
M A = Cfg → Option (A × Cfg)

unfoldable pub pure : {A : Type 0} → A → M A
pure a g = some (a, g)

-- These stay shut, so that a goal shows the step that comes next.
infixl 5 ◌>>=◌ ◌>>◌
unfoldable pub ◌>>=◌ : {A B : Type 0} → M A → (A → M B) → M B
◌>>=◌ m f g = elim (m g) [ none ↦ none | some (a, h) ↦ f a h ]

abbrev pub ◌>>◌ : {B : Type 0} → M (Unit {0}) → M B → M B
m >> k = m >>= λ _. k

unfoldable pub add_raw_node : ℕ → CfgNodeDescriptor → Cfg → Cfg
add_raw_node id nd g = record g { nodes = insert id (record { id = id; nd = nd }) g.nodes }

abbrev pub or_nil : Option (List ℕ) → List ℕ
or_nil none = []
or_nil (some successors) = successors

-- `raw_successors`: a missing entry is the empty vector
unfoldable pub raw_successors : Cfg → ℕ → List ℕ
raw_successors g id = or_nil (lookup id g.adj_list)

-- the entry of `from` is made, or `to` is pushed on it
unfoldable pub add_raw_directed_edge : ℕ → ℕ → Cfg → Cfg
unfolding raw_successors
add_raw_directed_edge from to g = record g {
  adj_list = insert from (raw_successors g from ++ to ∷ []) g.adj_list;
}

-- `retain_mut(|x| *x != to)`
unfoldable pub retain_ne : ℕ → List ℕ → List ℕ
retain_ne to [] = []
retain_ne to (x ∷ xs) = if x == to then retain_ne to xs else x ∷ retain_ne to xs

-- a missing entry is a panic
unfoldable pub remove_raw_directed_edge : ℕ → ℕ → M (Unit {0})
remove_raw_directed_edge from to g = elim (lookup from g.adj_list) [
  | none ↦ none
  | some existing ↦
      some (tt, record g { adj_list = insert from (retain_ne to existing) g.adj_list })
]

-- the keys whose vector holds `id`, in the order of the map
unfoldable pub pointing_to : ℕ → List (ℕ × List ℕ) → List ℕ
pointing_to id [] = []
pointing_to id ((from, to_list) ∷ m) =
    if contains to_list id then from ∷ pointing_to id m else pointing_to id m

unfoldable pub raw_predecessors : Cfg → ℕ → List ℕ
raw_predecessors g id = pointing_to id g.adj_list

-- `for (_, to_list) in self.adj_list.iter_mut()`
unfoldable pub retain_all : ℕ → List (ℕ × List ℕ) → List (ℕ × List ℕ)
retain_all id [] = []
retain_all id ((from, to_list) ∷ m) = (from, retain_ne id to_list) ∷ retain_all id m

unfoldable pub remove_raw_edges_involving : ℕ → Cfg → Cfg
remove_raw_edges_involving id g = record g { adj_list = retain_all id (remove id g.adj_list) }

unfoldable pub reset_raw_successors : ℕ → ℕ → Cfg → Cfg
unfolding add_raw_directed_edge
reset_raw_successors id to g =
    add_raw_directed_edge id to (record g { adj_list = remove id g.adj_list })

abbrev pub with_next : Cfg → Cfg
with_next g = record g { next_available_id = g.next_available_id + 1 }

-- `self.reduction_queue.push_back(node_id)`, if the node is reducible
abbrev pub queued : ℕ → CfgNodeDescriptor → Cfg → Cfg
queued id nd g =
    if is_reducible nd then record g { reduction_queue = g.reduction_queue ++ id ∷ [] } else g

-- what `add_node` makes of the graph between its two assertions
abbrev pub with_node : CfgNodeDescriptor → Cfg → Cfg
with_node nd g = add_raw_node g.next_available_id nd (queued g.next_available_id nd (with_next g))

abbrev pub has_node : Cfg → ℕ → Bool
has_node g id = is_some (lookup id g.nodes)

unfoldable pub add_node : CfgNodeDescriptor → M ℕ
add_node nd g =
    if has_node g g.next_available_id
    then none
    else if has_node (with_node nd g) g.next_available_id
    then some (g.next_available_id, with_node nd g)
    else none

unfoldable pub add_flow_edge : ℕ → ℕ → M (Unit {0})
add_flow_edge from to g = some (tt, add_raw_directed_edge from to g)

unfoldable pub remove_flow_edge : ℕ → ℕ → M (Unit {0})
remove_flow_edge from to = remove_raw_directed_edge from to

-- `start_end_pairs.insert` and the like
unfoldable pub insert_start_end : ℕ → ℕ → M (Unit {0})
insert_start_end k v g = some (tt, record g { start_end_pairs = insert k v g.start_end_pairs })

unfoldable pub insert_start_cond : ℕ → ℕ → M (Unit {0})
insert_start_cond k v g = some (tt, record g { start_cond_pairs = insert k v g.start_cond_pairs })

unfoldable pub insert_start_loop_expr : ℕ → ℕ → M (Unit {0})
insert_start_loop_expr k v g =
    some (tt, record g { start_loop_expr = insert k v g.start_loop_expr })

unfoldable pub insert_loop_expr_start : ℕ → ℕ → M (Unit {0})
insert_loop_expr_start k v g =
    some (tt, record g { loop_expr_start = insert k v g.loop_expr_start })

unfoldable pub insert_cond_start : ℕ → ℕ → M (Unit {0})
insert_cond_start k v g = some (tt, record g { cond_start_pairs = insert k v g.cond_start_pairs })

sum_lengths : List (ℕ × List ℕ) → ℕ
sum_lengths [] = 0
sum_lengths ((k, to_list) ∷ m) = length to_list + sum_lengths m

-- `total_edges`
unfoldable pub total_edges : Cfg → ℕ
unfolding sum_lengths
total_edges g = sum_lengths g.adj_list

-- `total_nodes`; `none` is the debug assertion, in a build that has it
unfoldable pub total_nodes : Cfg → Option ℕ
total_nodes g = if g.next_available_id == length g.nodes then some g.next_available_id else none
