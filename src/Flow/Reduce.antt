-- ===== src/Flow/Reduce.antt =====
-- `Cfg::reduce` of aderyn_core/src/context/flow.rs: a reducible node is replaced by what it stands for.
pub mod Rewire
pub mod Total
pub mod Path
pub mod Invariant
pub mod Queue
pub mod Shape
pub mod Fewer
pub mod Work
pub mod Replace
pub mod Descriptor
use aderyn.Prelude.{ℕ, zero, suc, none, some, List, [], ◌∷◌}
use aderyn.Prelude.Assoc.{lookup, remove}
use aderyn.Flow.Ast.{Context}
use aderyn.Flow.Node.{
  CfgNode, CfgNodeDescriptor, block, unchecked_block, if_statement, while_statement, for_statement,
  do_while_statement,
}
use aderyn.Flow.Cfg.{
  Cfg, M, pure, ◌>>=◌, ◌>>◌, raw_predecessors, raw_successors, add_flow_edge, remove_flow_edge,
  remove_raw_edges_involving,
}
use aderyn.Flow.Reducibles.{
  reduce_block, reduce_unchecked_block, reduce_if_statement, reduce_while_statement,
  reduce_for_statement, reduce_do_while_statement,
}

unfoldable pub gets : {A : Type 0} → (Cfg → A) → M A
gets f g = some (f g, g)

unfoldable pub modify : (Cfg → Cfg) → M (Unit {0})
modify f g = some (tt, f g)

unfoldable pub panic : {A : Type 0} → M A
panic g = none

unfoldable pub for_each : (ℕ → M (Unit {0})) → List ℕ → M (Unit {0})
for_each body [] = pure tt
for_each body (x ∷ xs) = do body x; for_each body xs

-- `self.nodes.remove(&id).expect(…)`
unfoldable pub take_node : ℕ → M CfgNode
take_node id g = elim (lookup id g.nodes) [
  | none ↦ none
  | some node ↦ some (node, record g { nodes = remove id g.nodes })
]

-- step 5: each other descriptor is `unreachable!`
unfoldable pub reduce_descriptor : Context → CfgNodeDescriptor → M (ℕ × ℕ)
reduce_descriptor nodes (block i) = reduce_block nodes i
reduce_descriptor nodes (unchecked_block i) = reduce_unchecked_block nodes i
reduce_descriptor nodes (if_statement i) = reduce_if_statement nodes i
reduce_descriptor nodes (while_statement i) = reduce_while_statement nodes i
reduce_descriptor nodes (for_statement i) = reduce_for_statement nodes i
reduce_descriptor nodes (do_while_statement i) = reduce_do_while_statement nodes i
reduce_descriptor nodes _ = panic

unfoldable pub reduce : Context → ℕ → M (Unit {0})
reduce nodes reduction_candidate = do
  cfg_node ← take_node reduction_candidate
  predecessors ← gets (λ g. raw_predecessors g reduction_candidate)
  successors ← gets (λ g. raw_successors g reduction_candidate)
  for_each (λ pred. remove_flow_edge pred cfg_node.id) predecessors
  for_each (λ succ. remove_flow_edge cfg_node.id succ) successors
  (start_id, end_id) ← reduce_descriptor nodes cfg_node.nd
  for_each (λ pred. add_flow_edge pred start_id) predecessors
  for_each (λ succ. add_flow_edge end_id succ) successors
  modify (remove_raw_edges_involving reduction_candidate)

-- `while let Some(candidate) = cfg.reduction_queue.pop_front() { cfg.reduce(context, candidate); }`
unfoldable pub reduce_all : ℕ → Context → M (Unit {0})
reduce_all zero nodes g = elim g.reduction_queue [ [] ↦ some (tt, g) | _ ∷ _ ↦ none ]
reduce_all (suc fuel) nodes g = elim g.reduction_queue [
  | [] ↦ some (tt, g)
  | candidate ∷ queue ↦
      (reduce nodes candidate >> reduce_all fuel nodes) (record g { reduction_queue = queue })
]
