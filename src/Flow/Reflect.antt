-- ===== src/Flow/Reflect.antt =====
-- From a node of the graph to its statement, and to the nodes behind it: `reflect` of
-- aderyn_core/src/context/flow/utils.rs and `children` of flow.rs.
pub mod Children
use aderyn.Prelude.{ℕ, Option, none, some, List, [], ◌∷◌, ◌>>=◌}
use aderyn.Prelude.Assoc.{lookup}
use aderyn.Flow.Ast.{Context, AstNode}
use aderyn.Flow.Node.{
  CfgNode, CfgNodeDescriptor, start_node, end_node, variable_declaration_statement,
  expression_statement, placeholder_statement, break_statement, continue_statement,
  return_statement, emit_statement, revert_statement, try_statement, inline_assembly,
  if_statement_condition, while_statement_condition, for_statement_condition,
  do_while_statement_condition, block, unchecked_block, if_statement, while_statement,
  for_statement, do_while_statement,
}
use aderyn.Flow.Cfg.{Cfg, raw_successors}

-- the `match` of `CfgNodeDescriptor::reflect`
abbrev pub ast_node_id : CfgNodeDescriptor → Option ℕ
ast_node_id (start_node n) = none
ast_node_id (end_node n) = none
ast_node_id (variable_declaration_statement n) = some n
ast_node_id (expression_statement n) = some n
ast_node_id (placeholder_statement n) = some n
ast_node_id (break_statement n) = some n
ast_node_id (continue_statement n) = some n
ast_node_id (return_statement n) = some n
ast_node_id (emit_statement n) = some n
ast_node_id (revert_statement n) = some n
ast_node_id (inline_assembly n) = some n
ast_node_id (if_statement_condition n) = n
ast_node_id (while_statement_condition n) = n
ast_node_id (for_statement_condition n) = n
ast_node_id (do_while_statement_condition n) = n
ast_node_id (block n) = some n
ast_node_id (unchecked_block n) = some n
ast_node_id (if_statement n) = some n
ast_node_id (while_statement n) = some n
ast_node_id (for_statement n) = some n
ast_node_id (do_while_statement n) = some n
ast_node_id (try_statement n) = some n

-- `CfgNodeDescriptor::reflect`
abbrev pub reflect : Context → CfgNodeDescriptor → Option AstNode
reflect nodes nd = ast_node_id nd >>= nodes

-- `map(|c| cfg.nodes.get(&c).expect("cfg invalid!")).collect()`
abbrev pub nodes_of : Cfg → List ℕ → Option (List CfgNode)
nodes_of cfg [] = some []
nodes_of cfg (c ∷ cs) = do node ← lookup c cfg.nodes; rest ← nodes_of cfg cs; some (node ∷ rest)

-- `CfgNode::children`; `none` is the panic on an id that has no node
abbrev pub children : Cfg → CfgNode → Option (List CfgNode)
children cfg node = nodes_of cfg (raw_successors cfg node.id)
