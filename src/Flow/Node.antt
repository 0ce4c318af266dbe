-- ===== src/Flow/Node.antt =====
-- The nodes of the graph: aderyn_core/src/context/flow/voids.rs, flow/kind.rs and the descriptors of
-- flow.rs. A primitive or a reducible keeps the id of its statement.
use aderyn.Prelude.{ℕ, Option, Bool, true, false}

pub data CfgStartNode : Type 0 where
  start : CfgStartNode
  start_function_body start_modifier_body start_block start_unchecked_block : ℕ → CfgStartNode
  start_if : ℕ → CfgStartNode
  start_if_cond start_if_true start_if_false : CfgStartNode
  start_while : ℕ → CfgStartNode
  start_while_cond start_while_body : CfgStartNode
  start_for : ℕ → CfgStartNode
  start_for_init_exp start_for_cond start_for_loop_exp start_for_body : CfgStartNode
  start_do_while : ℕ → CfgStartNode
  start_do_while_cond start_do_while_body : CfgStartNode

pub data CfgEndNode : Type 0 where
  end : CfgEndNode
  end_function_body end_modifier_body end_block end_unchecked_block : ℕ → CfgEndNode
  end_if : ℕ → CfgEndNode
  end_if_cond end_if_true end_if_false : CfgEndNode
  end_while : ℕ → CfgEndNode
  end_while_cond end_while_body : CfgEndNode
  end_for : ℕ → CfgEndNode
  end_for_init_exp end_for_cond end_for_loop_exp end_for_body : CfgEndNode
  end_do_while : ℕ → CfgEndNode
  end_do_while_cond end_do_while_body : CfgEndNode

pub data CfgNodeDescriptor : Type 0 where
  start_node : CfgStartNode → CfgNodeDescriptor
  end_node : CfgEndNode → CfgNodeDescriptor
  variable_declaration_statement expression_statement placeholder_statement : ℕ → CfgNodeDescriptor
  break_statement continue_statement return_statement emit_statement : ℕ → CfgNodeDescriptor
  revert_statement try_statement inline_assembly : ℕ → CfgNodeDescriptor
  if_statement_condition while_statement_condition : Option ℕ → CfgNodeDescriptor
  for_statement_condition do_while_statement_condition : Option ℕ → CfgNodeDescriptor
  block unchecked_block if_statement while_statement : ℕ → CfgNodeDescriptor
  for_statement do_while_statement : ℕ → CfgNodeDescriptor

pub data CfgNodeKind : Type 0 where
  void reducible primitive : CfgNodeKind

abbrev pub kind : CfgNodeDescriptor → CfgNodeKind
kind (start_node n) = void
kind (end_node n) = void
kind (block i) = reducible
kind (unchecked_block i) = reducible
kind (if_statement i) = reducible
kind (while_statement i) = reducible
kind (for_statement i) = reducible
kind (do_while_statement i) = reducible
kind _ = primitive

-- `nd.kind() == CfgNodeKind::Reducible`
abbrev pub is_reducible : CfgNodeDescriptor → Bool
is_reducible nd = elim (kind nd) [ reducible ↦ true | _ ↦ false ]

pub record CfgNode : Type 0 where
  pub id : ℕ
  pub nd : CfgNodeDescriptor
