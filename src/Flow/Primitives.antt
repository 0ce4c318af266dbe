-- ===== src/Flow/Primitives.antt =====
-- aderyn_core/src/context/flow/primitives.rs: a method for each primitive; the `from` of its struct
-- keeps the id of the statement, or of the condition. Then `add_statement_node` of flow/utils.rs,
-- with the methods of flow/reducibles.rs that it calls.
use aderyn.Prelude.{ℕ}
use aderyn.Flow.Ast.{
  Expression, Block, block_id, UncheckedBlock, unchecked_id, IfStatement, if_id, WhileStatement,
  while_id, ForStatement, for_id, DoWhileStatement, do_while_id, Body, block_body, statement_body,
  Statement,
}
use aderyn.Flow.Node
use aderyn.Flow.Cfg.{M, add_node}

abbrev pub add_variable_declaration_statement : ℕ → M ℕ
add_variable_declaration_statement stmt = add_node (Node.variable_declaration_statement stmt)

abbrev pub add_expression_statement : ℕ → M ℕ
add_expression_statement stmt = add_node (Node.expression_statement stmt)

abbrev pub add_placeholder_statement : ℕ → M ℕ
add_placeholder_statement stmt = add_node (Node.placeholder_statement stmt)

abbrev pub add_break_statement : ℕ → M ℕ
add_break_statement stmt = add_node (Node.break_statement stmt)

abbrev pub add_continue_statement : ℕ → M ℕ
add_continue_statement stmt = add_node (Node.continue_statement stmt)

abbrev pub add_return_statement : ℕ → M ℕ
add_return_statement stmt = add_node (Node.return_statement stmt)

abbrev pub add_emit_statement : ℕ → M ℕ
add_emit_statement stmt = add_node (Node.emit_statement stmt)

abbrev pub add_revert_statement : ℕ → M ℕ
add_revert_statement stmt = add_node (Node.revert_statement stmt)

abbrev pub add_inline_assembly_statement : ℕ → M ℕ
add_inline_assembly_statement stmt = add_node (Node.inline_assembly stmt)

abbrev pub add_try_statement : ℕ → M ℕ
add_try_statement stmt = add_node (Node.try_statement stmt)

abbrev pub add_if_statement_condition : Expression → M ℕ
add_if_statement_condition exp = add_node (Node.if_statement_condition exp.node_id)

abbrev pub add_while_statement_condition : Expression → M ℕ
add_while_statement_condition exp = add_node (Node.while_statement_condition exp.node_id)

abbrev pub add_for_statement_condition : Expression → M ℕ
add_for_statement_condition exp = add_node (Node.for_statement_condition exp.node_id)

abbrev pub add_do_while_statement_condition : Expression → M ℕ
add_do_while_statement_condition exp = add_node (Node.do_while_statement_condition exp.node_id)

abbrev pub add_block_node : Block → M ℕ
add_block_node stmt = add_node (Node.block (block_id stmt))

abbrev pub add_unchecked_block_node : UncheckedBlock → M ℕ
add_unchecked_block_node stmt = add_node (Node.unchecked_block (unchecked_id stmt))

abbrev pub add_if_statement : IfStatement → M ℕ
add_if_statement stmt = add_node (Node.if_statement (if_id stmt))

abbrev pub add_while_statement : WhileStatement → M ℕ
add_while_statement stmt = add_node (Node.while_statement (while_id stmt))

abbrev pub add_for_statement : ForStatement → M ℕ
add_for_statement stmt = add_node (Node.for_statement (for_id stmt))

abbrev pub add_do_while_statement : DoWhileStatement → M ℕ
add_do_while_statement stmt = add_node (Node.do_while_statement (do_while_id stmt))

-- `add_statement_node`
unfoldable pub add_statement_node : Statement → M ℕ
add_statement_node (Statement.try_statement n) = add_try_statement n
add_statement_node (Statement.unchecked_block n) = add_unchecked_block_node n
add_statement_node (Statement.do_while_statement n) = add_do_while_statement n
add_statement_node (Statement.for_statement n) = add_for_statement n
add_statement_node (Statement.emit_statement n) = add_emit_statement n
add_statement_node (Statement.while_statement n) = add_while_statement n
add_statement_node (Statement.if_statement n) = add_if_statement n
add_statement_node (Statement.placeholder_statement n) = add_placeholder_statement n
add_statement_node (Statement.revert_statement n) = add_revert_statement n
add_statement_node (Statement.return_statement n) = add_return_statement n
add_statement_node (Statement.inline_assembly n) = add_inline_assembly_statement n
add_statement_node (Statement.continue_statement n) = add_continue_statement n
add_statement_node (Statement.break_statement n) = add_break_statement n
add_statement_node (Statement.block n) = add_block_node n
add_statement_node (Statement.variable_declaration_statement n) =
    add_variable_declaration_statement n
add_statement_node (Statement.expression_statement n) = add_expression_statement n

-- the `match` on a `BlockOrStatement`
unfoldable pub add_body_node : Body → M ℕ
unfolding add_statement_node
add_body_node (block_body block) = add_block_node block
add_body_node (statement_body stmt) = add_statement_node stmt
