-- ===== src/Flow/Reducibles.antt =====
-- aderyn_core/src/context/flow/reducibles.rs: what takes the place of a reducible node. Each method
-- gives the start and the end of the new part of the graph.
pub mod Chain
pub mod While
pub mod Blocks
pub mod If
pub mod For
pub mod DoWhile
use aderyn.Prelude.{ℕ, Option, none, some}
use aderyn.Flow.Ast.{
  Statements, nil, cons, block_of, unchecked_of, if_of, while_of, for_of, do_while_of, Expression,
  OptionalBody, no_body, some_body, LoopInit, init_expression, init_variable_declaration, AstNode,
  block_node, unchecked_block_node, if_node, while_node, for_node, do_while_node, Context,
}
use aderyn.Flow.Cfg.{
  M, pure, ◌>>=◌, ◌>>◌, add_flow_edge, insert_start_end, insert_start_cond, insert_start_loop_expr,
  insert_loop_expr_start, insert_cond_start,
}
use aderyn.Flow.Voids
use aderyn.Flow.Primitives.{
  add_statement_node, add_body_node, add_block_node, add_expression_statement,
  add_variable_declaration_statement, add_if_statement_condition, add_while_statement_condition,
  add_for_statement_condition, add_do_while_statement_condition,
}

-- the loop over the statements of a block, from the node `last_link`
unfoldable pub link_statements : ℕ → Statements → M ℕ
link_statements last_link nil = pure last_link
link_statements last_link (cons statement rest) = do
  node_id ← add_statement_node statement
  add_flow_edge last_link node_id
  link_statements node_id rest

-- the statements of the block, or none where the AST has no such block
abbrev pub block_statements : Option AstNode → Statements
block_statements (some (block_node (block_of ss i))) = ss
block_statements _ = nil

abbrev pub unchecked_statements : Option AstNode → Statements
unchecked_statements (some (unchecked_block_node (unchecked_of ss i))) = ss
unchecked_statements _ = nil

-- `CfgBlock::reduce`
unfoldable pub reduce_block : Context → ℕ → M (ℕ × ℕ)
reduce_block nodes id = do
  start_id ← Voids.add_start_block_node id
  end_id ← Voids.add_end_block_node id
  insert_start_end start_id end_id
  last_link ← link_statements start_id (block_statements (nodes id))
  add_flow_edge last_link end_id
  pure (start_id, end_id)

-- `CfgUncheckedBlock::reduce`
unfoldable pub reduce_unchecked_block : Context → ℕ → M (ℕ × ℕ)
reduce_unchecked_block nodes id = do
  start_id ← Voids.add_start_unchecked_block_node id
  end_id ← Voids.add_end_unchecked_block_node id
  insert_start_end start_id end_id
  last_link ← link_statements start_id (unchecked_statements (nodes id))
  add_flow_edge last_link end_id
  pure (start_id, end_id)

-- the `let … else` where the AST has no such statement
unfoldable pub skip : ℕ → ℕ → M (ℕ × ℕ)
skip start_id end_id = do add_flow_edge start_id end_id; pure (start_id, end_id)

-- the false branch, which is there with no body too
unfoldable pub if_false_branch : ℕ → ℕ → ℕ → OptionalBody → M (ℕ × ℕ)
if_false_branch start_id end_id end_cond (some_body false_body) = do
  start_false_branch ← Voids.add_start_if_false_branch_node
  end_false_branch ← Voids.add_end_if_false_branch_node
  insert_start_end start_false_branch end_false_branch
  false_block ← add_body_node false_body
  add_flow_edge end_cond start_false_branch
  add_flow_edge start_false_branch false_block
  add_flow_edge false_block end_false_branch
  add_flow_edge end_false_branch end_id
  pure (start_id, end_id)
if_false_branch start_id end_id end_cond no_body = do
  start_false_branch ← Voids.add_start_if_false_branch_node
  end_false_branch ← Voids.add_end_if_false_branch_node
  insert_start_end start_false_branch end_false_branch
  add_flow_edge end_cond start_false_branch
  add_flow_edge start_false_branch end_false_branch
  add_flow_edge end_false_branch end_id
  pure (start_id, end_id)

unfoldable pub if_parts : ℕ → ℕ → Option AstNode → M (ℕ × ℕ)
unfolding skip if_false_branch
if_parts start_id end_id (some (if_node (if_of condition true_body false_body i))) = do
  start_cond ← Voids.add_start_if_cond_node
  end_cond ← Voids.add_end_if_cond_node
  insert_start_end start_id end_id
  cond ← add_if_statement_condition condition
  add_flow_edge start_id start_cond
  add_flow_edge start_cond cond
  add_flow_edge cond end_cond
  start_true_branch ← Voids.add_start_if_true_branch_node
  end_true_branch ← Voids.add_end_if_true_branch_node
  insert_start_end start_true_branch end_true_branch
  true_block ← add_body_node true_body
  add_flow_edge end_cond start_true_branch
  add_flow_edge start_true_branch true_block
  add_flow_edge true_block end_true_branch
  add_flow_edge end_true_branch end_id
  if_false_branch start_id end_id end_cond false_body
if_parts start_id end_id _ = skip start_id end_id

-- `CfgIfStatement::reduce`
unfoldable pub reduce_if_statement : Context → ℕ → M (ℕ × ℕ)
unfolding if_parts
reduce_if_statement nodes id = do
  start_id ← Voids.add_start_if_node id
  end_id ← Voids.add_end_if_node id
  insert_start_end start_id end_id
  if_parts start_id end_id (nodes id)

unfoldable pub while_parts : ℕ → ℕ → Option AstNode → M (ℕ × ℕ)
unfolding skip
while_parts start_id end_id (some (while_node (while_of condition body i))) = do
  start_cond ← Voids.add_start_while_cond_node
  end_cond ← Voids.add_end_while_cond_node
  insert_start_end start_cond end_cond
  insert_start_cond start_id start_cond
  insert_cond_start end_cond start_id
  cond ← add_while_statement_condition condition
  add_flow_edge start_id start_cond
  add_flow_edge start_cond cond
  add_flow_edge cond end_cond
  add_flow_edge end_cond end_id
  start_body ← Voids.add_start_while_body_node
  end_body ← Voids.add_end_while_body_node
  insert_start_end start_body end_body
  body_id ← add_body_node body
  add_flow_edge end_cond start_body
  add_flow_edge start_body body_id
  add_flow_edge body_id end_body
  add_flow_edge end_body start_cond
  pure (start_id, end_id)
while_parts start_id end_id _ = skip start_id end_id

-- `CfgWhileStatement::reduce`
unfoldable pub reduce_while_statement : Context → ℕ → M (ℕ × ℕ)
unfolding while_parts
reduce_while_statement nodes id = do
  start_id ← Voids.add_start_while_node id
  end_id ← Voids.add_end_while_node id
  insert_start_end start_id end_id
  while_parts start_id end_id (nodes id)

-- the parts of a `for` that may be left out
unfoldable pub for_init : ℕ → ℕ → Option LoopInit → M (Unit {0})
for_init start_id end_id (some (init_expression stmt)) = do
  loop_init ← add_expression_statement stmt
  add_flow_edge start_id loop_init
  add_flow_edge loop_init end_id
for_init start_id end_id (some (init_variable_declaration stmt)) = do
  loop_init ← add_variable_declaration_statement stmt
  add_flow_edge start_id loop_init
  add_flow_edge loop_init end_id
for_init start_id end_id none = add_flow_edge start_id end_id

unfoldable pub for_cond : ℕ → ℕ → Option Expression → M (Unit {0})
for_cond start_id end_id (some condition) = do
  loop_cond ← add_for_statement_condition condition
  add_flow_edge start_id loop_cond
  add_flow_edge loop_cond end_id
for_cond start_id end_id none = add_flow_edge start_id end_id

unfoldable pub for_loop_exp : ℕ → ℕ → Option ℕ → M (Unit {0})
for_loop_exp start_id end_id (some stmt) = do
  loop_exp ← add_expression_statement stmt
  add_flow_edge start_id loop_exp
  add_flow_edge loop_exp end_id
for_loop_exp start_id end_id none = add_flow_edge start_id end_id

unfoldable pub for_parts : ℕ → ℕ → Option AstNode → M (ℕ × ℕ)
unfolding skip for_init for_cond for_loop_exp
for_parts start_id end_id (some (for_node (for_of init condition loop_expression body i))) = do
  start_loop_init ← Voids.add_start_for_init_exp_node
  end_loop_init ← Voids.add_end_for_init_exp_node
  insert_start_end start_loop_init end_loop_init
  for_init start_loop_init end_loop_init init
  start_loop_cond ← Voids.add_start_for_cond_node
  end_loop_cond ← Voids.add_end_for_cond_node
  insert_start_end start_loop_cond end_loop_cond
  insert_start_cond start_id start_loop_cond
  for_cond start_loop_cond end_loop_cond condition
  start_loop_body ← Voids.add_start_for_body_node
  end_loop_body ← Voids.add_end_for_body_node
  insert_start_end start_loop_body end_loop_body
  loop_body ← add_body_node body
  add_flow_edge start_loop_body loop_body
  add_flow_edge loop_body end_loop_body
  start_loop_exp ← Voids.add_start_for_exp_node
  end_loop_exp ← Voids.add_end_for_exp_node
  insert_start_end start_loop_exp end_loop_exp
  insert_start_loop_expr start_id start_loop_exp
  insert_loop_expr_start end_loop_exp start_id
  for_loop_exp start_loop_exp end_loop_exp loop_expression
  add_flow_edge start_id start_loop_init
  add_flow_edge end_loop_init start_loop_cond
  add_flow_edge end_loop_cond start_loop_body
  add_flow_edge end_loop_body start_loop_exp
  add_flow_edge end_loop_exp start_loop_cond
  add_flow_edge end_loop_cond end_id
  pure (start_id, end_id)
for_parts start_id end_id _ = skip start_id end_id

-- `CfgForStatement::reduce`
unfoldable pub reduce_for_statement : Context → ℕ → M (ℕ × ℕ)
unfolding for_parts
reduce_for_statement nodes id = do
  start_id ← Voids.add_start_for_node id
  end_id ← Voids.add_end_for_node id
  insert_start_end start_id end_id
  for_parts start_id end_id (nodes id)

unfoldable pub do_while_parts : ℕ → ℕ → Option AstNode → M (ℕ × ℕ)
unfolding skip
do_while_parts start_id end_id (some (do_while_node (do_while_of body condition i))) = do
  start_loop_body ← Voids.add_start_do_while_body_node
  end_loop_body ← Voids.add_end_do_while_body_node
  insert_start_end start_loop_body end_loop_body
  loop_body ← add_block_node body
  add_flow_edge start_id start_loop_body
  add_flow_edge start_loop_body loop_body
  add_flow_edge loop_body end_loop_body
  start_loop_cond ← Voids.add_start_do_while_cond_node
  end_loop_cond ← Voids.add_end_do_while_cond_node
  insert_start_end start_loop_cond end_loop_cond
  insert_start_cond start_id start_loop_cond
  insert_cond_start end_loop_cond start_id
  loop_cond ← add_do_while_statement_condition condition
  add_flow_edge end_loop_body start_loop_cond
  add_flow_edge start_loop_cond loop_cond
  add_flow_edge loop_cond end_loop_cond
  add_flow_edge end_loop_cond start_loop_body
  add_flow_edge end_loop_cond end_id
  pure (start_id, end_id)
do_while_parts start_id end_id _ = skip start_id end_id

-- `CfgDoWhileStatement::reduce`
unfoldable pub reduce_do_while_statement : Context → ℕ → M (ℕ × ℕ)
unfolding do_while_parts
reduce_do_while_statement nodes id = do
  start_id ← Voids.add_start_do_while_node id
  end_id ← Voids.add_end_do_while_node id
  insert_start_end start_id end_id
  do_while_parts start_id end_id (nodes id)
