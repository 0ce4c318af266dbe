-- ===== src/Flow/Ast.antt =====
-- The statements of aderyn_core/src/ast/ast_nodes.rs, with the fields that the control flow graph
-- reads: ids, bodies and conditions. A leaf statement is its id.
use aderyn.Prelude.{ℕ, Option}

-- An expression is what `Expression::get_node_id` gives for it.
pub record Expression : Type 0 where
  pub node_id : Option ℕ

-- `ExpressionOrVariableDeclarationStatement`
pub data LoopInit : Type 0 where
  init_expression : ℕ → LoopInit
  init_variable_declaration : ℕ → LoopInit

mutual
  pub data Statement : Type 0 where
    block : Block → Statement
    unchecked_block : UncheckedBlock → Statement
    if_statement : IfStatement → Statement
    while_statement : WhileStatement → Statement
    for_statement : ForStatement → Statement
    do_while_statement : DoWhileStatement → Statement
    break_statement : ℕ → Statement
    continue_statement : ℕ → Statement
    return_statement : ℕ → Statement
    placeholder_statement : ℕ → Statement
    emit_statement : ℕ → Statement
    revert_statement : ℕ → Statement
    try_statement : ℕ → Statement
    inline_assembly : ℕ → Statement
    variable_declaration_statement : ℕ → Statement
    expression_statement : ℕ → Statement

  -- `Vec<Statement>`
  pub data Statements : Type 0 where
    nil : Statements
    cons : Statement → Statements → Statements

  -- each struct ends in its id
  pub data Block : Type 0 where
    block_of : Statements → ℕ → Block

  pub data UncheckedBlock : Type 0 where
    unchecked_of : Statements → ℕ → UncheckedBlock

  -- `BlockOrStatement`
  pub data Body : Type 0 where
    block_body : Block → Body
    statement_body : Statement → Body

  -- `Option<BlockOrStatement>`
  pub data OptionalBody : Type 0 where
    no_body : OptionalBody
    some_body : Body → OptionalBody

  pub data IfStatement : Type 0 where
    if_of : Expression → Body → OptionalBody → ℕ → IfStatement

  pub data WhileStatement : Type 0 where
    while_of : Expression → Body → ℕ → WhileStatement

  -- initialization expression, condition, loop expression, body
  pub data ForStatement : Type 0 where
    for_of : Option LoopInit → Option Expression → Option ℕ → Body → ℕ → ForStatement

  pub data DoWhileStatement : Type 0 where
    do_while_of : Block → Expression → ℕ → DoWhileStatement

-- The nodes of the AST that `WorkspaceContext::nodes` holds; `other` is any that is not asked for.
pub data AstNode : Type 0 where
  block_node : Block → AstNode
  unchecked_block_node : UncheckedBlock → AstNode
  if_node : IfStatement → AstNode
  while_node : WhileStatement → AstNode
  for_node : ForStatement → AstNode
  do_while_node : DoWhileStatement → AstNode
  other : AstNode

-- `context.nodes.get`
abbrev pub Context : Type 0
Context = ℕ → Option AstNode

abbrev pub block_id : Block → ℕ
block_id (block_of ss i) = i

abbrev pub unchecked_id : UncheckedBlock → ℕ
unchecked_id (unchecked_of ss i) = i

abbrev pub if_id : IfStatement → ℕ
if_id (if_of c t f i) = i

abbrev pub while_id : WhileStatement → ℕ
while_id (while_of c b i) = i

abbrev pub for_id : ForStatement → ℕ
for_id (for_of n c e b i) = i

abbrev pub do_while_id : DoWhileStatement → ℕ
do_while_id (do_while_of b c i) = i
