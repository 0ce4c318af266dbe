-- ===== src/Router/Suspects.antt =====
-- What a call refers to by its declaration: aderyn_core/src/ast/impls/ctx/utils.rs.
use aderyn.Prelude.{ℕ, Option, none, some, ◌>>=◌}
use aderyn.Prelude.Assoc.{lookup}
use aderyn.Stats.Text.{Text}
use aderyn.Workspace.Ast.{
  AstNode, Expression, FunctionCall, FunctionDefinition, ModifierDefinition, ModifierInvocation,
  referenced_declaration,
}
use aderyn.Workspace.Context.{WorkspaceContext}

abbrev pub function_at : Option AstNode → Option FunctionDefinition
function_at (some (AstNode.function_definition f)) = some f
function_at _ = none

abbrev pub modifier_at : Option AstNode → Option ModifierDefinition
modifier_at (some (AstNode.modifier_definition m)) = some m
modifier_at _ = none

selector_at : Option AstNode → Option Text
selector_at (some (AstNode.function_definition f)) = f.function_selector
selector_at (some (AstNode.variable_declaration v)) = v.function_selector
selector_at _ = none

function_selector_at : Option FunctionDefinition → Option Text
function_selector_at (some f) = f.function_selector
function_selector_at none = none

-- the declaration that an identifier or a member access refers to
abbrev pub declaration : Expression → Option ℕ
declaration (Expression.identifier i) = i.referenced_declaration
declaration (Expression.member_access e r t) = r
declaration _ = none

module _ (context : WorkspaceContext) where
  unfoldable pub suspected_target_function : FunctionCall → Option FunctionDefinition
  suspected_target_function c =
      declaration c.expression >>= λ id. function_at (lookup id context.nodes)

  selector_of : Expression → Option Text
  unfolding selector_at function_selector_at
  selector_of (Expression.identifier i) = i.referenced_declaration >>= λ id.
      function_selector_at (function_at (lookup id context.nodes))
  selector_of (Expression.member_access e r t) = r >>= λ id. selector_at (lookup id context.nodes)
  selector_of _ = none

  unfoldable pub suspected_function_selector : FunctionCall → Option Text
  unfolding selector_of
  suspected_function_selector c = selector_of c.expression

  unfoldable pub suspected_target_modifier : ModifierInvocation → Option ModifierDefinition
  unfolding referenced_declaration
  suspected_target_modifier m =
      referenced_declaration m.modifier_name >>= λ id. modifier_at (lookup id context.nodes)
