-- ===== src/Workspace/Ancestors.antt =====
-- The walks along the parent links in aderyn_core/src/ast/impls/ctx/getters.rs and context/browser.
-- The outer `none` is a walk that has not ended: one that goes round.
pub mod Line
use aderyn.Prelude.{ℕ, zero, suc, Option, none, some, ◌>>=◌, List, [], ◌∷◌, if◌then◌else◌, length}
use aderyn.Prelude.Assoc.{lookup}
use aderyn.Workspace.Ast.{AstNode, NodeType, node_type, type_eq, node_id}
use aderyn.Workspace.Context.{WorkspaceContext}

unfoldable pub get_parent : WorkspaceContext → ℕ → Option AstNode
get_parent ctx i = lookup i ctx.parent_link >>= λ p. lookup p ctx.nodes

-- `GetImmediateParent::parent`
unfoldable pub parent : WorkspaceContext → AstNode → Option AstNode
parent ctx n = node_id n >>= get_parent ctx

-- the loop of `get_ancestral_line`
line_loop : WorkspaceContext → ℕ → Option AstNode → Option (List AstNode)
line_loop ctx fuel none = some []
line_loop ctx zero (some n) = none
line_loop ctx (suc fuel) (some n) = line_loop ctx fuel (parent ctx n) >>= λ chain. some (n ∷ chain)

unfoldable pub get_ancestral_line : WorkspaceContext → ℕ → Option (List AstNode)
unfolding line_loop
get_ancestral_line ctx i = line_loop ctx (suc (length ctx.parent_link)) (lookup i ctx.nodes)

-- the loop of `get_closest_ancestor`, at the id of a parent
closest_loop : WorkspaceContext → NodeType → ℕ → Option ℕ → Option (Option AstNode)
closest_loop ctx t fuel none = some none
closest_loop ctx t zero (some i) = none
closest_loop ctx t (suc fuel) (some i) = elim (lookup i ctx.nodes) [
  | none ↦ some none
  | some current ↦
      let rest = closest_loop ctx t fuel (lookup i ctx.parent_link) in
      if type_eq (node_type current) t then some (some current) else rest
]

unfoldable pub get_closest_ancestor : WorkspaceContext → ℕ → NodeType → Option (Option AstNode)
unfolding closest_loop
get_closest_ancestor ctx i t =
    closest_loop ctx t (suc (length ctx.parent_link)) (lookup i ctx.parent_link)

-- `GetClosestAncestorOfTypeX::closest_ancestor_of_type`
unfoldable pub closest_ancestor_of_type :
    WorkspaceContext → AstNode → NodeType → Option (Option AstNode)
closest_ancestor_of_type ctx n t = elim (node_id n) [
  | some i ↦ get_closest_ancestor ctx i t
  | none ↦ some none
]
