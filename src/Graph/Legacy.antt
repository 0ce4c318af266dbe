-- ===== src/Graph/Legacy.antt =====
-- `LegacyWorkspaceCallGraph::from_context` and `dfs_to_create_graph` of
-- aderyn_core/src/context/graph/preprocess/legacy.rs. `none` is fuel that has run out.
pub mod Total
use aderyn.Prelude.{
  ℕ, zero, suc, ◌+◌, Bool, ◌||◌, Option, none, some, ◌>>=◌, List, [], ◌∷◌, if◌then◌else◌, contains,
  length,
}
use aderyn.Prelude.Assoc.{lookup}
use aderyn.Workspace.Ast.{
  AstNode, FunctionCall, ModifierInvocation, Expression, identifier, FunctionDefinition,
  ModifierDefinition, NodeType, node_type, type_eq, extracted, referenced_declaration,
}
use aderyn.Workspace.Context.{WorkspaceContext, RawCallGraph}
use aderyn.Graph.Search.{Search, fresh, connecting}

unfoldable pub is_function_or_modifier : AstNode → Bool
unfolding node_type
is_function_or_modifier n =
    type_eq (node_type n) NodeType.function_definition
    || type_eq (node_type n) NodeType.modifier_definition

onto : Option ℕ → List ℕ → List ℕ
onto none rs = rs
onto (some r) rs = r ∷ rs

-- the declaration of a call whose expression is an identifier
called_function : Expression → Option ℕ
called_function (Expression.identifier i) = i.referenced_declaration
called_function _ = none

unfoldable pub called_functions : List FunctionCall → List ℕ
unfolding onto called_function
called_functions [] = []
called_functions (c ∷ cs) = onto (called_function c.expression) (called_functions cs)

unfoldable pub invoked_modifiers : List ModifierInvocation → List ℕ
unfolding onto referenced_declaration
invoked_modifiers [] = []
invoked_modifiers (m ∷ ms) = onto (referenced_declaration m.modifier_name) (invoked_modifiers ms)

-- one of the two loops: connect the node to each, and search on from there
for_references : (ℕ → Search → Option Search) → ℕ → List ℕ → Search → Option Search
for_references visit id [] s = some s
for_references visit id (r ∷ rs) s =
    visit r (connecting id r s) >>= λ s'. for_references visit id rs s'

unfoldable pub dfs_to_create_graph : WorkspaceContext → ℕ → ℕ → Search → Option Search
unfolding for_references is_function_or_modifier called_functions invoked_modifiers
dfs_to_create_graph ctx zero id s = none
dfs_to_create_graph ctx (suc fuel) id s =
    let dfs = dfs_to_create_graph ctx fuel in
    let entered = record s { visited = id ∷ s.visited } in
    if contains s.visited id then some s else elim (lookup id ctx.nodes) [
      | none ↦ some entered
      | some from_node ↦
          if is_function_or_modifier from_node
          then (for_references dfs id (called_functions (extracted from_node).function_calls)
                entered
              >>= λ s'.
                  for_references dfs id
                    (invoked_modifiers (extracted from_node).modifier_invocations) s')
          else some entered
    ]

-- the loops of `from_context`
for_roots : WorkspaceContext → List ℕ → Search → Option Search
unfolding dfs_to_create_graph
for_roots ctx [] s = some s
for_roots ctx (r ∷ rs) s =
    dfs_to_create_graph ctx (length ctx.nodes + 1) r s >>= λ s'. for_roots ctx rs s'

implemented_functions : List FunctionDefinition → List ℕ
implemented_functions [] = []
implemented_functions (f ∷ fs) =
    if f.implemented then f.id ∷ implemented_functions fs else implemented_functions fs

modifier_ids : List ModifierDefinition → List ℕ
modifier_ids [] = []
modifier_ids (m ∷ ms) = m.id ∷ modifier_ids ms

unfoldable pub from_context : WorkspaceContext → Option RawCallGraph
unfolding for_roots implemented_functions modifier_ids
from_context ctx = for_roots ctx (implemented_functions ctx.function_definitions) fresh >>= λ s.
    for_roots ctx (modifier_ids ctx.modifier_definitions) s >>= λ s'. some s'.raw_callgraph
