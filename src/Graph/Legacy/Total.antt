-- ===== src/Graph/Legacy/Total.antt =====
-- `from_context` returns: the call graph of the functions and modifiers that are reached.
use aderyn.Prelude.{
  ℕ, ◌<◌, true, Option, none, some, List, [], ◌∷◌, ◌++◌, ◌≡◌, if◌then◌else◌, contains,
}
use aderyn.Prelude.Assoc.{lookup}
use aderyn.Prelude.Unvisited.{left}
use aderyn.Workspace.Ast.{AstNode, extracted}
use aderyn.Workspace.Context.{WorkspaceContext}
use aderyn.Graph.Search.{Search, Explored}
use aderyn.Graph.Legacy.{
  is_function_or_modifier, called_functions, invoked_modifiers, implemented_functions, modifier_ids,
}

-- what a node uses: the functions that it calls by name and the modifiers that it invokes
uses_of : Option AstNode → List ℕ
uses_of none = []
uses_of (some n) =
    if is_function_or_modifier n
    then called_functions (extracted n).function_calls
      ++ invoked_modifiers (extracted n).modifier_invocations
    else []

pub references : WorkspaceContext → ℕ → List ℕ
references ctx a = uses_of (lookup a ctx.nodes)

module _ (ctx : WorkspaceContext) where
  abbrev E : ℕ → List ℕ
  E = references ctx

  abbrev Visits : ℕ → (ℕ → Search → Option Search) → Type 0
  Visits fuel visit =
      (c : ℕ) (s : Search)
      → left ctx.nodes s.visited < fuel
      → (s' : Search) × (visit c s ≡ some s')
        × Explored E c [] s s'
        × (contains s'.visited c ≡ true)

  abbrev entered : ℕ → Search → Search
  entered c s = record s { visited = c ∷ s.visited }

-- the implemented functions and the modifiers
abbrev pub starts : WorkspaceContext → List ℕ
unfolding implemented_functions modifier_ids
starts ctx =
    modifier_ids ctx.modifier_definitions ++ (implemented_functions ctx.function_definitions ++ [])
