-- ===== src/Graph/Surface/Stands.antt =====
-- The function or modifier that a node is or stands in.
use aderyn.Prelude.{ℕ, Option, none, some, ◌>>=◌, ◌≡◌, refl, ap, sym, ◌∙◌}
use aderyn.Workspace.Ast.{AstNode, NodeType, node_id}
use aderyn.Workspace.Context.{WorkspaceContext}
use aderyn.Workspace.Ancestors.{get_closest_ancestor, closest_ancestor_of_type}
use aderyn.Workspace.Ancestors.Line.{IsForest, get_closest_ancestor-returns}
use aderyn.Graph.Legacy.{is_function_or_modifier}
use aderyn.Graph.New.Total.{flat}
use aderyn.Graph.Surface.{or_else, parent_surface_point, containing_function_or_modifier}

-- the closest node of the type above a node that has an id
abbrev pub closest : WorkspaceContext → AstNode → NodeType → Option AstNode
closest ctx n t = node_id n >>= λ i. flat (get_closest_ancestor ctx i t)

abbrev pub first_some : Option AstNode → Option AstNode → Option AstNode
first_some none q = q
first_some (some m) q = some m

-- A function or modifier itself; for another node the closest function above it, or else the closest
-- modifier.
abbrev pub stands_in : WorkspaceContext → AstNode → Option ℕ
stands_in ctx (AstNode.function_definition f) = some f.id
stands_in ctx (AstNode.modifier_definition m) = some m.id
stands_in ctx n =
    first_some (closest ctx n NodeType.function_definition)
      (closest ctx n NodeType.modifier_definition)
    >>= node_id

module _ (ctx : WorkspaceContext) (forest : IsForest ctx) where
  closest_ancestor_of_type-closest :
      (n : AstNode) (t : NodeType) → closest_ancestor_of_type ctx n t ≡ some (closest ctx n t)
  unfolding closest_ancestor_of_type
  closest_ancestor_of_type-closest n t = by_id (node_id n)
    where
      by_id :
          (o : Option ℕ)
          → Path
              (Option (Option AstNode))
              (elim o [ some i ↦ get_closest_ancestor ctx i t | none ↦ some none ])
              (some (o >>= λ i. flat (get_closest_ancestor ctx i t)))
      by_id none = refl
      by_id (some i) =
          let (r, e) = get_closest_ancestor-returns ctx forest i t in
          e ∙ ap (λ o. some (flat o)) (sym e)

  parent_surface_point-closest :
      (n : AstNode)
      → parent_surface_point ctx n
        ≡ some (
            first_some
              (closest ctx n NodeType.function_definition)
              (closest ctx n NodeType.modifier_definition))
  unfolding parent_surface_point or_else
  parent_surface_point-closest n =
      rw (closest_ancestor_of_type-closest n NodeType.function_definition)
        (or_modifier (closest ctx n NodeType.function_definition))
    where
      or_modifier :
          (o : Option AstNode)
          → or_else o (closest_ancestor_of_type ctx n NodeType.modifier_definition)
            ≡ some (first_some o (closest ctx n NodeType.modifier_definition))
      or_modifier (some f) = refl
      or_modifier none = closest_ancestor_of_type-closest n NodeType.modifier_definition

  pub containing-stands_in :
      (n : AstNode) → containing_function_or_modifier ctx n ≡ some (stands_in ctx n)
  unfolding containing_function_or_modifier is_function_or_modifier node_id
  containing-stands_in (AstNode.function_definition f) = refl
  containing-stands_in (AstNode.modifier_definition m) = refl
  containing-stands_in n =
      ap (λ o. o >>= λ p. some (p >>= node_id)) (parent_surface_point-closest n)
