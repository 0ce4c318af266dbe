-- ===== src/Graph/Surface/Derive.antt =====
-- Which points `derive_surface_points` collects.
use aderyn.Prelude.{
  ℕ, Bool, false, ◌||◌, Option, none, some, ◌>>=◌, List, [], ◌∷◌, ◌≡◌, refl, ap, ◌∙◌, arith,
  if◌then◌else◌, is_some,
}
use aderyn.Prelude.Assoc.{lookup}
use aderyn.Workspace.Ast.{AstNode}
use aderyn.Workspace.Context.{WorkspaceContext, WorkspaceCallGraphs}
use aderyn.Workspace.Ancestors.Line.{IsForest}
use aderyn.Graph.Surface.{
  GraphPointType, ExplorationPoints, for_containing, for_nodes, derive_surface_points, for_graphs,
}
use aderyn.Graph.Surface.Points.{is_point}
use aderyn.Graph.Surface.Stands.{stands_in, containing-stands_in}
use aderyn.Graph.Surface.Gives.{gives_in, Adds, for_graphs-Adds}

-- the same for the function or modifier around the node, if there is one
abbrev pub gives_around :
    WorkspaceContext → WorkspaceCallGraphs → AstNode → Option ℕ → GraphPointType → ℕ → ℕ → Bool
gives_around ctx cg n none t c p = false
gives_around ctx cg n (some containing) t c p = gives_in ctx n containing cg.inward_callgraphs t c p

-- and for each of the nodes
abbrev pub asked :
    WorkspaceContext → WorkspaceCallGraphs → List AstNode → GraphPointType → ℕ → ℕ → Bool
asked ctx cg [] t c p = false
asked ctx cg (n ∷ ns) t c p = gives_around ctx cg n (stands_in ctx n) t c p || asked ctx cg ns t c p

-- whether one of the nodes is or stands in a function or modifier
abbrev pub some_stands : WorkspaceContext → List AstNode → Bool
some_stands ctx [] = false
some_stands ctx (n ∷ ns) = is_some (stands_in ctx n) || some_stands ctx ns

-- what is collected with the call graphs, and without them
abbrev pub Collects :
    WorkspaceContext → List AstNode → Option WorkspaceCallGraphs → Option ExplorationPoints → Type 0
Collects ctx nodes (some cg) result =
    (points : ExplorationPoints) × (result ≡ some points)
    × ((t : GraphPointType) (c p : ℕ) → is_point t c p points ≡ asked ctx cg nodes t c p)
Collects ctx nodes none result = result ≡ (if some_stands ctx nodes then none else some [])

module _ (ctx : WorkspaceContext) (forest : IsForest ctx) where
  for_containing-Adds :
      (cg : WorkspaceCallGraphs)
      → ctx.callgraphs ≡ some cg
      → (n : AstNode) (o : Option ℕ) (points : ExplorationPoints)
      → Adds ctx forest (for_containing ctx n o points) points (gives_around ctx cg n o)
  unfolding for_containing
  for_containing-Adds cg built n none points = (points, refl, λ t c p. ground arith)
  for_containing-Adds cg built n (some containing) points =
      let (points', run, h) = for_graphs-Adds ctx forest n containing cg.inward_callgraphs points in
      (
        points',
        ap (λ o. o >>= λ cg. for_graphs ctx n containing cg.inward_callgraphs points) built ∙ run,
        h,
      )

  for_nodes-Adds :
      (cg : WorkspaceCallGraphs)
      → ctx.callgraphs ≡ some cg
      → (nodes : List AstNode) (points : ExplorationPoints)
      → Adds ctx forest (for_nodes ctx nodes points) points (asked ctx cg nodes)
  unfolding for_nodes
  for_nodes-Adds cg built [] points = (points, refl, λ t c p. ground arith)
  for_nodes-Adds cg built (n ∷ ns) points =
      let (p1, run, h) = for_containing-Adds cg built n (stands_in ctx n) points in
      let (p2, run', h') = for_nodes-Adds cg built ns p1 in
      (
        p2,
        rw (containing-stands_in ctx forest n) (rw run run'),
        λ t c p. h' t c p ∙ rw (h t c p) (ground arith),
      )

  for_nodes-missing :
      ctx.callgraphs ≡ none
      → (nodes : List AstNode) (points : ExplorationPoints)
      → for_nodes ctx nodes points ≡ (if some_stands ctx nodes then none else some points)
  unfolding for_nodes for_containing
  for_nodes-missing missing [] points = refl
  for_nodes-missing missing (n ∷ ns) points =
      rw (containing-stands_in ctx forest n)
        (by_place (for_nodes-missing missing ns points) (stands_in ctx n))
    where
      by_place :
          (for_nodes ctx ns points ≡ (if some_stands ctx ns then none else some points))
          → (o : Option ℕ)
          → (for_containing ctx n o points >>= for_nodes ctx ns)
            ≡ (if is_some o || some_stands ctx ns then none else some points)
      by_place rest none = rest
      by_place rest (some containing) =
          ap
            (λ o.
              (o >>= λ cg. for_graphs ctx n containing cg.inward_callgraphs points)
              >>= for_nodes ctx ns)
            missing

  -- In a workspace whose parent links do not go round and that has its call graphs, `derive_surface_points`
  -- returns, and collects exactly these points: for each of the nodes that is or stands in a function or
  -- modifier (the closest function above it, or else the closest modifier) and each contract whose inward
  -- call graph has that, the node's id as an entry point, what its calls and invocations resolve to in the
  -- contract as inward points, and the function or modifier as an outward point. In such a workspace without
  -- call graphs it panics if one of the nodes is or stands in a function or modifier, and collects nothing
  -- if none does.
  pub derive_surface_points-asked :
      (nodes : List AstNode) → Collects ctx nodes ctx.callgraphs (derive_surface_points ctx nodes)
  unfolding derive_surface_points
  derive_surface_points-asked nodes = by_graphs ctx.callgraphs refl
    where
      nothing_before :
          (cg : WorkspaceCallGraphs) (t : GraphPointType) (c p : ℕ)
          → (is_point t c p [] || asked ctx cg nodes t c p) ≡ asked ctx cg nodes t c p
      nothing_before cg t c p = unfold lookup in refl

      by_graphs :
          (o : Option WorkspaceCallGraphs)
          → ctx.callgraphs ≡ o
          → Collects ctx nodes o (for_nodes ctx nodes [])
      by_graphs none missing = for_nodes-missing missing nodes []
      by_graphs (some cg) built =
          let (points, run, h) = for_nodes-Adds cg built nodes [] in
          (points, run, λ t c p. h t c p ∙ nothing_before cg t c p)
