-- ===== src/Graph/Surface/Gives.antt =====
-- What a node gives the contracts: the loops of `derive_surface_points`.
use aderyn.Prelude.{
  ℕ, Bool, false, ◌&&◌, ◌||◌, Option, none, some, List, [], ◌∷◌, ◌≡◌, refl, ap, ◌∙◌, arith, ◌==◌,
  Bool-cases, inl, inr, contains,
}
use aderyn.Prelude.Assoc.{lookup}
use aderyn.Workspace.Ast.{
  AstNode, FunctionCall, ModifierInvocation, ContractDefinition, node_id, extracted,
}
use aderyn.Workspace.Context.{WorkspaceContext, RawCallGraph}
use aderyn.Workspace.Ancestors.Line.{IsForest}
use aderyn.Router.Resolve.{contract_of}
use aderyn.Router.Resolve.Total.{resolve_internal_call-Returns, resolve_modifier_call-Returns}
use aderyn.Graph.New.{function_id, modifier_id}
use aderyn.Graph.New.Stack.{has_key}
use aderyn.Graph.New.Total.{function_targets, modifier_targets}
use aderyn.Graph.Surface.{
  GraphPointType, ExplorationPoints, add, add_if, add_function_calls, add_modifier_calls,
  add_points_of, add_in_graph, for_graphs,
}
use aderyn.Graph.Surface.Points.{
  is_point, is_type, is_id, add_all, is_point-add, is_point-add_all, is_point-add_if, add_all-onto,
}

-- What the node gives the contract: itself as an entry, what its calls resolve to inward, and the function
-- or modifier around it outward.
abbrev pub gives : WorkspaceContext → AstNode → ℕ → ContractDefinition → GraphPointType → ℕ → Bool
gives ctx n containing contract GraphPointType.entry p = is_id (node_id n) p
gives ctx n containing contract GraphPointType.inward p =
    contains (function_targets ctx contract (extracted n).function_calls) p
    || contains (modifier_targets ctx contract (extracted n).modifier_invocations) p
gives ctx n containing contract GraphPointType.outward p = containing == p

abbrev pub gives_if :
    WorkspaceContext
    → AstNode
    → ℕ
    → Option ContractDefinition
    → RawCallGraph
    → GraphPointType
    → ℕ
    → Bool
gives_if ctx n containing none graph t p = false
gives_if ctx n containing (some contract) graph t p =
    has_key graph containing && gives ctx n containing contract t p

-- over the contracts whose inward graph has the function or modifier around the node
abbrev pub gives_in :
    WorkspaceContext → AstNode → ℕ → List (ℕ × RawCallGraph) → GraphPointType → ℕ → ℕ → Bool
gives_in ctx n containing [] t c p = false
gives_in ctx n containing ((id, graph) ∷ graphs) t c p =
    (id == c && gives_if ctx n containing (contract_of (lookup id ctx.nodes)) graph t p)
    || gives_in ctx n containing graphs t c p

module _ (ctx : WorkspaceContext) (forest : IsForest ctx) where
  add_function_calls-eq-some :
      (contract : ContractDefinition) (id : ℕ) (cs : List FunctionCall) (points : ExplorationPoints)
      → add_function_calls ctx contract id cs points
        ≡ some (add_all GraphPointType.inward id (function_targets ctx contract cs) points)
  unfolding add_function_calls function_targets
  add_function_calls-eq-some contract id [] points = unfold add_all in refl
  add_function_calls-eq-some contract id (c ∷ cs) points =
      let (f, e) = resolve_internal_call-Returns ctx forest contract c in
      rw e (
        add_function_calls-eq-some contract id cs
          (add_if GraphPointType.inward id (function_id f) points)
        ∙ ap some (
            add_all-onto GraphPointType.inward id (function_id f) (function_targets ctx contract cs)
              points))

  add_modifier_calls-eq-some :
      (contract : ContractDefinition) (id : ℕ) (cs : List ModifierInvocation)
      (points : ExplorationPoints)
      → add_modifier_calls ctx contract id cs points
        ≡ some (add_all GraphPointType.inward id (modifier_targets ctx contract cs) points)
  unfolding add_modifier_calls modifier_targets
  add_modifier_calls-eq-some contract id [] points = unfold add_all in refl
  add_modifier_calls-eq-some contract id (c ∷ cs) points =
      let (m, e) = resolve_modifier_call-Returns ctx forest contract c in
      rw e (
        add_modifier_calls-eq-some contract id cs
          (add_if GraphPointType.inward id (modifier_id m) points)
        ∙ ap some (
            add_all-onto GraphPointType.inward id (modifier_id m) (modifier_targets ctx contract cs)
              points))

  -- a result in which the points that pass the test are added to those before
  abbrev pub Adds :
      Option ExplorationPoints → ExplorationPoints → (GraphPointType → ℕ → ℕ → Bool) → Type 0
  Adds o points test =
      (points' : ExplorationPoints) × (o ≡ some points')
      × ((t : GraphPointType) (c p : ℕ)
          → is_point t c p points' ≡ (is_point t c p points || test t c p))

  add_points_of-Adds :
      (contract : ContractDefinition) (id : ℕ) (n : AstNode) (containing : ℕ)
      (points : ExplorationPoints)
      → Adds
          (add_points_of ctx contract id n containing points)
          points
          (λ t c p. id == c && gives ctx n containing contract t p)
  unfolding add_points_of
  add_points_of-Adds contract id n containing points =
      let fs = function_targets ctx contract (extracted n).function_calls in
      let ms = modifier_targets ctx contract (extracted n).modifier_invocations in
      let p0 = add_if GraphPointType.entry id (node_id n) points in
      let p1 = add_all GraphPointType.inward id fs p0 in
      let p2 = add_all GraphPointType.inward id ms p1 in
      (
        add GraphPointType.outward id containing p2,
        rw
            (
              add_function_calls-eq-some contract id (extracted n).function_calls p0,
              add_modifier_calls-eq-some contract id (extracted n).modifier_invocations p1,
            )
            refl,
        λ t c p.
            is_point-add GraphPointType.outward t id c containing p p2
            ∙ rw
                (
                  is_point-add_all GraphPointType.inward t id c p ms p1,
                  is_point-add_all GraphPointType.inward t id c p fs p0,
                  is_point-add_if GraphPointType.entry t id c p (node_id n) points,
                )
                (by_type t c p),
      )
    where
      by_type :
          (t : GraphPointType) (c p : ℕ)
          → ((((is_point t c p points
                    || ((is_type GraphPointType.entry t && id == c) && is_id (node_id n) p))
                  || ((is_type GraphPointType.inward t && id == c)
                      && contains (function_targets ctx contract (extracted n).function_calls) p))
                || ((is_type GraphPointType.inward t && id == c)
                    && contains
                        (modifier_targets ctx contract (extracted n).modifier_invocations)
                        p))
              || ((is_type GraphPointType.outward t && id == c) && containing == p))
            ≡ (is_point t c p points || (id == c && gives ctx n containing contract t p))
      by_type GraphPointType.entry c p = ground arith
      by_type GraphPointType.inward c p = ground arith
      by_type GraphPointType.outward c p = ground arith

  add_in_graph-Adds :
      (n : AstNode) (containing : ℕ) (o : Option ContractDefinition) (id : ℕ) (graph : RawCallGraph)
      (points : ExplorationPoints)
      → Adds
          (add_in_graph ctx n containing o id graph points)
          points
          (λ t c p. id == c && gives_if ctx n containing o graph t p)
  unfolding add_in_graph
  add_in_graph-Adds n containing none id graph points = (points, refl, λ t c p. ground arith)
  add_in_graph-Adds n containing (some contract) id graph points =
      elim (Bool-cases (has_key graph containing)) [
        | inl held ↦
            let (points', run, h) = add_points_of-Adds contract id n containing points in
            (points', rw held run, λ t c p. rw held (h t c p))
        | inr other ↦ (points, rw other refl, λ t c p. rw other (ground arith))
      ]

  pub for_graphs-Adds :
      (n : AstNode) (containing : ℕ) (graphs : List (ℕ × RawCallGraph)) (points : ExplorationPoints)
      → Adds
          (for_graphs ctx n containing graphs points)
          points
          (λ t c p. gives_in ctx n containing graphs t c p)
  unfolding for_graphs
  for_graphs-Adds n containing [] points = (points, refl, λ t c p. ground arith)
  for_graphs-Adds n containing ((id, graph) ∷ graphs) points =
      let (p1, run, h) =
        add_in_graph-Adds n containing (contract_of (lookup id ctx.nodes)) id graph points in
      let (p2, run', h') = for_graphs-Adds n containing graphs p1 in
      (p2, rw run run', λ t c p. h' t c p ∙ rw (h t c p) (ground arith))
