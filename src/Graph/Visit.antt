-- ===== src/Graph/Visit.antt =====
-- `_accept` and the visits of aderyn_core/src/context/graph/callgraph/visit.rs.
-- `none` is a panic, or fuel that has run out.
pub mod Order
pub mod Accept
use aderyn.Prelude.{
  ℕ, zero, suc, ◌+◌, Bool, true, false, Option, none, some, List, [], ◌∷◌, ◌++◌, if◌then◌else◌,
  contains, length,
}
use aderyn.Prelude.Assoc.{lookup}
use aderyn.Workspace.Ast.{AstNode, function_definition, modifier_definition}
use aderyn.Workspace.Context.{WorkspaceContext, RawCallGraph, WorkspaceCallGraphs}
use aderyn.Graph.Legacy.{is_function_or_modifier}
use aderyn.Graph.Consumer.{
  CallGraphDirection, CurrentDfsVector, outward_side_effect, CallGraphConsumer, Outcome, ok, err,
  ◌>=>◌, CallGraphVisitor, map_err, inward_callgraph_not_available, outward_callgraph_not_available,
  invalid_entry_point_id, entry_point_visit_error, outward_function_definition_visit_error,
  outward_modifier_definition_visit_error, inward_function_definition_visit_error,
  inward_modifier_definition_visit_error, outward_side_effect_function_definition_visit_error,
  outward_side_effect_modifier_definition_visit_error,
}

-- a search under way: what it has visited, and the visitor
pub record Walk (S : Type 0) : Type 0 where
  pub visited : List ℕ
  pub visitor : S

-- the next step of a search, after a call that may panic or fail
infixl 5 ◌>>=◌
abbrev pub ◌>>=◌ : {A : Type 0} → Option (Outcome A) → (A → Option (Outcome A)) → Option (Outcome A)
none >>= f = none
some (ok a) >>= f = f a
some (err e a) >>= f = some (err e a)

module _ {S : Type 0} where
  -- a visit changes the visitor and not what is visited
  abbrev pub with_visited : List ℕ → Outcome S → Outcome (Walk S)
  with_visited v (ok s) = ok (record { visited = v; visitor = s })
  with_visited v (err e s) = err e (record { visited = v; visitor = s })

  infixl 5 ◌then_with◌
  -- after a search: its visited set goes on, or only the error and the visitor
  abbrev pub ◌then_with◌ :
      Option (Outcome (Walk S)) → (Walk S → Option (Outcome S)) → Option (Outcome S)
  none then_with f = none
  some (ok w) then_with f = f w
  some (err e w) then_with f = some (err e w.visitor)

  -- `visit` is the call that a node gets
  for_destinations :
      (ℕ → Walk S → Option (Outcome (Walk S))) → List ℕ → Walk S → Option (Outcome (Walk S))
  for_destinations dfs [] w = some (ok w)
  for_destinations dfs (d ∷ ds) w = dfs d w >>= for_destinations dfs ds

  unfoldable pub dfs_and_visit_subgraph :
      (ℕ → S → Outcome S) → RawCallGraph → ℕ → ℕ → Walk S → Option (Outcome (Walk S))
  unfolding for_destinations
  dfs_and_visit_subgraph visit callgraph zero id w = none
  dfs_and_visit_subgraph visit callgraph (suc fuel) id w =
      let dfs = dfs_and_visit_subgraph visit callgraph fuel in
      if contains w.visited id
      then some (ok w)
      else some (with_visited (id ∷ w.visited) (visit id w.visitor)) >>= λ w'.
          elim (lookup id callgraph) [
            | none ↦ some (ok w')
            | some pointing_to ↦ for_destinations dfs pointing_to w'
          ]

  -- with a blacklist, only a node that it does not hold is visited
  abbrev pub unless : (ℕ → Bool) → (ℕ → S → Outcome S) → ℕ → S → Outcome S
  unless p visit id s = if p id then ok s else visit id s

  -- the loop over the surface points
  unfoldable pub for_points :
      (ℕ → S → Outcome S) → RawCallGraph → List ℕ → Walk S → Option (Outcome (Walk S))
  unfolding dfs_and_visit_subgraph for_destinations
  for_points visit callgraph points w =
      for_destinations (dfs_and_visit_subgraph visit callgraph (length callgraph + 1)) points w

  -- a search that the direction asks for, or not
  unfoldable pub search_if :
      Bool → (ℕ → S → Outcome S) → RawCallGraph → List ℕ → S → Option (Outcome (Walk S))
  unfolding for_points
  search_if true visit callgraph points s =
      for_points visit callgraph points (record { visited = []; visitor = s })
  search_if false visit callgraph points s = some (ok (record { visited = []; visitor = s }))

module _ {S : Type 0} (context : WorkspaceContext) (v : CallGraphVisitor S) where
  visit_node : CurrentDfsVector → AstNode → S → Outcome S
  visit_node CurrentDfsVector.inward (function_definition f) s =
      map_err inward_function_definition_visit_error (v.visit_inward_function_definition f s)
  visit_node CurrentDfsVector.inward (modifier_definition m) s =
      map_err inward_modifier_definition_visit_error (v.visit_inward_modifier_definition m s)
  visit_node CurrentDfsVector.outward (function_definition f) s =
      map_err outward_function_definition_visit_error (v.visit_outward_function_definition f s)
  visit_node CurrentDfsVector.outward (modifier_definition m) s =
      map_err outward_modifier_definition_visit_error (v.visit_outward_modifier_definition m s)
  visit_node outward_side_effect (function_definition f) s =
      map_err outward_side_effect_function_definition_visit_error
        (v.visit_outward_side_effect_function_definition f s)
  visit_node outward_side_effect (modifier_definition m) s =
      map_err outward_side_effect_modifier_definition_visit_error
        (v.visit_outward_side_effect_modifier_definition m s)
  visit_node _ _ s = ok s

  unfoldable pub make_relevant_visit_call : CurrentDfsVector → ℕ → S → Outcome S
  unfolding visit_node
  make_relevant_visit_call vector id s = elim (lookup id context.nodes) [
    | none ↦ ok s
    | some node ↦ if is_function_or_modifier node then visit_node vector node s else ok s
  ]

  unfoldable pub make_entry_point_visit_call : ℕ → S → Outcome S
  make_entry_point_visit_call id s = elim (lookup id context.nodes) [
    | none ↦ err (invalid_entry_point_id id) s
    | some node ↦ map_err entry_point_visit_error (v.visit_entry_point node s)
  ]

-- `?` in a loop over ids: the visits in order, up to the first error
abbrev pub visit_all : {S : Type 0} → (ℕ → S → Outcome S) → List ℕ → S → Outcome S
visit_all visit [] s = ok s
visit_all visit (i ∷ is) s = visit i s >=> visit_all visit is

abbrev pub goes_inward : CallGraphDirection → Bool
goes_inward CallGraphDirection.outward = false
goes_inward _ = true

abbrev pub goes_outward : CallGraphDirection → Bool
goes_outward CallGraphDirection.inward = false
goes_outward _ = true

abbrev pub goes_both : CallGraphDirection → Bool
goes_both CallGraphDirection.both_ways = true
goes_both _ = false

-- the graph that the consumer is about: the legacy one, or that of the base contract
unfoldable pub inward_graph :
    WorkspaceContext → CallGraphConsumer → WorkspaceCallGraphs → Option RawCallGraph
inward_graph context c callgraphs = elim c.base_contract [
  | none ↦ context.inward_callgraph
  | some base ↦ lookup base callgraphs.inward_callgraphs
]

unfoldable pub outward_graph :
    WorkspaceContext → CallGraphConsumer → WorkspaceCallGraphs → Option RawCallGraph
outward_graph context c callgraphs = elim c.base_contract [
  | none ↦ context.outward_callgraph
  | some base ↦ lookup base callgraphs.outward_callgraphs
]

module _ {S : Type 0} (context : WorkspaceContext) (v : CallGraphVisitor S)
    (c : CallGraphConsumer) where
  -- the three searches, each with a visited set of its own
  unfoldable pub explore : RawCallGraph → RawCallGraph → S → Option (Outcome S)
  unfolding search_if make_relevant_visit_call
  explore inward outward s =
      search_if (goes_inward c.direction)
        (make_relevant_visit_call context v CurrentDfsVector.inward) inward c.inward_surface_points
        s
      then_with λ i.
          search_if (goes_outward c.direction)
            (make_relevant_visit_call context v CurrentDfsVector.outward) outward
            c.outward_surface_points i.visitor
          then_with λ o.
              search_if (goes_both c.direction)
                (unless (contains (i.visited ++ o.visited ++ c.entry_points))
                  (make_relevant_visit_call context v outward_side_effect))
                inward o.visited o.visitor
              then_with λ e. some (ok e.visitor)

  -- each step goes on with what the one before it found
  after_entry_points : RawCallGraph → RawCallGraph → Outcome S → Option (Outcome S)
  unfolding explore
  after_entry_points inward outward (ok s) = explore inward outward s
  after_entry_points inward outward (err e s) = some (err e s)

  with_outward : RawCallGraph → Option RawCallGraph → S → Option (Outcome S)
  unfolding after_entry_points make_entry_point_visit_call
  with_outward inward none s = some (err outward_callgraph_not_available s)
  with_outward inward (some outward) s =
      after_entry_points inward outward
        (visit_all (make_entry_point_visit_call context v) c.entry_points s)

  with_inward : WorkspaceCallGraphs → Option RawCallGraph → S → Option (Outcome S)
  unfolding with_outward outward_graph
  with_inward callgraphs none s = some (err inward_callgraph_not_available s)
  with_inward callgraphs (some inward) s =
      with_outward inward (outward_graph context c callgraphs) s

  with_callgraphs : Option WorkspaceCallGraphs → S → Option (Outcome S)
  unfolding with_inward inward_graph
  with_callgraphs none s = none
  with_callgraphs (some callgraphs) s = with_inward callgraphs (inward_graph context c callgraphs) s

  unfoldable pub accept : S → Option (Outcome S)
  unfolding with_callgraphs
  accept s = with_callgraphs context.callgraphs s
