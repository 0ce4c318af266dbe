-- ===== src/Graph/Tests.antt =====
-- The call graphs of the small workspace, and one use of each theorem on them.
use aderyn.Prelude.{
  ℕ, Bool, true, ◌&&◌, ◌||◌, some, List, [], ◌∷◌, ◌≡◌, refl, ◌==◌, if◌then◌else◌, is_some,
}
use aderyn.Prelude.Assoc.{lookup, insert, IsMap}
use aderyn.Workspace.Ast.{
  AstNode, is_internal_call, is_deployable_contract, node_type, referenced_declaration, selectorish,
}
use aderyn.Workspace.Context.{WorkspaceContext, RawCallGraph, WorkspaceCallGraphs, is_in, c3}
use aderyn.Workspace.Ancestors.Line.{IsForest}
use aderyn.Workspace.Tests.{workspace, workspace-IsForest, contract1, contract2, f10, nothing}
use aderyn.Router.Build.{deployable_contracts}
use aderyn.Router.Tests.{router}
use aderyn.Router.Ask.{entrypoint_functions, resolve_internal_call, resolve_modifier_call}
use aderyn.Stats.Text.{starts_with, contains_text}
use aderyn.Workspace.TextMap.{lookup_text, text_eq}
use aderyn.Workspace.Ancestors.{get_closest_ancestor}
use aderyn.Router.Suspects.{suspected_target_function, suspected_target_modifier}
use aderyn.Graph.Raw.{
  connected, IsSimple, create_connection_if_not_exists, create_node_if_not_exists,
}
use aderyn.Graph.Reverse.{reverse, connected-reverse, reverse-reverse}
use aderyn.Graph.Search.{IsCallGraph, connecting}
use aderyn.Graph.Legacy.{from_context}
use aderyn.Graph.New.{create_raw_callgraph, build, visiting}
use aderyn.Graph.New.Stack.{IsKeyed}
use aderyn.Graph.New.Total.{resolved, create_raw_callgraph-IsCallGraph}
use aderyn.Graph.New.Transposed.{reversed, build-reversed}
use aderyn.Graph.Consumer.{
  CallGraphConsumer, CallGraphVisitor, CallGraphDirection, ok, err, outward_callgraph_not_available,
  inward_callgraph_not_available,
}
use aderyn.Graph.Visit.{accept, inward_graph, outward_graph}
use aderyn.Graph.Visit.Accept.{Planned, planned_visits, accept-Planned, accept-unavailable}
use aderyn.Graph.Surface.{GraphPointType, add, derive_surface_points, from_nodes}
use aderyn.Graph.Surface.Points.{is_point, is_type, is_point-add}
use aderyn.Graph.Surface.Derive.{Collects, derive_surface_points-asked}
use aderyn.Graph.Surface.Legacy.{Expected, first_unidentified, from_nodes-Expected}

-- by name `f` calls the `g` beside it
legacy_graph : from_context workspace ≡ some ((10, 11 ∷ 12 ∷ []) ∷ [])
unfolding from_context lookup aderyn.Graph.Search.connecting
    aderyn.Graph.Raw.create_connection_if_not_exists insert
legacy_graph = refl

abbrev graph : RawCallGraph
graph = (10, 21 ∷ 12 ∷ []) ∷ (12, []) ∷ (21, []) ∷ []

abbrev outward_graph2 : RawCallGraph
outward_graph2 = (21, 10 ∷ []) ∷ (12, 10 ∷ []) ∷ []

outward_of_inward : reverse graph ≡ outward_graph2
unfolding reverse aderyn.Graph.Raw.create_connection_if_not_exists lookup insert
outward_of_inward = refl

graph-IsMap : IsMap graph
unfolding lookup
graph-IsMap = (refl, (refl, (refl, tt)))

connected-reverse_example : connected (reverse graph) 21 10 ≡ connected graph 10 21
connected-reverse_example = connected-reverse graph graph-IsMap 21 10

reverse-reverse_example :
    ((a b : ℕ) → connected (reverse (reverse graph)) a b ≡ connected graph a b)
    × IsSimple (reverse (reverse graph))
reverse-reverse_example = reverse-reverse graph graph-IsMap

-- the workspace once it has its router and its call graphs
abbrev graphs : WorkspaceCallGraphs
graphs = record {
  inward_callgraphs = (2, graph) ∷ [];
  outward_callgraphs = (2, outward_graph2) ∷ [];
}

abbrev routed : WorkspaceContext
routed = record workspace { router = some router; callgraphs = some graphs }

routed-IsForest : IsForest routed
routed-IsForest = record {
  rank = workspace-IsForest.rank;
  lower = workspace-IsForest.lower;
  own_ids = workspace-IsForest.own_ids;
}

entry_points2 : entrypoint_functions routed contract2 ≡ some (f10 ∷ [])
unfolding entrypoint_functions lookup
entry_points2 = refl

create_raw_callgraph-IsCallGraph_example :
    (g : RawCallGraph) × (create_raw_callgraph routed contract2 ≡ some (some g))
    × IsCallGraph (resolved routed contract2) (10 ∷ []) g
    × IsKeyed (resolved routed contract2) (10 ∷ []) g
create_raw_callgraph-IsCallGraph_example =
    create_raw_callgraph-IsCallGraph routed contract2 routed-IsForest (f10 ∷ []) entry_points2

raw_callgraph2 : create_raw_callgraph routed contract2 ≡ some (some graph)
unfolding create_raw_callgraph insert entrypoint_functions lookup starts_with contains_text
    is_internal_call is_deployable_contract node_type referenced_declaration selectorish lookup_text
    text_eq is_in c3 get_closest_ancestor suspected_target_function suspected_target_modifier
    resolve_internal_call resolve_modifier_call visiting create_connection_if_not_exists
    create_node_if_not_exists connecting
raw_callgraph2 = refl

abbrev built : WorkspaceCallGraphs
built = record {
  inward_callgraphs = (1, (10, 11 ∷ 12 ∷ []) ∷ (12, []) ∷ (11, []) ∷ []) ∷ [];
  outward_callgraphs = (1, (11, 10 ∷ []) ∷ (12, 10 ∷ []) ∷ []) ∷ [];
}

abbrev one_contract : WorkspaceContext
one_contract = record routed { contract_definitions = contract1 ∷ [] }

one_contract-build : build one_contract ≡ some built
unfolding build deployable_contracts insert reverse create_raw_callgraph entrypoint_functions lookup
    starts_with contains_text is_internal_call is_deployable_contract node_type
    referenced_declaration selectorish lookup_text text_eq is_in c3 get_closest_ancestor
    suspected_target_function suspected_target_modifier resolve_internal_call resolve_modifier_call
    visiting create_connection_if_not_exists create_node_if_not_exists connecting
one_contract-build = refl

build-reversed_example :
    lookup 1 built.outward_callgraphs ≡ reversed (lookup 1 built.inward_callgraphs)
build-reversed_example = build-reversed one_contract built one_contract-build 1

-- a visitor that keeps the ids that it is called with
abbrev noting : ℕ → List ℕ → List ℕ × Bool
noting i seen = (i ∷ seen, true)

abbrev tracker : CallGraphVisitor (List ℕ)
tracker = record {
  visit_entry_point = λ n seen. (seen, true);
  visit_inward_function_definition = λ f. noting f.id;
  visit_outward_function_definition = λ f. noting f.id;
  visit_inward_modifier_definition = λ m. noting m.id;
  visit_outward_modifier_definition = λ m. noting m.id;
  visit_outward_side_effect_function_definition = λ f. noting f.id;
  visit_outward_side_effect_modifier_definition = λ m. noting m.id;
}

-- from `g` of contract 2, both ways
abbrev consumer : CallGraphConsumer
consumer = record {
  entry_points = 21 ∷ [];
  inward_surface_points = [];
  outward_surface_points = 21 ∷ [];
  direction = CallGraphDirection.both_ways;
  base_contract = some 2;
}

has_inward : inward_graph routed consumer graphs ≡ some graph
unfolding inward_graph lookup
has_inward = refl

has_outward : outward_graph routed consumer graphs ≡ some outward_graph2
unfolding outward_graph lookup
has_outward = refl

accept-Planned_example :
    (is : List ℕ) × (os : List ℕ) × (es : List ℕ) × Planned consumer graph outward_graph2 is os es
    × ((s : List ℕ)
        → accept routed tracker consumer s
          ≡ some (planned_visits routed tracker consumer is os es s))
accept-Planned_example =
    accept-Planned routed tracker consumer graphs graph outward_graph2 refl has_inward has_outward

-- outward to `f`, and as a side effect of that to its modifier
visits_both_ways : accept routed tracker consumer [] ≡ some (ok (12 ∷ 10 ∷ 21 ∷ []))
unfolding accept lookup aderyn.Graph.Legacy.is_function_or_modifier
visits_both_ways = refl

abbrev lost : CallGraphConsumer
lost = record consumer { base_contract = some 7 }

accept-unavailable_example :
    accept routed tracker lost []
    ≡ some (
        err
          (if is_some (inward_graph routed lost graphs)
            then outward_callgraph_not_available
            else inward_callgraph_not_available)
          [])
accept-unavailable_example =
    accept-unavailable routed tracker lost graphs refl (unfold inward_graph lookup in refl) []

is_point-add_example : is_point GraphPointType.inward 2 21 (add GraphPointType.inward 2 21 []) ≡ (
    is_point GraphPointType.inward 2 21 []
    || ((is_type GraphPointType.inward GraphPointType.inward && 2 == 2) && 21 == 21))
is_point-add_example = is_point-add GraphPointType.inward GraphPointType.inward 2 2 21 21 []

abbrev asked_nodes : List AstNode
asked_nodes = AstNode.function_definition f10 ∷ AstNode.other_node (some 40) nothing ∷ []

derive_surface_points-asked_example :
    Collects routed asked_nodes (some graphs) (derive_surface_points routed asked_nodes)
derive_surface_points-asked_example = derive_surface_points-asked routed routed-IsForest asked_nodes

from_nodes-Expected_example :
    Expected workspace asked_nodes CallGraphDirection.inward
      (first_unidentified asked_nodes)
      (from_nodes workspace asked_nodes CallGraphDirection.inward)
from_nodes-Expected_example =
    from_nodes-Expected workspace asked_nodes CallGraphDirection.inward workspace-IsForest
