-- ===== src/Graph/Surface.antt =====
-- The points from which a consumer explores: aderyn_core/src/context/graph/callgraph/legacy.rs, new.rs
-- and utils.rs. An outer `none` is a walk that has not ended, or a panic. A set is a list with each
-- member once.
pub mod Points
pub mod Stands
pub mod Gives
pub mod Derive
pub mod Legacy
use aderyn.Prelude.{
  ℕ, Bool, true, false, Option, none, some, ◌>>=◌, List, [], ◌∷◌, ◌++◌, ◌⊎◌, inl, inr,
  if◌then◌else◌, contains,
}
use aderyn.Prelude.Assoc.{lookup, insert}
use aderyn.Workspace.Ast.{
  AstNode, function_definition, modifier_definition, FunctionCall, ModifierInvocation,
  ContractDefinition, NodeType, node_id, extracted,
}
use aderyn.Workspace.Context.{WorkspaceContext, RawCallGraph, WorkspaceCallGraphs}
use aderyn.Workspace.Ancestors.{closest_ancestor_of_type}
use aderyn.Router.Resolve.{contract_of}
use aderyn.Router.Ask.{resolve_internal_call, resolve_modifier_call}
use aderyn.Graph.Legacy.{is_function_or_modifier}
use aderyn.Graph.New.{function_id, modifier_id}
use aderyn.Graph.New.Stack.{has_key}
use aderyn.Graph.Consumer.{
  Error, unidentified_entry_point_node, CallGraphDirection, CallGraphConsumer,
}

-- `node.closest_ancestor_of_type(..).or_else(|| ..)`
or_else : Option AstNode → Option (Option AstNode) → Option (Option AstNode)
or_else (some n) o = some (some n)
or_else none o = o

-- the function or modifier around a node
unfoldable pub parent_surface_point : WorkspaceContext → AstNode → Option (Option AstNode)
unfolding or_else
parent_surface_point ctx n = closest_ancestor_of_type ctx n NodeType.function_definition >>= λ f.
    or_else f (closest_ancestor_of_type ctx n NodeType.modifier_definition)

-- `containing_function_or_modifier`, which `derive_outward_surface_points` has inline
unfoldable pub containing_function_or_modifier : WorkspaceContext → AstNode → Option (Option ℕ)
unfolding parent_surface_point
containing_function_or_modifier ctx n =
    if is_function_or_modifier n
    then some (node_id n)
    else parent_surface_point ctx n >>= λ p. some (p >>= node_id)

abbrev pub onto : Option ℕ → List ℕ → List ℕ
onto none xs = xs
onto (some x) xs = x ∷ xs

unfoldable pub derive_outward_surface_points : WorkspaceContext → List AstNode → Option (List ℕ)
unfolding containing_function_or_modifier
derive_outward_surface_points ctx [] = some []
derive_outward_surface_points ctx (n ∷ ns) = containing_function_or_modifier ctx n >>= λ p.
    derive_outward_surface_points ctx ns >>= λ ps. some (onto p ps)

entry_point : Option ℕ → AstNode → Error ⊎ List ℕ → Error ⊎ List ℕ
entry_point none n rest = inl (unidentified_entry_point_node n)
entry_point (some i) n (inl e) = inl e
entry_point (some i) n (inr is) = inr (i ∷ is)

unfoldable pub derive_entry_points : List AstNode → Error ⊎ List ℕ
unfolding entry_point
derive_entry_points [] = inr []
derive_entry_points (n ∷ ns) = entry_point (node_id n) n (derive_entry_points ns)

-- a declaration that can be visited: a modifier, or a function with a body
pub is_inward_target : Option AstNode → Bool
is_inward_target (some (AstNode.modifier_definition m)) = true
is_inward_target (some (AstNode.function_definition f)) = f.implemented
is_inward_target _ = false

inward_targets : WorkspaceContext → List ℕ → List ℕ
unfolding is_inward_target
inward_targets ctx [] = []
inward_targets ctx (d ∷ ds) =
    if is_inward_target (lookup d ctx.nodes)
    then d ∷ inward_targets ctx ds
    else inward_targets ctx ds

unfoldable pub derive_inward_surface_points_legacy : WorkspaceContext → List AstNode → List ℕ
unfolding inward_targets
derive_inward_surface_points_legacy ctx [] = []
derive_inward_surface_points_legacy ctx (n ∷ ns) =
    inward_targets ctx (extracted n).referenced_declarations
    ++ derive_inward_surface_points_legacy ctx ns

pub record GraphPoints : Type 0 where
  pub entry : List ℕ
  pub inward : List ℕ
  pub outward : List ℕ

pub data GraphPointType : Type 0 where
  entry inward outward : GraphPointType

-- `CallgraphExplorationPoints`
abbrev pub ExplorationPoints : Type 0
ExplorationPoints = List (ℕ × GraphPoints)

abbrev pub no_points : GraphPoints
no_points = record { entry = []; inward = []; outward = [] }

-- `HashSet::insert`
abbrev pub put : ℕ → List ℕ → List ℕ
put p ps = if contains ps p then ps else p ∷ ps

put_point : GraphPointType → ℕ → GraphPoints → GraphPoints
put_point GraphPointType.entry p o = record o { entry = put p o.entry }
put_point GraphPointType.inward p o = record o { inward = put p o.inward }
put_point GraphPointType.outward p o = record o { outward = put p o.outward }

-- an occupied entry gets the point; a vacant one is filled first
add_at : Option GraphPoints → GraphPointType → ℕ → ℕ → ExplorationPoints → ExplorationPoints
unfolding put_point
add_at (some o) t c p points = insert c (put_point t p o) points
add_at none t c p points = insert c (put_point t p no_points) (insert c no_points points)

unfoldable pub add : GraphPointType → ℕ → ℕ → ExplorationPoints → ExplorationPoints
unfolding add_at
add t c p points = add_at (lookup c points) t c p points

abbrev pub add_if : GraphPointType → ℕ → Option ℕ → ExplorationPoints → ExplorationPoints
add_if t c none points = points
add_if t c (some p) points = add t c p points

module _ (ctx : WorkspaceContext) (contract : ContractDefinition) (id : ℕ) where
  add_function_calls : List FunctionCall → ExplorationPoints → Option ExplorationPoints
  unfolding add
  add_function_calls [] points = some points
  add_function_calls (c ∷ cs) points = resolve_internal_call ctx contract c >>= λ f.
      add_function_calls cs (add_if GraphPointType.inward id (function_id f) points)

  add_modifier_calls : List ModifierInvocation → ExplorationPoints → Option ExplorationPoints
  unfolding add
  add_modifier_calls [] points = some points
  add_modifier_calls (c ∷ cs) points = resolve_modifier_call ctx contract c >>= λ m.
      add_modifier_calls cs (add_if GraphPointType.inward id (modifier_id m) points)

  -- the points of a node in a contract whose graph has the function or modifier around it
  add_points_of : AstNode → ℕ → ExplorationPoints → Option ExplorationPoints
  unfolding add_function_calls add_modifier_calls
  add_points_of node containing points =
      add_function_calls (extracted node).function_calls
        (add_if GraphPointType.entry id (node_id node) points)
      >>= λ p1. add_modifier_calls (extracted node).modifier_invocations p1 >>= λ p2.
          some (add GraphPointType.outward id containing p2)

module _ (ctx : WorkspaceContext) (node : AstNode) (containing : ℕ) where
  add_in_graph :
      Option ContractDefinition → ℕ → RawCallGraph → ExplorationPoints → Option ExplorationPoints
  unfolding add_points_of
  add_in_graph none id graph points = some points
  add_in_graph (some contract) id graph points =
      if has_key graph containing
      then add_points_of ctx contract id node containing points
      else some points

  pub for_graphs : List (ℕ × RawCallGraph) → ExplorationPoints → Option ExplorationPoints
  unfolding add_in_graph
  for_graphs [] points = some points
  for_graphs ((id, graph) ∷ graphs) points =
      add_in_graph (contract_of (lookup id ctx.nodes)) id graph points >>= for_graphs graphs

for_containing :
    WorkspaceContext → AstNode → Option ℕ → ExplorationPoints → Option ExplorationPoints
unfolding for_graphs
for_containing ctx node none points = some points
for_containing ctx node (some containing) points =
    ctx.callgraphs >>= λ cg. for_graphs ctx node containing cg.inward_callgraphs points

for_nodes : WorkspaceContext → List AstNode → ExplorationPoints → Option ExplorationPoints
unfolding for_containing containing_function_or_modifier
for_nodes ctx [] points = some points
for_nodes ctx (n ∷ ns) points = containing_function_or_modifier ctx n >>= λ containing.
    for_containing ctx n containing points >>= for_nodes ctx ns

-- The call graphs of the context are expected as soon as a node has a function around it: a panic if they
-- have not been built.
unfoldable pub derive_surface_points : WorkspaceContext → List AstNode → Option ExplorationPoints
unfolding for_nodes
derive_surface_points ctx nodes = for_nodes ctx nodes []

from_entry_points :
    WorkspaceContext
    → List AstNode
    → CallGraphDirection
    → Error ⊎ List ℕ
    → Option (Error ⊎ CallGraphConsumer)
unfolding derive_outward_surface_points derive_inward_surface_points_legacy
from_entry_points ctx nodes direction (inl e) = some (inl e)
from_entry_points ctx nodes direction (inr entry_points) =
    derive_outward_surface_points ctx nodes >>= λ outward. some (
      inr (record {
        entry_points = entry_points;
        inward_surface_points = derive_inward_surface_points_legacy ctx nodes;
        outward_surface_points = outward;
        direction = direction;
        base_contract = none;
      }))

-- `CallGraphConsumer::from_nodes`
unfoldable pub from_nodes :
    WorkspaceContext → List AstNode → CallGraphDirection → Option (Error ⊎ CallGraphConsumer)
unfolding from_entry_points derive_entry_points
from_nodes ctx nodes direction = from_entry_points ctx nodes direction (derive_entry_points nodes)

consumers : CallGraphDirection → ExplorationPoints → List CallGraphConsumer
consumers direction [] = []
consumers direction ((id, points) ∷ rest) =
    record {
      entry_points = points.entry;
      inward_surface_points = points.inward;
      outward_surface_points = points.outward;
      direction = direction;
      base_contract = some id;
    }
    ∷ consumers direction rest

-- `CallGraphConsumer::many_from_nodes`
unfoldable pub many_from_nodes :
    WorkspaceContext → List AstNode → CallGraphDirection → Option (List CallGraphConsumer)
unfolding derive_surface_points consumers
many_from_nodes ctx nodes direction =
    derive_surface_points ctx nodes >>= λ points. some (consumers direction points)
