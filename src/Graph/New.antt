-- ===== src/Graph/New.antt =====
-- `WorkspaceCallGraphs::build` and `_create_raw_callgraph` of
-- aderyn_core/src/context/graph/preprocess/new.rs. An outer `none` is a walk that has not ended.
pub mod Stack
pub mod Total
pub mod Transposed
use aderyn.Prelude.{
  ℕ, zero, suc, ◌+◌, Option, none, some, ◌>>=◌, List, [], ◌∷◌, if◌then◌else◌, contains, length,
}
use aderyn.Prelude.Assoc.{lookup, insert}
use aderyn.Workspace.Ast.{
  AstNode, FunctionCall, ModifierInvocation, FunctionDefinition, ModifierDefinition,
  ContractDefinition, extracted,
}
use aderyn.Workspace.Context.{WorkspaceContext, RawCallGraph, WorkspaceCallGraphs}
use aderyn.Router.Build.{deployable_contracts}
use aderyn.Router.Ask.{entrypoint_functions, resolve_internal_call, resolve_modifier_call}
use aderyn.Graph.Raw.{create_node_if_not_exists}
use aderyn.Graph.Reverse.{reverse}
use aderyn.Graph.Search.{Search, fresh, connecting}

-- the search, and the stack `current` with its top first
abbrev pub Pending : Type 0
Pending = Search × List ℕ

-- a connection to what a call resolves to, which is pushed
push_target : ℕ → Option ℕ → Pending → Pending
push_target id none p = p
push_target id (some t) (s, current) = (connecting id t s, t ∷ current)

abbrev pub function_id : Option FunctionDefinition → Option ℕ
function_id none = none
function_id (some f) = some f.id

abbrev pub modifier_id : Option ModifierDefinition → Option ℕ
modifier_id none = none
modifier_id (some m) = some m.id

-- the visit of a node: it is noted, and is a node of the graph
unfoldable pub visiting : ℕ → Search → Search
visiting id s = record {
  raw_callgraph = create_node_if_not_exists id s.raw_callgraph;
  visited = id ∷ s.visited;
}

abbrev pub calls_in : AstNode → ℕ
calls_in n = length (extracted n).function_calls + length (extracted n).modifier_invocations

-- the calls and invocations in the nodes
abbrev pub call_count : List (ℕ × AstNode) → ℕ
call_count [] = 0
call_count ((k, n) ∷ m) = calls_in n + call_count m

module _ (ctx : WorkspaceContext) (contract : ContractDefinition) where
  for_function_calls : ℕ → List FunctionCall → Pending → Option Pending
  unfolding push_target
  for_function_calls id [] p = some p
  for_function_calls id (c ∷ cs) p = resolve_internal_call ctx contract c >>= λ f.
      for_function_calls id cs (push_target id (function_id f) p)

  for_modifier_calls : ℕ → List ModifierInvocation → Pending → Option Pending
  unfolding push_target
  for_modifier_calls id [] p = some p
  for_modifier_calls id (c ∷ cs) p = resolve_modifier_call ctx contract c >>= λ m.
      for_modifier_calls id cs (push_target id (modifier_id m) p)

  -- the inside of a node that has been visited for the first time
  for_calls : ℕ → Option AstNode → Pending → Option Pending
  unfolding for_function_calls for_modifier_calls
  for_calls id none p = some p
  for_calls id (some node) p =
      for_function_calls id (extracted node).function_calls p
      >>= for_modifier_calls id (extracted node).modifier_invocations

  -- `while let Some(node_id) = current.pop()`
  while_pop : ℕ → Search → List ℕ → Option Search
  unfolding for_calls visiting
  while_pop fuel s [] = some s
  while_pop zero s (id ∷ current) = none
  while_pop (suc fuel) s (id ∷ current) =
      let loop = while_pop fuel in
      if contains s.visited id
      then loop s current
      else for_calls id (lookup id ctx.nodes) (visiting id s, current) >>= λ p. loop p.0 p.1

  for_entrypoints : List FunctionDefinition → Search → Option Search
  unfolding while_pop
  for_entrypoints [] s = some s
  for_entrypoints (f ∷ fs) s =
      while_pop (call_count ctx.nodes + 1) s (f.id ∷ []) >>= for_entrypoints fs

  from_entrypoints : Option (List FunctionDefinition) → Option (Option RawCallGraph)
  unfolding for_entrypoints
  from_entrypoints none = some none
  from_entrypoints (some entrypoints) =
      for_entrypoints entrypoints fresh >>= λ s. some (some s.raw_callgraph)

  unfoldable pub create_raw_callgraph : Option (Option RawCallGraph)
  unfolding from_entrypoints
  create_raw_callgraph = from_entrypoints (entrypoint_functions ctx contract)

-- the two maps get an entry, or are left
add_callgraphs : ℕ → Option RawCallGraph → WorkspaceCallGraphs → WorkspaceCallGraphs
add_callgraphs id none w = w
add_callgraphs id (some g) w = record {
  inward_callgraphs = insert id g w.inward_callgraphs;
  outward_callgraphs = insert id (reverse g) w.outward_callgraphs;
}

for_contracts :
    WorkspaceContext → List ContractDefinition → WorkspaceCallGraphs → Option WorkspaceCallGraphs
unfolding add_callgraphs create_raw_callgraph
for_contracts ctx [] w = some w
for_contracts ctx (c ∷ cs) w =
    create_raw_callgraph ctx c >>= λ g. for_contracts ctx cs (add_callgraphs c.id g w)

unfoldable pub build : WorkspaceContext → Option WorkspaceCallGraphs
unfolding for_contracts
build ctx =
    for_contracts ctx (deployable_contracts ctx)
      (record { inward_callgraphs = []; outward_callgraphs = [] })
