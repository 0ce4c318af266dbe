-- ===== src/Workspace/Context.antt =====
-- `WorkspaceContext` of aderyn_core/src/context/workspace.rs with the tables that it holds: those of
-- context/router.rs and context/graph.rs. A `HashMap` is an association list.
use aderyn.Prelude.{ℕ, Bool, true, false, Option, none, some, List, [], ◌∷◌, ◌==◌, if◌then◌else◌}
use aderyn.Prelude.Assoc.{lookup}
use aderyn.Stats.Text.{Text}
use aderyn.Workspace.Ast.{
  AstNode, contract_definition, FunctionDefinition, ModifierDefinition, ContractDefinition,
}

-- the functions and modifiers that each one uses
abbrev pub RawCallGraph : Type 0
RawCallGraph = List (ℕ × List ℕ)

pub record WorkspaceCallGraphs : Type 0 where
  pub inward_callgraphs : List (ℕ × RawCallGraph)
  pub outward_callgraphs : List (ℕ × RawCallGraph)

-- `ECDest`
pub data EcDest : Type 0 where
  pseudo_ext_fn real_ext_fn public_fn fallback receive : ℕ → EcDest

-- `ICStartLookupRoute` and `MCStartLookupRoute`: from a selectorish to a definition
abbrev pub StartLookupRoute : Type 0
StartLookupRoute = List (Text × ℕ)

-- `BaseRoute`: a route for each contract that the lookup may start from
abbrev pub BaseRoute : Type 0
BaseRoute = List (ℕ × StartLookupRoute)

-- `ECStartLookupRoute`: from a selector to a destination
abbrev pub EcRoutes : Type 0
EcRoutes = List (Text × EcDest)

pub record Router : Type 0 where
  pub internal_calls : List (ℕ × BaseRoute)
  pub external_calls : List (ℕ × EcRoutes)
  pub modifier_calls : List (ℕ × BaseRoute)

-- the fields of a source unit that the getters read
pub record SourceUnit : Type 0 where
  pub id : ℕ
  pub absolute_path : Option Text
  pub source : Option Text

-- `source_unit_ids` is the tables from a node to its source unit, one for each kind of node; a source
-- unit stands in its own.
pub record WorkspaceContext : Type 0 where
  pub parent_link : List (ℕ × ℕ)
  pub router : Option Router
  pub nodes : List (ℕ × AstNode)
  pub inward_callgraph : Option RawCallGraph
  pub outward_callgraph : Option RawCallGraph
  pub callgraphs : Option WorkspaceCallGraphs
  pub function_definitions : List FunctionDefinition
  pub modifier_definitions : List ModifierDefinition
  pub contract_definitions : List ContractDefinition
  pub source_unit_ids : AstNode → Option ℕ
  pub source_units_context : List SourceUnit

contract_at : Option AstNode → Option ContractDefinition
contract_at (some (contract_definition c)) = some c
contract_at _ = none

collect_contracts : List (ℕ × AstNode) → List ℕ → List ContractDefinition
unfolding contract_at
collect_contracts nodes [] = []
collect_contracts nodes (i ∷ is) = elim (contract_at (lookup i nodes)) [
  | some c ↦ c ∷ collect_contracts nodes is
  | none ↦ collect_contracts nodes is
]

-- `ContractDefinition::c3`
unfoldable pub c3 : WorkspaceContext → ContractDefinition → List ContractDefinition
unfolding collect_contracts
c3 ctx c = collect_contracts ctx.nodes c.linearized_base_contracts

unfoldable pub first_contract : List ContractDefinition → Option ContractDefinition
first_contract [] = none
first_contract (c ∷ cs) = some c

unfoldable pub next_after : ℕ → List ContractDefinition → Option ContractDefinition
unfolding first_contract
next_after i [] = none
next_after i (c ∷ cs) = if c.id == i then first_contract cs else next_after i cs

-- `ContractDefinition::next_in`
unfoldable pub next_in :
    WorkspaceContext → ContractDefinition → ContractDefinition → Option ContractDefinition
unfolding next_after
next_in ctx self base_contract = next_after self.id (c3 ctx base_contract)

abbrev pub has_contract : ℕ → List ContractDefinition → Bool
has_contract i [] = false
has_contract i (c ∷ cs) = if c.id == i then true else has_contract i cs

-- `ContractDefinition::is_in`
unfoldable pub is_in : WorkspaceContext → ContractDefinition → ContractDefinition → Bool
is_in ctx self base_contract = has_contract self.id (c3 ctx base_contract)
