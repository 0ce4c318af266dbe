-- ===== src/Workspace/Tests.antt =====
-- A small workspace: contract 1 has `f` (10), which calls `g` by name (40) under the modifier 12, and
-- `g` (11); contract 2 derives from it and overrides `g` (21). Both are deployable.
mod Siblings
use aderyn.Prelude.{
  ℕ, true, false, Option, none, some, List, [], ◌∷◌, ◌≡◌, refl, arith, ltb, if◌then◌else◌, ◌<◌,
}
use aderyn.Prelude.Assoc.{lookup}
use aderyn.Stats.Text.{Text, codes}
use aderyn.Workspace.Ast.{
  TypeDescriptions, Visibility, public, internal, contract, function, function_call,
  identifier_path, Expression, FunctionCall, ModifierInvocation, Extracted, FunctionDefinition,
  ModifierDefinition, ContractDefinition, ContractDefinitionNode, AstNode, NodeType, node_id,
  node_type,
}
use aderyn.Workspace.Context.{WorkspaceContext}
use aderyn.Workspace.Ancestors.{get_ancestral_line, get_closest_ancestor}
use aderyn.Workspace.Ancestors.Line.{IsForest, first_of, get_closest_ancestor-first_of}

abbrev pub nothing : Extracted
nothing = record {
  function_calls = [];
  modifier_invocations = [];
  referenced_declarations = [];
  immediate_children = [];
  src = none;
}

abbrev internal_type : TypeDescriptions
internal_type = record {
  type_string = none;
  type_identifier = some (codes "t_function_internal_nonpayable");
}

abbrev pub call_g : FunctionCall
call_g = record {
  id = 40;
  kind = function_call;
  expression = Expression.identifier (record {
    name = codes "g";
    referenced_declaration = some 11;
    type_descriptions = internal_type;
  });
}

abbrev pub invoke_m : ModifierInvocation
invoke_m = record {
  id = 41;
  modifier_name = identifier_path (record { name = codes "m"; referenced_declaration = 12 });
}

abbrev pub inside_f : Extracted
inside_f = record {
  function_calls = call_g ∷ [];
  modifier_invocations = invoke_m ∷ [];
  referenced_declarations = 11 ∷ 12 ∷ [];
  immediate_children = [];
  src = none;
}

abbrev pub definition : ℕ → Text → Option Text → Visibility → Extracted → FunctionDefinition
definition id name selector visibility inside = record {
  id = id;
  name = name;
  function_selector = selector;
  implemented = true;
  kind = some function;
  is_constructor = false;
  parameters = [];
  visibility = visibility;
  extracted = inside;
}

abbrev pub f10 : FunctionDefinition
f10 = definition 10 (codes "f") (some (codes "26121ff0")) public inside_f

abbrev pub g11 : FunctionDefinition
g11 = definition 11 (codes "g") none internal nothing

abbrev pub g21 : FunctionDefinition
g21 = definition 21 (codes "g") none internal nothing

abbrev pub m12 : ModifierDefinition
m12 = record { id = 12; name = codes "m"; parameters = []; extracted = nothing }

abbrev pub contract1 : ContractDefinition
contract1 = record {
  id = 1;
  kind = contract;
  is_abstract = false;
  nodes =
      ContractDefinitionNode.function_definition f10
      ∷ ContractDefinitionNode.function_definition g11
      ∷ ContractDefinitionNode.modifier_definition m12
      ∷ [];
  linearized_base_contracts = 1 ∷ [];
  extracted = inside_f;
}

abbrev pub contract2 : ContractDefinition
contract2 = record {
  id = 2;
  kind = contract;
  is_abstract = false;
  nodes = ContractDefinitionNode.function_definition g21 ∷ [];
  linearized_base_contracts = 2 ∷ 1 ∷ [];
  extracted = nothing;
}

-- the call itself is a node too
abbrev pub workspace : WorkspaceContext
workspace = record {
  parent_link = (40, 10) ∷ (41, 10) ∷ (10, 1) ∷ (11, 1) ∷ (12, 1) ∷ (21, 2) ∷ [];
  router = none;
  nodes =
      (1, AstNode.contract_definition contract1)
      ∷ (2, AstNode.contract_definition contract2)
      ∷ (10, AstNode.function_definition f10)
      ∷ (11, AstNode.function_definition g11)
      ∷ (12, AstNode.modifier_definition m12)
      ∷ (21, AstNode.function_definition g21)
      ∷ (40, AstNode.other_node (some 40) nothing)
      ∷ [];
  inward_callgraph = none;
  outward_callgraph = none;
  callgraphs = none;
  function_definitions = f10 ∷ g11 ∷ g21 ∷ [];
  modifier_definitions = m12 ∷ [];
  contract_definitions = contract1 ∷ contract2 ∷ [];
  source_unit_ids = λ n. none;
  source_units_context = [];
}

-- how far a node is from its contract
abbrev depth : ℕ → ℕ
depth i = if ltb i 10 then 0 else if ltb i 40 then 1 else 2

links-lower : (i p : ℕ) → lookup i workspace.parent_link ≡ some p → depth p < depth i
unfolding lookup
links-lower i p h = ground (arith, h)

nodes-own_ids : (i : ℕ) (n : AstNode) → lookup i workspace.nodes ≡ some n → node_id n ≡ some i
unfolding lookup node_id
nodes-own_ids i n h = ground (arith, h)

pub workspace-IsForest : IsForest workspace
workspace-IsForest = record { rank = depth; lower = links-lower; own_ids = nodes-own_ids }

closest_contract :
    get_closest_ancestor workspace 40 NodeType.contract_definition
    ≡ some (some (AstNode.contract_definition contract1))
unfolding get_closest_ancestor lookup node_type
closest_contract = refl

get_closest_ancestor-first_of_example :
    (chain : List AstNode) × (get_ancestral_line workspace 40
      ≡ some (AstNode.other_node (some 40) nothing ∷ chain))
    × ((t : NodeType) → get_closest_ancestor workspace 40 t ≡ some (first_of t chain))
get_closest_ancestor-first_of_example =
    get_closest_ancestor-first_of workspace workspace-IsForest 40
      (AstNode.other_node (some 40) nothing) (unfold lookup in refl)
