-- ===== src/Workspace/Ast.antt =====
-- The declarations and calls of aderyn_core/src/ast/ast_nodes.rs that the router and the call graphs
-- read, and the methods of ast/impls/own/utils.rs on them. An id is only ever compared, so it is a
-- number that stands for it. A node carries what the extractors of ast/extract.rs collect from it.
use aderyn.Prelude.{
  ℕ, Bool, true, false, not, ◌&&◌, Option, none, some, List, [], ◌∷◌, ◌++◌, if◌then◌else◌,
}
use aderyn.Stats.Text.{Text, starts_with, codes}

pub record TypeDescriptions : Type 0 where
  pub type_string : Option Text
  pub type_identifier : Option Text

pub data Visibility : Type 0 where
  public private internal external : Visibility

pub data ContractKind : Type 0 where
  contract interface library : ContractKind

pub data FunctionKind : Type 0 where
  constructor function receive fallback free_function : FunctionKind

pub data FunctionCallKind : Type 0 where
  function_call type_conversion struct_constructor_call : FunctionCallKind

pub record Identifier : Type 0 where
  pub name : Text
  pub referenced_declaration : Option ℕ
  pub type_descriptions : TypeDescriptions

pub record IdentifierPath : Type 0 where
  pub name : Text
  pub referenced_declaration : ℕ

pub data IdentifierOrIdentifierPath : Type 0 where
  identifier : Identifier → IdentifierOrIdentifierPath
  identifier_path : IdentifierPath → IdentifierOrIdentifierPath

-- the expressions that a call may have: `member_access` is what it is a member of, the declaration
-- that it refers to and its type
pub data Expression : Type 0 where
  identifier : Identifier → Expression
  member_access : Expression → Option ℕ → TypeDescriptions → Expression
  other_expression : Expression

pub record FunctionCall : Type 0 where
  pub id : ℕ
  pub kind : FunctionCallKind
  pub expression : Expression

pub record ModifierInvocation : Type 0 where
  pub id : ℕ
  pub modifier_name : IdentifierOrIdentifierPath

-- What `ExtractFunctionCalls`, `ExtractModifierInvocations`, `ExtractReferencedDeclarations` and
-- `ExtractImmediateChildrenIDs` collect from a node, and its `src`, which a few nodes do not have.
pub record Extracted : Type 0 where
  pub function_calls : List FunctionCall
  pub modifier_invocations : List ModifierInvocation
  pub referenced_declarations : List ℕ
  pub immediate_children : List ℕ
  pub src : Option Text

pub record VariableDeclaration : Type 0 where
  pub id : ℕ
  pub function_selector : Option Text
  pub visibility : Visibility
  pub type_descriptions : TypeDescriptions
  pub extracted : Extracted

pub record FunctionDefinition : Type 0 where
  pub id : ℕ
  pub name : Text
  pub function_selector : Option Text
  pub implemented : Bool
  pub kind : Option FunctionKind
  pub is_constructor : Bool
  pub parameters : List VariableDeclaration
  pub visibility : Visibility
  pub extracted : Extracted

pub record ModifierDefinition : Type 0 where
  pub id : ℕ
  pub name : Text
  pub parameters : List VariableDeclaration
  pub extracted : Extracted

-- the nodes of a contract that its methods ask for
pub data ContractDefinitionNode : Type 0 where
  variable_declaration : VariableDeclaration → ContractDefinitionNode
  function_definition : FunctionDefinition → ContractDefinitionNode
  modifier_definition : ModifierDefinition → ContractDefinitionNode
  other_member : ContractDefinitionNode

pub record ContractDefinition : Type 0 where
  pub id : ℕ
  pub kind : ContractKind
  pub is_abstract : Bool
  pub nodes : List ContractDefinitionNode
  pub linearized_base_contracts : List ℕ
  pub extracted : Extracted

-- any other node has an id, or none
pub data AstNode : Type 0 where
  function_definition : FunctionDefinition → AstNode
  modifier_definition : ModifierDefinition → AstNode
  contract_definition : ContractDefinition → AstNode
  variable_declaration : VariableDeclaration → AstNode
  other_node : Option ℕ → Extracted → AstNode

-- `NodeType`; the others are one
pub data NodeType : Type 0 where
  function_definition modifier_definition contract_definition variable_declaration : NodeType
  other_type : NodeType

unfoldable pub node_type : AstNode → NodeType
node_type (AstNode.function_definition f) = NodeType.function_definition
node_type (AstNode.modifier_definition m) = NodeType.modifier_definition
node_type (AstNode.contract_definition c) = NodeType.contract_definition
node_type (AstNode.variable_declaration v) = NodeType.variable_declaration
node_type (AstNode.other_node i e) = other_type

abbrev pub type_eq : NodeType → NodeType → Bool
type_eq NodeType.function_definition NodeType.function_definition = true
type_eq NodeType.modifier_definition NodeType.modifier_definition = true
type_eq NodeType.contract_definition NodeType.contract_definition = true
type_eq NodeType.variable_declaration NodeType.variable_declaration = true
type_eq other_type other_type = true
type_eq _ _ = false

unfoldable pub node_id : AstNode → Option ℕ
node_id (AstNode.function_definition f) = some f.id
node_id (AstNode.modifier_definition m) = some m.id
node_id (AstNode.contract_definition c) = some c.id
node_id (AstNode.variable_declaration v) = some v.id
node_id (AstNode.other_node i e) = i

abbrev pub extracted : AstNode → Extracted
extracted (AstNode.function_definition f) = f.extracted
extracted (AstNode.modifier_definition m) = m.extracted
extracted (AstNode.contract_definition c) = c.extracted
extracted (AstNode.variable_declaration v) = v.extracted
extracted (AstNode.other_node i e) = e

abbrev pub is_public : Visibility → Bool
is_public public = true
is_public _ = false

abbrev pub is_private : Visibility → Bool
is_private private = true
is_private _ = false

-- `Visibility::Internal | Visibility::Public`
abbrev pub is_internal_or_public : Visibility → Bool
is_internal_or_public internal = true
is_internal_or_public public = true
is_internal_or_public _ = false

abbrev pub is_contract : ContractKind → Bool
is_contract contract = true
is_contract _ = false

abbrev pub is_library : ContractKind → Bool
is_library library = true
is_library _ = false

-- `FunctionDefinition::kind`
unfoldable pub function_kind : FunctionDefinition → FunctionKind
function_kind f = elim f.kind [
  | some k ↦ k
  | none ↦ if f.is_constructor then constructor else function
]

or_empty : Option Text → Text
or_empty none = []
or_empty (some t) = t

type_texts : List VariableDeclaration → Text
unfolding or_empty
type_texts [] = []
type_texts (p ∷ ps) =
    or_empty p.type_descriptions.type_string
    ++ b'!' ∷ or_empty p.type_descriptions.type_identifier
    ++ b'@' ∷ type_texts ps

-- `FunctionDefinition::selectorish` and `ModifierDefinition::selectorish`, from the name and the parameters
unfoldable pub selectorish : Text → List VariableDeclaration → Text
unfolding type_texts
selectorish name parameters = name ++ b':' ∷ type_texts parameters

is_function_call : FunctionCallKind → Bool
is_function_call function_call = true
is_function_call _ = false

is_internal_type : TypeDescriptions → Option Bool
is_internal_type t = elim t.type_identifier [
  | some ty_ident ↦ some (starts_with ty_ident (codes "t_function_internal"))
  | none ↦ none
]

internal_by_type : Expression → Option Bool
unfolding is_internal_type
internal_by_type (Expression.identifier i) = is_internal_type i.type_descriptions
internal_by_type (member_access e r t) = is_internal_type t
internal_by_type other_expression = none

unfoldable pub is_internal_call : FunctionCall → Option Bool
unfolding is_function_call internal_by_type
is_internal_call c = if is_function_call c.kind then internal_by_type c.expression else some false

function_definitions_of : List ContractDefinitionNode → List FunctionDefinition
function_definitions_of [] = []
function_definitions_of (ContractDefinitionNode.function_definition f ∷ ns) =
    f ∷ function_definitions_of ns
function_definitions_of (n ∷ ns) = function_definitions_of ns

unfoldable pub contract_functions : ContractDefinition → List FunctionDefinition
unfolding function_definitions_of
contract_functions c = function_definitions_of c.nodes

modifier_definitions_of : List ContractDefinitionNode → List ModifierDefinition
modifier_definitions_of [] = []
modifier_definitions_of (ContractDefinitionNode.modifier_definition m ∷ ns) =
    m ∷ modifier_definitions_of ns
modifier_definitions_of (n ∷ ns) = modifier_definitions_of ns

unfoldable pub contract_modifiers : ContractDefinition → List ModifierDefinition
unfolding modifier_definitions_of
contract_modifiers c = modifier_definitions_of c.nodes

variables_of : List ContractDefinitionNode → List VariableDeclaration
variables_of [] = []
variables_of (ContractDefinitionNode.variable_declaration v ∷ ns) = v ∷ variables_of ns
variables_of (n ∷ ns) = variables_of ns

unfoldable pub top_level_variables : ContractDefinition → List VariableDeclaration
unfolding variables_of
top_level_variables c = variables_of c.nodes

unfoldable pub is_deployable_contract : ContractDefinition → Bool
is_deployable_contract c = is_contract c.kind && not c.is_abstract

-- `IdentifierOrIdentifierPath::referenced_declaration`
unfoldable pub referenced_declaration : IdentifierOrIdentifierPath → Option ℕ
referenced_declaration (IdentifierOrIdentifierPath.identifier i) = i.referenced_declaration
referenced_declaration (identifier_path p) = some p.referenced_declaration
