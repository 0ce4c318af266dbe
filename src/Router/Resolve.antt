-- ===== src/Router/Resolve.antt =====
-- The lookups of aderyn_core/src/context/router. An outer `none` is a walk along the parents that has
-- not ended.
pub mod Total
pub mod Start
pub mod Dispatch
use aderyn.Prelude.{
  ℕ, Bool, true, false, not, ◌&&◌, Option, none, some, ◌>>=◌, List, [], ◌∷◌, ◌==◌, if◌then◌else◌,
}
use aderyn.Prelude.Assoc.{lookup}
use aderyn.Stats.Text.{Text, codes, contains_text}
use aderyn.Workspace.Ast.{
  AstNode, contract_definition, Expression, identifier, member_access, FunctionCall,
  FunctionDefinition, ModifierDefinition, ModifierInvocation, ContractDefinition,
  IdentifierOrIdentifierPath, identifier_path, NodeType, is_contract, is_library, is_private,
  is_internal_call, is_deployable_contract, selectorish,
}
use aderyn.Workspace.TextMap.{text_eq, lookup_text}
use aderyn.Workspace.Context.{
  WorkspaceContext, Router, BaseRoute, EcRoutes, EcDest, pseudo_ext_fn, real_ext_fn, public_fn,
  is_in, next_in,
}
use aderyn.Workspace.Ancestors.{get_closest_ancestor}
use aderyn.Router.Suspects.{
  function_at, modifier_at, suspected_target_function, suspected_function_selector,
  suspected_target_modifier,
}

-- `== Some(true)`
is_some_true : Option Bool → Bool
is_some_true (some true) = true
is_some_true _ = false

abbrev pub contract_of : Option AstNode → Option ContractDefinition
contract_of (some (AstNode.contract_definition c)) = some c
contract_of _ = none

-- what the contract around a call says of it
pub data Caller : Type 0 where
  unrelated in_library inheriting : Caller

module _ (context : WorkspaceContext) (r : Router) (base_contract : ContractDefinition) where
  caller_of : Option ContractDefinition → Caller
  caller_of none = inheriting
  caller_of (some caller) =
      if is_contract caller.kind && not (is_in context caller base_contract)
      then unrelated
      else if is_library caller.kind
      then in_library
      else inheriting

  -- the closures `resolve`: the entry of the start's table, or what the call refers to
  unfoldable pub entry_or : {A : Type 0} → (Option AstNode → Option A) → A → Option ℕ → Option A
  entry_or at aux none = some aux
  entry_or at aux (some id) = at (lookup id context.nodes)

  unfoldable pub resolve_from :
      {A : Type 0}
      → (Option AstNode → Option A)
      → A
      → Text
      → BaseRoute
      → ContractDefinition
      → Option A
  unfolding entry_or
  resolve_from at aux key routes starting_point =
      lookup starting_point.id routes >>= λ lookup_index.
      entry_or at aux (lookup_text key lookup_index)

  -- where the lookup of a call starts
  start_of_super : ℕ → Option (Option ContractDefinition)
  start_of_super call_id =
      get_closest_ancestor context call_id NodeType.contract_definition >>= λ a.
      some (contract_of a >>= λ calling. next_in context calling base_contract)

  start_of_named : ℕ → Option ContractDefinition
  start_of_named ref_id = contract_of (lookup ref_id context.nodes) >>= λ called.
      if is_in context called base_contract then some called else none

  start_of_member : ℕ → Expression → Option (Option ContractDefinition)
  unfolding start_of_super start_of_named
  start_of_member call_id (Expression.identifier i) = elim i.referenced_declaration [
    | none ↦ some none
    | some ref_id ↦
        if text_eq i.name (codes "super")
        then start_of_super call_id
        else some (start_of_named ref_id)
  ]
  start_of_member call_id _ = some none

  unfoldable pub lookup_start : FunctionCall → Option (Option ContractDefinition)
  unfolding start_of_member
  lookup_start call = elim call.expression [
    | Expression.identifier i ↦ some (some base_contract)
    | Expression.member_access e ref t ↦ start_of_member call.id e
    | Expression.other_expression ↦ some none
  ]

  -- the lookup in the tables of the base contract, if it has any
  in_index :
      FunctionCall → FunctionDefinition → Option BaseRoute → Option (Option FunctionDefinition)
  unfolding lookup_start resolve_from
  in_index call aux_func none = some none
  in_index call aux_func (some base_index) = lookup_start call >>= λ start. some (
      start
      >>= resolve_from function_at aux_func (selectorish aux_func.name aux_func.parameters)
          base_index)

  -- `perform_ic_lookup_through_inheritance_tree_and_fallback_to_suspect`
  unfoldable pub perform_ic_lookup :
      FunctionCall → FunctionDefinition → Option (Option FunctionDefinition)
  unfolding in_index
  perform_ic_lookup call aux_func =
      in_index call aux_func (lookup base_contract.id r.internal_calls)

  is_owned_by_library : Option AstNode → Bool
  is_owned_by_library (some (AstNode.contract_definition c)) = is_library c.kind
  is_owned_by_library _ = false

  by_owner : FunctionCall → FunctionDefinition → Option (Option FunctionDefinition)
  unfolding is_owned_by_library perform_ic_lookup
  by_owner call func =
      if is_private func.visibility
      then some (some func)
      else (get_closest_ancestor context func.id NodeType.contract_definition >>= λ owner.
          if is_owned_by_library owner then some (some func) else perform_ic_lookup call func)

  by_caller : Caller → FunctionCall → FunctionDefinition → Option (Option FunctionDefinition)
  unfolding by_owner
  by_caller unrelated call func = some none
  by_caller in_library call func = some (some func)
  by_caller inheriting call func = by_owner call func

  internal_suspect : FunctionCall → Option FunctionDefinition → Option (Option FunctionDefinition)
  unfolding by_caller caller_of
  internal_suspect call none = some none
  internal_suspect call (some func) =
      get_closest_ancestor context call.id NodeType.contract_definition >>= λ a.
      by_caller (caller_of (contract_of a)) call func

  -- `_resolve_internal_call`
  unfoldable pub resolve_internal_call_in : FunctionCall → Option (Option FunctionDefinition)
  unfolding is_some_true internal_suspect
  resolve_internal_call_in call =
      if is_some_true (is_internal_call call) && is_deployable_contract base_contract
      then internal_suspect call (suspected_target_function context call)
      else some none

  -- `perform_mc_lookup_through_inheritance_tree_and_fallback_to_suspect`
  by_path : IdentifierOrIdentifierPath → ModifierDefinition → BaseRoute → Option ModifierDefinition
  unfolding resolve_from
  by_path (IdentifierOrIdentifierPath.identifier i) aux base_index = none
  by_path (identifier_path p) aux base_index =
      if contains_text p.name (codes ".")
      then some aux
      else resolve_from modifier_at aux (selectorish aux.name aux.parameters) base_index
          base_contract

  unfoldable pub perform_mc_lookup : ModifierInvocation → Option ModifierDefinition
  unfolding by_path
  perform_mc_lookup call = suspected_target_modifier context call >>= λ aux.
      lookup base_contract.id r.modifier_calls >>= λ base_index.
      by_path call.modifier_name aux base_index

  modifier_by_caller : Caller → ModifierInvocation → Option ModifierDefinition
  unfolding perform_mc_lookup
  modifier_by_caller unrelated call = none
  modifier_by_caller in_library call = suspected_target_modifier context call
  modifier_by_caller inheriting call = perform_mc_lookup call

  -- `_resolve_modifier_call`
  unfoldable pub resolve_modifier_call_in : ModifierInvocation → Option (Option ModifierDefinition)
  unfolding modifier_by_caller caller_of
  resolve_modifier_call_in call =
      if is_deployable_contract base_contract
      then (get_closest_ancestor context call.id NodeType.contract_definition >>= λ a.
          some (modifier_by_caller (caller_of (contract_of a)) call))
      else some none

  -- `match routes.get(selector) { Some(resolved) => ..., None => routes.get("FALLBACK") }`
  or_fallback : EcRoutes → Option EcDest → Option EcDest
  or_fallback routes (some resolved) = some resolved
  or_fallback routes none = lookup_text (codes "FALLBACK") routes

  -- `_resolve_function_selector`
  unfoldable pub resolve_function_selector_in : Text → Option EcDest
  unfolding or_fallback
  resolve_function_selector_in selector =
      if is_deployable_contract base_contract
      then (lookup base_contract.id r.external_calls >>= λ lookup_index.
          or_fallback lookup_index (lookup_text selector lookup_index))
      else none

  -- `_resolve_external_call`
  unfoldable pub resolve_external_call_in : FunctionCall → Option EcDest
  unfolding is_some_true resolve_function_selector_in
  resolve_external_call_in call =
      if is_some_true (is_internal_call call)
      then none
      else suspected_function_selector context call >>= resolve_function_selector_in

  fallback_id : Option EcDest → Option ℕ
  fallback_id (some (EcDest.fallback id)) = some id
  fallback_id _ = none

  receive_id : Option EcDest → Option ℕ
  receive_id (some (EcDest.receive id)) = some id
  receive_id _ = none

  -- `_resolve_fallback_function` and `_resolve_receive_function`
  unfoldable pub resolve_fallback_function_in : Option FunctionDefinition
  unfolding fallback_id
  resolve_fallback_function_in =
      if is_deployable_contract base_contract
      then (lookup base_contract.id r.external_calls >>= λ lookup_index.
          fallback_id (lookup_text (codes "FALLBACK") lookup_index) >>= λ id.
          function_at (lookup id context.nodes))
      else none

  unfoldable pub resolve_receive_function_in : Option FunctionDefinition
  unfolding receive_id
  resolve_receive_function_in =
      if is_deployable_contract base_contract
      then (lookup base_contract.id r.external_calls >>= λ lookup_index.
          receive_id (lookup_text (codes "RECEIVE") lookup_index) >>= λ id.
          function_at (lookup id context.nodes))
      else none
