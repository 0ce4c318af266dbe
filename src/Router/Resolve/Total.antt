-- ===== src/Router/Resolve/Total.antt =====
-- In a workspace whose parent links do not go round, the lookups end.
use aderyn.Prelude.{ℕ, Bool, true, false, Option, none, some, ◌>>=◌, ◌≡◌, refl, if◌then◌else◌}
use aderyn.Prelude.Assoc.{lookup}
use aderyn.Stats.Text.{codes}
use aderyn.Workspace.Ast.{
  Expression, FunctionCall, FunctionDefinition, ContractDefinition, ModifierInvocation, NodeType,
  is_private, is_deployable_contract,
}
use aderyn.Workspace.TextMap.{text_eq}
use aderyn.Workspace.Context.{WorkspaceContext, Router, BaseRoute}
use aderyn.Workspace.Ancestors.{get_closest_ancestor}
use aderyn.Workspace.Ancestors.Line.{IsForest, get_closest_ancestor-returns}
use aderyn.Router.Suspects.{suspected_target_function}
use aderyn.Router.Resolve.{
  contract_of, Caller, unrelated, in_library, inheriting, caller_of, start_of_super, start_of_named,
  start_of_member, lookup_start, in_index, perform_ic_lookup, is_owned_by_library, by_owner,
  by_caller, internal_suspect, resolve_internal_call_in, resolve_modifier_call_in,
}
use aderyn.Router.Ask.{ask_internal, ask_modifier, resolve_internal_call, resolve_modifier_call}

abbrev pub Returns : {A : Type 0} → Option A → Type 0
Returns {A} o = (a : A) × (o ≡ some a)

pub Returns->>= :
    {A B : Type 0} (o : Option A) (f : A → Option B)
    → Returns o
    → ((a : A) → Returns (f a))
    → Returns (o >>= f)
Returns->>= o f (a, e) h = rw e (h a)

pub Returns-if :
    {A : Type 0} (b : Bool) (x y : Option A) → Returns x → Returns y → Returns (if b then x else y)
Returns-if true x y h k = h
Returns-if false x y h k = k

module _ (ctx : WorkspaceContext) (forest : IsForest ctx) where
  module _ (r : Router) (base_contract : ContractDefinition) where
    start_of_super-Returns : (id : ℕ) → Returns (start_of_super ctx r base_contract id)
    unfolding start_of_super
    start_of_super-Returns id =
        Returns->>= (get_closest_ancestor ctx id NodeType.contract_definition) _
          (get_closest_ancestor-returns ctx forest id NodeType.contract_definition) (λ a. (_, refl))

    start_of_member-Returns :
        (id : ℕ) (e : Expression) → Returns (start_of_member ctx r base_contract id e)
    unfolding start_of_member
    start_of_member-Returns id (Expression.identifier i) = at i.referenced_declaration
      where
        at :
            (o : Option ℕ)
            → Returns (elim o [
              | none ↦ some none
              | some ref_id ↦
                  if text_eq i.name (codes "super")
                  then start_of_super ctx r base_contract id
                  else some (start_of_named ctx r base_contract ref_id)
            ])
        at none = (none, refl)
        at (some ref_id) =
            Returns-if (text_eq i.name (codes "super")) (start_of_super ctx r base_contract id)
              (some (start_of_named ctx r base_contract ref_id)) (start_of_super-Returns id)
              (_, refl)
    start_of_member-Returns id (Expression.member_access e ref t) = (none, refl)
    start_of_member-Returns id Expression.other_expression = (none, refl)

    lookup_start-Returns : (call : FunctionCall) → Returns (lookup_start ctx r base_contract call)
    unfolding lookup_start
    lookup_start-Returns call = at call.expression
      where
        at :
            (e : Expression)
            → Returns (elim e [
              | Expression.identifier i ↦ some (some base_contract)
              | Expression.member_access e ref t ↦ start_of_member ctx r base_contract call.id e
              | Expression.other_expression ↦ some none
            ])
        at (Expression.identifier i) = (_, refl)
        at (Expression.member_access e ref t) = start_of_member-Returns call.id e
        at Expression.other_expression = (_, refl)

    in_index-Returns :
        (call : FunctionCall) (aux : FunctionDefinition) (o : Option BaseRoute)
        → Returns (in_index ctx r base_contract call aux o)
    unfolding in_index
    in_index-Returns call aux none = (_, refl)
    in_index-Returns call aux (some base_index) =
        Returns->>= (lookup_start ctx r base_contract call) _ (lookup_start-Returns call)
          (λ start. (_, refl))

    perform_ic_lookup-Returns :
        (call : FunctionCall) (aux : FunctionDefinition)
        → Returns (perform_ic_lookup ctx r base_contract call aux)
    unfolding perform_ic_lookup
    perform_ic_lookup-Returns call aux =
        in_index-Returns call aux (lookup base_contract.id r.internal_calls)

    by_owner-Returns :
        (call : FunctionCall) (f : FunctionDefinition)
        → Returns (by_owner ctx r base_contract call f)
    unfolding by_owner
    by_owner-Returns call f =
        Returns-if (is_private f.visibility) (some (some f)) _ (_, refl)
          (Returns->>= (get_closest_ancestor ctx f.id NodeType.contract_definition) _
            (get_closest_ancestor-returns ctx forest f.id NodeType.contract_definition)
            (λ owner.
              Returns-if (is_owned_by_library ctx r base_contract owner) (some (some f)) _ (_, refl)
                (perform_ic_lookup-Returns call f)))

    by_caller-Returns :
        (w : Caller) (call : FunctionCall) (f : FunctionDefinition)
        → Returns (by_caller ctx r base_contract w call f)
    unfolding by_caller
    by_caller-Returns unrelated call f = (_, refl)
    by_caller-Returns in_library call f = (_, refl)
    by_caller-Returns inheriting call f = by_owner-Returns call f

    internal_suspect-Returns :
        (call : FunctionCall) (o : Option FunctionDefinition)
        → Returns (internal_suspect ctx r base_contract call o)
    unfolding internal_suspect
    internal_suspect-Returns call none = (_, refl)
    internal_suspect-Returns call (some f) =
        Returns->>= (get_closest_ancestor ctx call.id NodeType.contract_definition) _
          (get_closest_ancestor-returns ctx forest call.id NodeType.contract_definition)
          (λ a. by_caller-Returns (caller_of ctx r base_contract (contract_of a)) call f)

    resolve_internal_call_in-Returns :
        (call : FunctionCall) → Returns (resolve_internal_call_in ctx r base_contract call)
    unfolding resolve_internal_call_in
    resolve_internal_call_in-Returns call =
        Returns-if _ _ (some none)
          (internal_suspect-Returns call (suspected_target_function ctx call)) (_, refl)

    resolve_modifier_call_in-Returns :
        (call : ModifierInvocation) → Returns (resolve_modifier_call_in ctx r base_contract call)
    unfolding resolve_modifier_call_in
    resolve_modifier_call_in-Returns call =
        Returns-if (is_deployable_contract base_contract) _ (some none)
          (Returns->>= (get_closest_ancestor ctx call.id NodeType.contract_definition) _
            (get_closest_ancestor-returns ctx forest call.id NodeType.contract_definition)
            (λ a. (_, refl)))
          (_, refl)

  pub resolve_internal_call-Returns :
      (c : ContractDefinition) (call : FunctionCall) → Returns (resolve_internal_call ctx c call)
  unfolding resolve_internal_call ask_internal
  resolve_internal_call-Returns c call = asked ctx.router
    where
      asked : (o : Option Router) → Returns (ask_internal ctx c call o)
      asked none = (_, refl)
      asked (some r) = resolve_internal_call_in-Returns r c call

  pub resolve_modifier_call-Returns :
      (c : ContractDefinition) (call : ModifierInvocation)
      → Returns (resolve_modifier_call ctx c call)
  unfolding resolve_modifier_call ask_modifier
  resolve_modifier_call-Returns c call = asked ctx.router
    where
      asked : (o : Option Router) → Returns (ask_modifier ctx c call o)
      asked none = (_, refl)
      asked (some r) = resolve_modifier_call_in-Returns r c call
