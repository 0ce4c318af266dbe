-- ===== src/Router/Resolve/Start.antt =====
-- Where the lookup of a call starts, and what it comes to: the doc comment and the closures of
-- aderyn_core/src/context/router/internal_calls.rs, as relations.
use aderyn.Prelude.{
  ℕ, true, false, Option, none, some, List, [], ◌∷◌, ◌++◌, ◌≡◌, refl, ap, ◌∙◌, arith, ◌==◌,
  Bool-cases, inl, inr, sym,
}
use aderyn.Prelude.Assoc.{lookup}
use aderyn.Stats.Text.{Text, codes}
use aderyn.Workspace.Ast.{
  AstNode, Expression, Identifier, TypeDescriptions, member_access, FunctionCall,
  FunctionDefinition, ContractDefinition, NodeType,
}
use aderyn.Workspace.TextMap.{text_eq, text_eq_refl}
use aderyn.Workspace.Context.{
  WorkspaceContext, Router, c3, next_in, next_after, first_contract, is_in, has_contract,
}
use aderyn.Workspace.Ancestors.{get_closest_ancestor}
use aderyn.Router.Suspects.{function_at}
use aderyn.Router.Resolve.{entry_or, lookup_start, start_of_member, start_of_super, start_of_named}

-- A plain call starts at the base contract, `super` at the contract behind the one around the call in the
-- linearised order of the base contract, and a call of a member of a contract at that contract.
pub data StartsAt (ctx : WorkspaceContext) (base_contract : ContractDefinition)
    (call : FunctionCall) : ContractDefinition → Type 0 where
  plain :
      {i : Identifier}
      → call.expression ≡ Expression.identifier i
      → StartsAt ctx base_contract call base_contract
  super :
      {i : Identifier} {ref : Option ℕ} {t : TypeDescriptions} {id : ℕ}
      {calling start : ContractDefinition} (own : ContractDefinition)
      (before after : List ContractDefinition)
      → call.expression ≡ member_access (Expression.identifier i) ref t
      → i.referenced_declaration ≡ some id
      → i.name ≡ codes "super"
      → get_closest_ancestor ctx call.id NodeType.contract_definition
        ≡ some (some (AstNode.contract_definition calling))
      → c3 ctx base_contract ≡ before ++ own ∷ start ∷ after
      → own.id ≡ calling.id
      → has_contract calling.id before ≡ false
      → StartsAt ctx base_contract call start
  named :
      {i : Identifier} {ref : Option ℕ} {t : TypeDescriptions} {id : ℕ} {start : ContractDefinition}
      → call.expression ≡ member_access (Expression.identifier i) ref t
      → i.referenced_declaration ≡ some id
      → text_eq i.name (codes "super") ≡ false
      → lookup id ctx.nodes ≡ some (AstNode.contract_definition start)
      → has_contract start.id (c3 ctx base_contract) ≡ true
      → StartsAt ctx base_contract call start

-- What a lookup runs: the suspect where no function was found, or the function of the id.
pub data Runs (ctx : WorkspaceContext) (suspect : FunctionDefinition)
    : Option ℕ → Option FunctionDefinition → Type 0 where
  falls_back : Runs ctx suspect none (some suspect)
  overridden :
      {id : ℕ} {f : FunctionDefinition}
      → lookup id ctx.nodes ≡ some (AstNode.function_definition f)
      → Runs ctx suspect (some id) (some f)
  not_a_function :
      {id : ℕ}
      → ((f : FunctionDefinition) → lookup id ctx.nodes ≡ some (AstNode.function_definition f) → ⊥)
      → Runs ctx suspect (some id) none

next_after-append :
    (i : ℕ) (before after : List ContractDefinition) (c d : ContractDefinition)
    → has_contract i before ≡ false
    → c.id ≡ i
    → next_after i (before ++ c ∷ d ∷ after) ≡ some d
unfolding next_after first_contract
next_after-append i [] after c d h e = ground (arith, e)
next_after-append i (b ∷ before) after c d h e = elim (Bool-cases (b.id == i)) [
  | inl same ↦ cc (rw same at h)
  | inr other ↦ rw other (next_after-append i before after c d (rw other at h) e)
]

named_super : {t : Text} → t ≡ codes "super" → text_eq t (codes "super") ≡ true
named_super e = rw e (text_eq_refl (codes "super"))

module _ (ctx : WorkspaceContext) (r : Router) (base_contract : ContractDefinition) where
  pub StartsAt-lookup_start :
      (call : FunctionCall) (start : ContractDefinition)
      → StartsAt ctx base_contract call start
      → lookup_start ctx r base_contract call ≡ some (some start)
  unfolding lookup_start start_of_member start_of_super start_of_named next_in is_in
  StartsAt-lookup_start call start (plain e) = rw e refl
  StartsAt-lookup_start call start
        (super {calling = calling} own before after e ref name at order same alone) =
      rw (e, ref, named_super name, at)
        (ap some (
          ap (next_after calling.id) order
          ∙ next_after-append calling.id before after own start alone same))
  StartsAt-lookup_start call start (named e ref name at listed) = rw (e, ref, name, at, listed) refl

  pub Runs-entry_or :
      (suspect : FunctionDefinition) (o : Option ℕ)
      → Runs ctx suspect o (entry_or ctx r base_contract function_at suspect o)
  unfolding entry_or
  Runs-entry_or suspect none = falls_back
  Runs-entry_or suspect (some id) = by_node (lookup id ctx.nodes) refl
    where
      by_node :
          (n : Option AstNode)
          → lookup id ctx.nodes ≡ n
          → Runs ctx suspect (some id) (function_at n)
      by_node (some (AstNode.function_definition f)) e = overridden e
      by_node _ e = not_a_function (λ f h. cc (sym e ∙ h))
