-- ===== src/Router/Resolve/Dispatch.antt =====
-- Which definition a call runs, in a workspace whose router is the one that `Router::build` gives.
use aderyn.Prelude.{false, Option, none, some, ◌>>=◌, List, ◌∷◌, ◌++◌, ◌≡◌, refl, ap, ◌∙◌, subst}
use aderyn.Stats.Text.{Text, codes}
use aderyn.Workspace.Ast.{FunctionCall, FunctionDefinition, ContractDefinition, selectorish}
use aderyn.Workspace.TextMap.{lookup_text, or}
use aderyn.Workspace.Context.{WorkspaceContext, Router, EcRoutes, EcDest, c3, has_contract}
use aderyn.Router.Suspects.{function_at}
use aderyn.Router.Build.{build, build_ec_router_for_contract}
use aderyn.Router.Build.Routed.{Deployed, build-Routed}
use aderyn.Router.Build.Internal.{functions_of, build_routers-First}
use aderyn.Router.Build.External.{
  complete, verdict, entries, items_of, Follows, build_ec_router_for_contract-Follows,
}
use aderyn.Router.Resolve.Start.{StartsAt, Runs, StartsAt-lookup_start, Runs-entry_or}
use aderyn.Router.Resolve.{
  entry_or, resolve_from, lookup_start, in_index, perform_ic_lookup, or_fallback,
  resolve_function_selector_in,
}

perform_ic_lookup-entry_or :
    (ctx : WorkspaceContext) (r : Router) (base_contract : ContractDefinition) (call : FunctionCall)
    (aux_func : FunctionDefinition) (before : List ContractDefinition) (start : ContractDefinition)
    (after : List ContractDefinition)
    → build ctx ≡ some r
    → Deployed ctx base_contract
    → c3 ctx base_contract ≡ before ++ start ∷ after
    → has_contract start.id after ≡ false
    → lookup_start ctx r base_contract call ≡ some (some start)
    → perform_ic_lookup ctx r base_contract call aux_func
      ≡ some (
          entry_or ctx r base_contract function_at aux_func (
            lookup_text
              (selectorish aux_func.name aux_func.parameters)
              (functions_of (start ∷ after))))
unfolding perform_ic_lookup in_index resolve_from
perform_ic_lookup-entry_or ctx r base_contract call aux_func before start after built d order alone
      at =
    let routed = build-Routed ctx base_contract r d built in
    let (fs, ms, f, m, first, first') =
      build_routers-First ctx base_contract before start after order alone in
    let key = selectorish aux_func.name aux_func.parameters in
    ap (in_index ctx r base_contract call aux_func) routed.internal
    ∙ rw at (
        ap
          (λ o.
            some (o >>= λ i. entry_or ctx r base_contract function_at aux_func (lookup_text key i)))
          f
        ∙ ap (λ o. some (entry_or ctx r base_contract function_at aux_func o)) (first key))

-- With the router that `Router::build` gives, for a contract `base_contract` that is deployable, and a call
-- that starts at a contract of its linearised order which does not come again behind: a plain call starts at
-- the base contract, a call of `super` at the contract behind the one around the call, and a call that names
-- a contract of the order at that one. The lookup returns. If an internal or public function in that
-- contract or those behind it has the selectorish of the suspect, it gives what the workspace has under the
-- id of the first such function, or nothing if that is no function; if there is none, it gives the suspect.
pub perform_ic_lookup-first :
    (ctx : WorkspaceContext) (r : Router) (base_contract : ContractDefinition) (call : FunctionCall)
    (aux_func : FunctionDefinition) (before : List ContractDefinition) (start : ContractDefinition)
    (after : List ContractDefinition)
    → build ctx ≡ some r
    → Deployed ctx base_contract
    → c3 ctx base_contract ≡ before ++ start ∷ after
    → has_contract start.id after ≡ false
    → StartsAt ctx base_contract call start
    → (f : Option FunctionDefinition) × (perform_ic_lookup ctx r base_contract call aux_func
        ≡ some f)
      × Runs ctx aux_func
          (lookup_text
            (selectorish aux_func.name aux_func.parameters)
            (functions_of (start ∷ after)))
          f
perform_ic_lookup-first ctx r base_contract call aux_func before start after built d order alone
      at =
    (
      _,
      perform_ic_lookup-entry_or ctx r base_contract call aux_func before start after built d order
          alone (StartsAt-lookup_start ctx r base_contract call start at),
      Runs-entry_or ctx r base_contract aux_func _,
    )

-- With the router that `Router::build` gives, for a contract that is deployable and whose public members
-- all have selectors, with no free function among them: a selector resolves to its first entry in the
-- linearised order, or to the first fallback function if it has no entry, or to nothing.
pub resolve_function_selector_in-first :
    (ctx : WorkspaceContext) (r : Router) (base_contract : ContractDefinition)
    → build ctx ≡ some r
    → Deployed ctx base_contract
    → verdict (items_of (c3 ctx base_contract)) ≡ complete
    → (selector : Text)
    → resolve_function_selector_in ctx r base_contract selector
      ≡ or
          (lookup_text selector (entries (items_of (c3 ctx base_contract))))
          (lookup_text (codes "FALLBACK") (entries (items_of (c3 ctx base_contract))))
unfolding resolve_function_selector_in
resolve_function_selector_in-first ctx r base_contract built d all selector =
    let routed = build-Routed ctx base_contract r d built in
    let es = entries (items_of (c3 ctx base_contract)) in
    let (m, e, first) : Follows complete es (build_ec_router_for_contract ctx base_contract) =
      subst (λ w. Follows w es (build_ec_router_for_contract ctx base_contract)) all
        (build_ec_router_for_contract-Follows ctx base_contract) in
    rw (d.is_deployable) (
      ap (λ o. o >>= λ i. or_fallback ctx r base_contract i (lookup_text selector i))
        (routed.external ∙ e)
      ∙ fell_back (lookup_text selector m) m
      ∙ rw (first selector, first (codes "FALLBACK")) refl)
  where
    fell_back :
        (o : Option EcDest) (m : EcRoutes)
        → or_fallback ctx r base_contract m o ≡ or o (lookup_text (codes "FALLBACK") m)
    fell_back none m = unfold or_fallback in refl
    fell_back (some x) m = unfold or_fallback in refl
