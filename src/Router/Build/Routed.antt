-- ===== src/Router/Build/Routed.antt =====
-- `Router::build` gives each deployable contract its three tables.
use aderyn.Prelude.{
  true, false, some, >>=-eq-some, List, [], ◌∷◌, ◌++◌, ◌≡◌, refl, ap, ◌∙◌, sym, arith, ◌==◌,
  ==_refl, subst,
}
use aderyn.Prelude.Assoc.{lookup, insert, lookup-insert}
use aderyn.Workspace.Ast.{ContractDefinition, is_deployable_contract}
use aderyn.Workspace.Context.{WorkspaceContext, Router, EcRoutes, has_contract}
use aderyn.Router.Build.{
  build_for, build, no_routes, deployable_contracts, build_ic_router_for_contract,
  build_ec_router_for_contract, build_mc_router_for_contract,
}

-- What the router has for a contract.
pub record Routed (ctx : WorkspaceContext) (c : ContractDefinition) (r : Router) : Type 0 where
  pub internal : lookup c.id r.internal_calls ≡ some (build_ic_router_for_contract ctx c)
  pub modifiers : lookup c.id r.modifier_calls ≡ some (build_mc_router_for_contract ctx c)
  pub external : lookup c.id r.external_calls ≡ build_ec_router_for_contract ctx c

module _ (ctx : WorkspaceContext) where
  abbrev next_router : ContractDefinition → EcRoutes → Router → Router
  next_router c ec r = record {
    internal_calls = insert c.id (build_ic_router_for_contract ctx c) r.internal_calls;
    external_calls = insert c.id ec r.external_calls;
    modifier_calls = insert c.id (build_mc_router_for_contract ctx c) r.modifier_calls;
  }

  Routed-next :
      (c : ContractDefinition) (ec : EcRoutes) (r : Router)
      → build_ec_router_for_contract ctx c ≡ some ec
      → Routed ctx c (next_router c ec r)
  Routed-next c ec r e = record {
    internal =
        lookup-insert c.id c.id (build_ic_router_for_contract ctx c) r.internal_calls
        ∙ rw (==_refl c.id) refl;
    modifiers =
        lookup-insert c.id c.id (build_mc_router_for_contract ctx c) r.modifier_calls
        ∙ rw (==_refl c.id) refl;
    external = lookup-insert c.id c.id ec r.external_calls ∙ rw (==_refl c.id) (sym e);
  }

  -- another contract leaves it
  Routed-other :
      (c d : ContractDefinition) (ec : EcRoutes) (r : Router)
      → (d.id == c.id) ≡ false
      → Routed ctx c r
      → Routed ctx c (next_router d ec r)
  Routed-other c d ec r other h = record {
    internal =
        lookup-insert d.id c.id (build_ic_router_for_contract ctx d) r.internal_calls
        ∙ rw other h.internal;
    modifiers =
        lookup-insert d.id c.id (build_mc_router_for_contract ctx d) r.modifier_calls
        ∙ rw other h.modifiers;
    external = lookup-insert d.id c.id ec r.external_calls ∙ rw other h.external;
  }

  build_for-Routed_kept :
      (cs : List ContractDefinition) (c : ContractDefinition) (r r' : Router)
      → Routed ctx c r
      → has_contract c.id cs ≡ false
      → build_for ctx cs r ≡ some r'
      → Routed ctx c r'
  unfolding build_for
  build_for-Routed_kept [] c r r' h absent e = subst (Routed ctx c) {x = r} {y = r'} (cc) h
  build_for-Routed_kept (d ∷ cs) c r r' h absent e =
      let (ec, _, e') = >>=-eq-some (build_ec_router_for_contract ctx d) _ e in
      build_for-Routed_kept cs c (next_router d ec r) r'
        (Routed-other c d ec r (ground (arith, absent)) h) (ground (arith, absent)) e'

  build_for-Routed :
      (before : List ContractDefinition) (c : ContractDefinition) (after : List ContractDefinition)
      (r r' : Router)
      → has_contract c.id after ≡ false
      → build_for ctx (before ++ c ∷ after) r ≡ some r'
      → Routed ctx c r'
  unfolding build_for
  build_for-Routed [] c after r r' absent e =
      let (ec, at, e') = >>=-eq-some (build_ec_router_for_contract ctx c) _ e in
      build_for-Routed_kept after c (next_router c ec r) r' (Routed-next c ec r at) absent e'
  build_for-Routed (d ∷ before) c after r r' absent e =
      let (ec, at, e') = >>=-eq-some (build_ec_router_for_contract ctx d) _ e in
      build_for-Routed before c after (next_router d ec r) r' absent e'

-- a contract is deployable, and its id does not come again
pub record Deployed (ctx : WorkspaceContext) (c : ContractDefinition) : Type 0 where
  pub before : List ContractDefinition
  pub after : List ContractDefinition
  pub listed : deployable_contracts ctx ≡ before ++ c ∷ after
  pub alone : has_contract c.id after ≡ false
  pub is_deployable : is_deployable_contract c ≡ true

pub build-Routed :
    (ctx : WorkspaceContext) (c : ContractDefinition) (r : Router)
    → Deployed ctx c
    → build ctx ≡ some r
    → Routed ctx c r
unfolding build
build-Routed ctx c r d e =
    build_for-Routed ctx d.before c d.after no_routes r d.alone
      (sym (ap (λ cs. build_for ctx cs no_routes) d.listed) ∙ e)
