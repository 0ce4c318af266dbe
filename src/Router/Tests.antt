-- ===== src/Router/Tests.antt =====
-- The router of the small workspace: what `g` is depends on the contract that runs.
use aderyn.Prelude.{ℕ, Option, none, some, List, [], ◌∷◌, ◌≡◌, refl}
use aderyn.Prelude.Assoc.{lookup, insert}
use aderyn.Stats.Text.{Text, codes, starts_with}
use aderyn.Workspace.Ast.{
  FunctionCall, Expression, member_access, node_type, AstNode, function_definition,
  FunctionDefinition, ContractDefinition, selectorish, function_kind, contract_functions,
  contract_modifiers, top_level_variables, is_deployable_contract,
}
use aderyn.Workspace.TextMap.{lookup_text, insert_vacant, text_eq, or}
use aderyn.Workspace.Context.{
  WorkspaceContext, Router, StartLookupRoute, EcDest, public_fn, c3, has_contract,
}
use aderyn.Workspace.Tests.{workspace, contract1, contract2, g11, g21, call_g}
use aderyn.Router.Build.{
  build, build_ic_router_for_contract, build_mc_router_for_contract, build_ec_router_for_contract,
  deployable_contracts, no_routes,
}
use aderyn.Router.Build.Internal.{functions_of, modifiers_of, build_routers-First}
use aderyn.Router.Build.External.{
  complete, verdict, entries, items_of, Follows, build_ec_router_for_contract-Follows,
}
use aderyn.Router.Build.Routed.{Deployed}
use aderyn.Router.Suspects.{function_at}
use aderyn.Workspace.Ancestors.{get_closest_ancestor}
use aderyn.Router.Resolve.Start.{StartsAt, super, Runs, plain}
use aderyn.Router.Resolve.{perform_ic_lookup, resolve_function_selector_in}
use aderyn.Router.Ask.{resolve_internal_call}
use aderyn.Router.Resolve.Dispatch.{perform_ic_lookup-first, resolve_function_selector_in-first}

order2 : c3 workspace contract2 ≡ contract2 ∷ contract1 ∷ []
unfolding c3 lookup
order2 = refl

build_routers-First_example :
    (fs : StartLookupRoute) × (ms : StartLookupRoute) × (lookup 1
        (build_ic_router_for_contract workspace contract2)
      ≡ some fs)
    × (lookup 1 (build_mc_router_for_contract workspace contract2) ≡ some ms)
    × ((k : Text) → lookup_text k fs ≡ lookup_text k (functions_of (contract1 ∷ [])))
    × ((k : Text) → lookup_text k ms ≡ lookup_text k (modifiers_of (contract1 ∷ [])))
build_routers-First_example =
    build_routers-First workspace contract2 (contract2 ∷ []) contract1 [] order2 refl

build_ec_router_for_contract-Follows_example :
    Follows
      (verdict (items_of (c3 workspace contract2)))
      (entries (items_of (c3 workspace contract2)))
      (build_ec_router_for_contract workspace contract2)
build_ec_router_for_contract-Follows_example =
    build_ec_router_for_contract-Follows workspace contract2

abbrev pub ec : List (Text × EcDest)
ec = (codes "26121ff0", public_fn 10) ∷ []

-- what `build` gives for both contracts
abbrev pub routes1 : List (Text × ℕ)
routes1 = (codes "f:", 10) ∷ (codes "g:", 11) ∷ []

abbrev pub routes2 : List (Text × ℕ)
routes2 = (codes "g:", 21) ∷ (codes "f:", 10) ∷ []

abbrev pub modifier_routes : List (Text × ℕ)
modifier_routes = (codes "m:", 12) ∷ []

abbrev pub router : Router
router = record {
  internal_calls = (1, (1, routes1) ∷ []) ∷ (2, (2, routes2) ∷ (1, routes1) ∷ []) ∷ [];
  external_calls = (1, ec) ∷ (2, ec) ∷ [];
  modifier_calls =
      (1, (1, modifier_routes) ∷ []) ∷ (2, (2, modifier_routes) ∷ (1, modifier_routes) ∷ []) ∷ [];
}

pub workspace-build : build workspace ≡ some router
unfolding build deployable_contracts is_deployable_contract c3 lookup top_level_variables
    contract_functions function_kind insert aderyn.Router.Build.is_internal_target insert_vacant
    contract_modifiers lookup_text text_eq selectorish
workspace-build = refl

contract2-Deployed : Deployed workspace contract2
unfolding is_deployable_contract
contract2-Deployed = record {
  before = contract1 ∷ [];
  after = [];
  listed = unfold deployable_contracts in refl;
  alone = refl;
  is_deployable = unfold is_deployable_contract in refl;
}

perform_ic_lookup-first_example :
    (f : Option FunctionDefinition) × (perform_ic_lookup workspace router contract2 call_g g11
      ≡ some f)
    × Runs workspace g11
        (lookup_text (selectorish (codes "g") []) (functions_of (contract2 ∷ contract1 ∷ [])))
        f
perform_ic_lookup-first_example =
    perform_ic_lookup-first workspace router contract2 call_g g11 [] contract2 (contract1 ∷ [])
      workspace-build contract2-Deployed order2 refl (plain refl)

-- a call of `super` below the function 21 of contract 2 starts at contract 1
abbrev call_super : FunctionCall
call_super = record call_g {
  id = 21;
  expression =
      member_access
        (Expression.identifier (record {
          name = codes "super";
          referenced_declaration = some 30;
          type_descriptions = record { type_string = none; type_identifier = none };
        }))
        none (record { type_string = none; type_identifier = none });
}

super_starts_behind : StartsAt workspace contract2 call_super contract1
super_starts_behind =
    super {calling = contract2} contract2 [] [] refl refl refl
      (unfold get_closest_ancestor lookup node_type in refl) order2 refl refl

all_selectors : verdict (items_of (c3 workspace contract2)) ≡ complete
unfolding c3 lookup contract_functions top_level_variables function_kind
all_selectors = refl

resolve_function_selector_in-first_example :
    resolve_function_selector_in workspace router contract2 (codes "26121ff0")
    ≡ or
        (lookup_text (codes "26121ff0") (entries (items_of (c3 workspace contract2))))
        (lookup_text (codes "FALLBACK") (entries (items_of (c3 workspace contract2))))
resolve_function_selector_in-first_example =
    resolve_function_selector_in-first workspace router contract2 workspace-build contract2-Deployed
      all_selectors (codes "26121ff0")

-- the call of `g` in `f` runs the override when contract 2 runs
abbrev pub routed : WorkspaceContext
routed = record workspace { router = some router }

runs_override : resolve_internal_call routed contract2 call_g ≡ some (some g21)
unfolding resolve_internal_call lookup aderyn.Workspace.Ast.is_internal_call starts_with
    is_deployable_contract aderyn.Router.Suspects.suspected_target_function
    aderyn.Workspace.Ancestors.get_closest_ancestor aderyn.Workspace.Ast.node_type
    aderyn.Workspace.Context.is_in c3 lookup_text text_eq selectorish
runs_override = refl

runs_own : resolve_internal_call routed contract1 call_g ≡ some (some g11)
unfolding resolve_internal_call lookup aderyn.Workspace.Ast.is_internal_call starts_with
    is_deployable_contract aderyn.Router.Suspects.suspected_target_function
    aderyn.Workspace.Ancestors.get_closest_ancestor aderyn.Workspace.Ast.node_type
    aderyn.Workspace.Context.is_in c3 lookup_text text_eq selectorish
runs_own = refl
