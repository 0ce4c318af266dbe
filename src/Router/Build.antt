-- ===== src/Router/Build.antt =====
-- The tables of the router: `build_ic_router_for_contract`, `build_mc_router_for_contract` and
-- `build_ec_router_for_contract` of aderyn_core/src/context/router, and `Router::build`.
pub mod Internal
pub mod External
pub mod Routed
use aderyn.Prelude.{
  Bool, true, false, ◌&&◌, Option, none, some, ◌>>=◌, List, [], ◌∷◌, if◌then◌else◌,
}
use aderyn.Prelude.Assoc.{insert}
use aderyn.Stats.Text.{Text, codes}
use aderyn.Workspace.Ast.{
  Visibility, FunctionKind, public, external, function, receive, fallback, free_function,
  constructor, is_public, is_internal_or_public, VariableDeclaration, FunctionDefinition,
  ModifierDefinition, ContractDefinition, function_kind, selectorish, contract_functions,
  contract_modifiers, top_level_variables, is_deployable_contract,
}
use aderyn.Workspace.TextMap.{insert_vacant}
use aderyn.Workspace.Context.{
  WorkspaceContext, StartLookupRoute, BaseRoute, EcDest, EcRoutes, pseudo_ext_fn, real_ext_fn,
  public_fn, Router, c3,
}

is_function : FunctionKind → Bool
is_function function = true
is_function _ = false

-- `matches!(kind, Function) && matches!(visibility, Internal | Public)`
unfoldable pub is_internal_target : FunctionDefinition → Bool
unfolding is_function
is_internal_target f = is_function (function_kind f) && is_internal_or_public f.visibility

add_functions : List FunctionDefinition → StartLookupRoute → StartLookupRoute
add_functions [] routes = routes
add_functions (f ∷ fs) routes = add_functions fs (
    if is_internal_target f
    then insert_vacant (selectorish f.name f.parameters) f.id routes
    else routes)

add_modifiers : List ModifierDefinition → StartLookupRoute → StartLookupRoute
add_modifiers [] routes = routes
add_modifiers (m ∷ ms) routes =
    add_modifiers ms (insert_vacant (selectorish m.name m.parameters) m.id routes)

-- the loop over the contracts from the one that the lookup starts at
functions_from : List ContractDefinition → StartLookupRoute → StartLookupRoute
unfolding add_functions
functions_from [] routes = routes
functions_from (c ∷ cs) routes = functions_from cs (add_functions (contract_functions c) routes)

modifiers_from : List ContractDefinition → StartLookupRoute → StartLookupRoute
unfolding add_modifiers
modifiers_from [] routes = routes
modifiers_from (c ∷ cs) routes = modifiers_from cs (add_modifiers (contract_modifiers c) routes)

-- the loop over the starting points, with what is behind each
for_starts :
    (List ContractDefinition → StartLookupRoute → StartLookupRoute)
    → List ContractDefinition
    → BaseRoute
    → BaseRoute
for_starts from [] base_routes = base_routes
for_starts from (c ∷ cs) base_routes =
    for_starts from cs (insert c.id (from (c ∷ cs) []) base_routes)

unfoldable pub build_ic_router_for_contract : WorkspaceContext → ContractDefinition → BaseRoute
unfolding functions_from for_starts
build_ic_router_for_contract ctx base_contract = for_starts functions_from (c3 ctx base_contract) []

unfoldable pub build_mc_router_for_contract : WorkspaceContext → ContractDefinition → BaseRoute
unfolding modifiers_from for_starts
build_mc_router_for_contract ctx base_contract = for_starts modifiers_from (c3 ctx base_contract) []

-- The table under construction, or an early `return HashMap::new()`, or a panic.
pub data Scan : Type 0 where
  go : EcRoutes → Scan
  give_up : Scan
  panic : Scan

infixl 5 ◌then_scan◌
abbrev pub ◌then_scan◌ : Scan → (EcRoutes → Scan) → Scan
go m then_scan f = f m
give_up then_scan f = give_up
panic then_scan f = panic

-- an entry under the selector, which has to be there
add_selected : Option Text → EcDest → EcRoutes → Scan
add_selected none dest routes = give_up
add_selected (some selector) dest routes = go (insert_vacant selector dest routes)

scan_variable : VariableDeclaration → EcRoutes → Scan
unfolding add_selected
scan_variable v routes =
    if is_public v.visibility
    then add_selected v.function_selector (pseudo_ext_fn v.id) routes
    else go routes

scan_by_visibility : Visibility → FunctionDefinition → EcRoutes → Scan
unfolding add_selected
scan_by_visibility public f routes = add_selected f.function_selector (public_fn f.id) routes
scan_by_visibility external f routes = add_selected f.function_selector (real_ext_fn f.id) routes
scan_by_visibility _ f routes = go routes

scan_by_kind : FunctionKind → FunctionDefinition → EcRoutes → Scan
unfolding scan_by_visibility
scan_by_kind function f routes = scan_by_visibility f.visibility f routes
scan_by_kind receive f routes = go (insert_vacant (codes "RECEIVE") (EcDest.receive f.id) routes)
scan_by_kind fallback f routes = go (insert_vacant (codes "FALLBACK") (EcDest.fallback f.id) routes)
scan_by_kind free_function f routes = panic
scan_by_kind constructor f routes = go routes

scan_variables : List VariableDeclaration → EcRoutes → Scan
unfolding scan_variable
scan_variables [] routes = go routes
scan_variables (v ∷ vs) routes = scan_variable v routes then_scan scan_variables vs

scan_functions : List FunctionDefinition → EcRoutes → Scan
unfolding scan_by_kind
scan_functions [] routes = go routes
scan_functions (f ∷ fs) routes = scan_by_kind (function_kind f) f routes then_scan scan_functions fs

scan_contracts : List ContractDefinition → EcRoutes → Scan
unfolding scan_variables scan_functions
scan_contracts [] routes = go routes
scan_contracts (c ∷ cs) routes = scan_variables (top_level_variables c) routes then_scan λ m.
    scan_functions (contract_functions c) m then_scan scan_contracts cs

routes_of : Scan → Option EcRoutes
routes_of (go m) = some m
routes_of give_up = some []
routes_of panic = none

unfoldable pub build_ec_router_for_contract :
    WorkspaceContext → ContractDefinition → Option EcRoutes
unfolding scan_contracts routes_of
build_ec_router_for_contract ctx base_contract =
    routes_of (scan_contracts (c3 ctx base_contract) [])

abbrev pub no_routes : Router
no_routes = record { internal_calls = []; external_calls = []; modifier_calls = [] }

build_for : WorkspaceContext → List ContractDefinition → Router → Option Router
unfolding build_ic_router_for_contract build_ec_router_for_contract build_mc_router_for_contract
build_for ctx [] r = some r
build_for ctx (c ∷ cs) r = build_ec_router_for_contract ctx c >>= λ ec. build_for ctx cs (record {
  internal_calls = insert c.id (build_ic_router_for_contract ctx c) r.internal_calls;
  external_calls = insert c.id ec r.external_calls;
  modifier_calls = insert c.id (build_mc_router_for_contract ctx c) r.modifier_calls;
})

deployable : List ContractDefinition → List ContractDefinition
deployable [] = []
deployable (c ∷ cs) = if is_deployable_contract c then c ∷ deployable cs else deployable cs

-- `WorkspaceContext::deployable_contracts`
unfoldable pub deployable_contracts : WorkspaceContext → List ContractDefinition
unfolding deployable
deployable_contracts ctx = deployable ctx.contract_definitions

-- `Router::build`; `none` where a contract has a free function
unfoldable pub build : WorkspaceContext → Option Router
unfolding build_for
build ctx = build_for ctx (deployable_contracts ctx) no_routes
