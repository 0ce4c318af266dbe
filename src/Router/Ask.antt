-- ===== src/Router/Ask.antt =====
-- The methods of `WorkspaceContext` at the end of aderyn_core/src/context/router.rs, which ask its router.
use aderyn.Prelude.{ℕ, Option, none, some, ◌>>=◌, List, [], ◌∷◌}
use aderyn.Prelude.Assoc.{lookup}
use aderyn.Stats.Text.{Text}
use aderyn.Workspace.Ast.{
  FunctionCall, FunctionDefinition, ModifierDefinition, ModifierInvocation, ContractDefinition,
}
use aderyn.Workspace.Context.{
  WorkspaceContext, Router, EcRoutes, EcDest, pseudo_ext_fn, real_ext_fn, public_fn,
}
use aderyn.Router.Suspects.{function_at}
use aderyn.Router.Resolve.{
  resolve_internal_call_in, resolve_modifier_call_in, resolve_external_call_in,
  resolve_fallback_function_in, resolve_receive_function_in, resolve_function_selector_in,
}

-- the id of a destination that is a function
entrypoint_id : EcDest → Option ℕ
entrypoint_id (pseudo_ext_fn id) = none
entrypoint_id (real_ext_fn id) = some id
entrypoint_id (public_fn id) = some id
entrypoint_id (EcDest.fallback id) = some id
entrypoint_id (EcDest.receive id) = some id

onto : {A : Type 0} → Option A → List A → List A
onto none xs = xs
onto (some x) xs = x ∷ xs

entrypoints_in : WorkspaceContext → EcRoutes → List FunctionDefinition
unfolding entrypoint_id onto
entrypoints_in ctx [] = []
entrypoints_in ctx ((k, d) ∷ m) =
    onto (entrypoint_id d >>= λ id. function_at (lookup id ctx.nodes)) (entrypoints_in ctx m)

-- the methods of `WorkspaceContext`, which ask its router
unfoldable pub entrypoint_functions :
    WorkspaceContext → ContractDefinition → Option (List FunctionDefinition)
unfolding entrypoints_in
entrypoint_functions ctx c =
    ctx.router >>= λ r. lookup c.id r.external_calls >>= λ m. some (entrypoints_in ctx m)

unfoldable pub ask_internal :
    WorkspaceContext
    → ContractDefinition
    → FunctionCall
    → Option Router
    → Option (Option FunctionDefinition)
unfolding resolve_internal_call_in
ask_internal ctx c call none = some none
ask_internal ctx c call (some r) = resolve_internal_call_in ctx r c call

unfoldable pub resolve_internal_call :
    WorkspaceContext → ContractDefinition → FunctionCall → Option (Option FunctionDefinition)
unfolding ask_internal
resolve_internal_call ctx c call = ask_internal ctx c call ctx.router

unfoldable pub ask_modifier :
    WorkspaceContext
    → ContractDefinition
    → ModifierInvocation
    → Option Router
    → Option (Option ModifierDefinition)
unfolding resolve_modifier_call_in
ask_modifier ctx c call none = some none
ask_modifier ctx c call (some r) = resolve_modifier_call_in ctx r c call

unfoldable pub resolve_modifier_call :
    WorkspaceContext → ContractDefinition → ModifierInvocation → Option (Option ModifierDefinition)
unfolding ask_modifier
resolve_modifier_call ctx c call = ask_modifier ctx c call ctx.router

unfoldable pub resolve_external_call :
    WorkspaceContext → ContractDefinition → FunctionCall → Option EcDest
unfolding resolve_external_call_in
resolve_external_call ctx c call = ctx.router >>= λ r. resolve_external_call_in ctx r c call

unfoldable pub resolve_fallback_function :
    WorkspaceContext → ContractDefinition → Option FunctionDefinition
unfolding resolve_fallback_function_in
resolve_fallback_function ctx c = ctx.router >>= λ r. resolve_fallback_function_in ctx r c

unfoldable pub resolve_receive_function :
    WorkspaceContext → ContractDefinition → Option FunctionDefinition
unfolding resolve_receive_function_in
resolve_receive_function ctx c = ctx.router >>= λ r. resolve_receive_function_in ctx r c

unfoldable pub resolve_function_selector :
    WorkspaceContext → ContractDefinition → Text → Option EcDest
unfolding resolve_function_selector_in
resolve_function_selector ctx c s = ctx.router >>= λ r. resolve_function_selector_in ctx r c s
