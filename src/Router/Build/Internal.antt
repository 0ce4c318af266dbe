-- ===== src/Router/Build/Internal.antt =====
-- The tables of internal calls and of modifiers hold, for each contract that a lookup starts from, the
-- first definition in the linearised order.
use aderyn.Prelude.{
  ℕ, false, Option, some, List, [], ◌∷◌, ◌++◌, ◌≡◌, refl, ap, ◌∙◌, sym, arith, if◌then◌else◌,
  Bool-cases, inl, inr, ==_refl,
}
use aderyn.Prelude.Assoc.{lookup, insert, lookup-insert}
use aderyn.Stats.Text.{Text}
use aderyn.Workspace.Ast.{
  FunctionDefinition, ModifierDefinition, ContractDefinition, selectorish, contract_functions,
  contract_modifiers,
}
use aderyn.Workspace.TextMap.{
  lookup_text, insert_vacant, or, at_key, lookup_text-insert_vacant, or_assoc, or-none,
}
use aderyn.Workspace.Context.{WorkspaceContext, StartLookupRoute, BaseRoute, c3, has_contract}
use aderyn.Router.Build.{
  is_internal_target, add_functions, add_modifiers, functions_from, modifiers_from, for_starts,
  build_ic_router_for_contract, build_mc_router_for_contract,
}

pub lookup_text-append {ℓ} :
    {V : Type ℓ} (k : Text) (xs ys : List (Text × V))
    → lookup_text k (xs ++ ys) ≡ or (lookup_text k xs) (lookup_text k ys)
unfolding lookup_text
lookup_text-append k [] ys = refl
lookup_text-append k ((j, v) ∷ xs) ys = ground (arith, lookup_text-append k xs ys)

-- the internal and public functions, and the modifiers, by what they are looked up by
abbrev pub function_entries : List FunctionDefinition → List (Text × ℕ)
function_entries [] = []
function_entries (f ∷ fs) =
    if is_internal_target f
    then (selectorish f.name f.parameters, f.id) ∷ function_entries fs
    else function_entries fs

abbrev pub modifier_entries : List ModifierDefinition → List (Text × ℕ)
modifier_entries [] = []
modifier_entries (m ∷ ms) = (selectorish m.name m.parameters, m.id) ∷ modifier_entries ms

-- those of the contracts, in order
abbrev pub functions_of : List ContractDefinition → List (Text × ℕ)
functions_of [] = []
functions_of (c ∷ cs) = function_entries (contract_functions c) ++ functions_of cs

abbrev pub modifiers_of : List ContractDefinition → List (Text × ℕ)
modifiers_of [] = []
modifiers_of (c ∷ cs) = modifier_entries (contract_modifiers c) ++ modifiers_of cs

or-at_key {ℓ} :
    {V : Type ℓ} (k j : Text) (v : V) (m : List (Text × V))
    → or (at_key k v j) (lookup_text j m) ≡ lookup_text j ((k, v) ∷ m)
unfolding lookup_text
or-at_key k j v m = ground arith

-- an entry that is added if it is vacant, and then others
pub then_others {ℓ} :
    {V : Type ℓ} (k j : Text) (v : V) (routes entries : List (Text × V))
    → or (lookup_text j (insert_vacant k v routes)) (lookup_text j entries)
      ≡ or (lookup_text j routes) (lookup_text j ((k, v) ∷ entries))
then_others k j v routes entries =
    ap (λ o. or o (lookup_text j entries)) (lookup_text-insert_vacant k j v routes)
    ∙ or_assoc (lookup_text j routes) (at_key k v j) (lookup_text j entries)
    ∙ ap (or (lookup_text j routes)) (or-at_key k j v entries)

lookup_text-add_functions :
    (fs : List FunctionDefinition) (routes : StartLookupRoute) (k : Text)
    → lookup_text k (add_functions fs routes)
      ≡ or (lookup_text k routes) (lookup_text k (function_entries fs))
unfolding add_functions
lookup_text-add_functions [] routes k = unfold lookup_text in sym (or-none (lookup_text k routes))
lookup_text-add_functions (f ∷ fs) routes k = elim (Bool-cases (is_internal_target f)) [
  | inl is ↦ rw is (
      lookup_text-add_functions fs (insert_vacant (selectorish f.name f.parameters) f.id routes) k
      ∙ then_others (selectorish f.name f.parameters) k f.id routes (function_entries fs))
  | inr other ↦ rw other (lookup_text-add_functions fs routes k)
]

lookup_text-add_modifiers :
    (ms : List ModifierDefinition) (routes : StartLookupRoute) (k : Text)
    → lookup_text k (add_modifiers ms routes)
      ≡ or (lookup_text k routes) (lookup_text k (modifier_entries ms))
unfolding add_modifiers
lookup_text-add_modifiers [] routes k = unfold lookup_text in sym (or-none (lookup_text k routes))
lookup_text-add_modifiers (m ∷ ms) routes k =
    lookup_text-add_modifiers ms (insert_vacant (selectorish m.name m.parameters) m.id routes) k
    ∙ then_others (selectorish m.name m.parameters) k m.id routes (modifier_entries ms)

-- the entries of one contract, and then those of the others
joins_up {ℓ} :
    {V : Type ℓ} (k : Text) (o : Option V) (xs ys : List (Text × V))
    → or (or o (lookup_text k xs)) (lookup_text k ys) ≡ or o (lookup_text k (xs ++ ys))
joins_up k o xs ys =
    or_assoc o (lookup_text k xs) (lookup_text k ys) ∙ ap (or o) (sym (lookup_text-append k xs ys))

lookup_text-functions_from :
    (cs : List ContractDefinition) (routes : StartLookupRoute) (k : Text)
    → lookup_text k (functions_from cs routes)
      ≡ or (lookup_text k routes) (lookup_text k (functions_of cs))
unfolding functions_from
lookup_text-functions_from [] routes k = unfold lookup_text in sym (or-none (lookup_text k routes))
lookup_text-functions_from (c ∷ cs) routes k =
    lookup_text-functions_from cs (add_functions (contract_functions c) routes) k
    ∙ ap (λ o. or o (lookup_text k (functions_of cs)))
        (lookup_text-add_functions (contract_functions c) routes k)
    ∙ joins_up k (lookup_text k routes) (function_entries (contract_functions c)) (functions_of cs)

lookup_text-modifiers_from :
    (cs : List ContractDefinition) (routes : StartLookupRoute) (k : Text)
    → lookup_text k (modifiers_from cs routes)
      ≡ or (lookup_text k routes) (lookup_text k (modifiers_of cs))
unfolding modifiers_from
lookup_text-modifiers_from [] routes k = unfold lookup_text in sym (or-none (lookup_text k routes))
lookup_text-modifiers_from (c ∷ cs) routes k =
    lookup_text-modifiers_from cs (add_modifiers (contract_modifiers c) routes) k
    ∙ ap (λ o. or o (lookup_text k (modifiers_of cs)))
        (lookup_text-add_modifiers (contract_modifiers c) routes k)
    ∙ joins_up k (lookup_text k routes) (modifier_entries (contract_modifiers c)) (modifiers_of cs)

module _ (from : List ContractDefinition → StartLookupRoute → StartLookupRoute) where
  -- a start that does not come again keeps its entry
  lookup-for_starts_absent :
      (cs : List ContractDefinition) (m : BaseRoute) (i : ℕ)
      → has_contract i cs ≡ false
      → lookup i (for_starts from cs m) ≡ lookup i m
  unfolding for_starts
  lookup-for_starts_absent [] m i h = refl
  lookup-for_starts_absent (c ∷ cs) m i h =
      lookup-for_starts_absent cs (insert c.id (from (c ∷ cs) []) m) i (ground (arith, h))
      ∙ lookup-insert c.id i (from (c ∷ cs) []) m
      ∙ ground (arith, h)

  lookup-for_starts :
      (before : List ContractDefinition) (c : ContractDefinition) (after : List ContractDefinition)
      (m : BaseRoute)
      → has_contract c.id after ≡ false
      → lookup c.id (for_starts from (before ++ c ∷ after) m) ≡ some (from (c ∷ after) [])
  unfolding for_starts
  lookup-for_starts [] c after m h =
      lookup-for_starts_absent after (insert c.id (from (c ∷ after) []) m) c.id h
      ∙ lookup-insert c.id c.id (from (c ∷ after) []) m
      ∙ ground (arith, ==_refl c.id)
  lookup-for_starts (b ∷ before) c after m h =
      lookup-for_starts before c after (insert b.id (from (b ∷ before ++ c ∷ after) []) m) h

-- For each contract in the linearised order of the base contract that does not come again behind it, both
-- tables have an entry: what it gives for a selectorish is the first definition in that contract and those
-- behind it, of the internal and public functions in one table and of the modifiers in the other.
pub build_routers-First :
    (ctx : WorkspaceContext) (base_contract : ContractDefinition) (before : List ContractDefinition)
    (c : ContractDefinition) (after : List ContractDefinition)
    → c3 ctx base_contract ≡ before ++ c ∷ after
    → has_contract c.id after ≡ false
    → (fs : StartLookupRoute) × (ms : StartLookupRoute) × (lookup c.id
          (build_ic_router_for_contract ctx base_contract)
        ≡ some fs)
      × (lookup c.id (build_mc_router_for_contract ctx base_contract) ≡ some ms)
      × ((k : Text) → lookup_text k fs ≡ lookup_text k (functions_of (c ∷ after)))
      × ((k : Text) → lookup_text k ms ≡ lookup_text k (modifiers_of (c ∷ after)))
unfolding build_ic_router_for_contract build_mc_router_for_contract
build_routers-First ctx base_contract before c after e h = (
  functions_from (c ∷ after) [],
  modifiers_from (c ∷ after) [],
  ap (λ cs. lookup c.id (for_starts functions_from cs [])) e
      ∙ lookup-for_starts functions_from before c after [] h,
  ap (λ cs. lookup c.id (for_starts modifiers_from cs [])) e
      ∙ lookup-for_starts modifiers_from before c after [] h,
  λ k. lookup_text-functions_from (c ∷ after) [] k ∙ unfold lookup_text in refl,
  λ k. lookup_text-modifiers_from (c ∷ after) [] k ∙ unfold lookup_text in refl,
)
