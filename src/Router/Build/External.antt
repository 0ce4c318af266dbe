-- ===== src/Router/Build/External.antt =====
-- The table of external calls holds the first destination of each selector in the linearised order.
use aderyn.Prelude.{
  Option, none, some, List, [], ◌∷◌, ◌++◌, ◌≡◌, refl, ap, ◌∙◌, sym, if◌then◌else◌, Bool-cases, inl,
  inr, map, subst,
}
use aderyn.Stats.Text.{Text, codes}
use aderyn.Workspace.Ast.{
  Visibility, FunctionKind, public, external, function, receive, fallback, free_function,
  constructor, is_public, VariableDeclaration, FunctionDefinition, ContractDefinition,
  function_kind, contract_functions, top_level_variables,
}
use aderyn.Workspace.TextMap.{lookup_text, insert_vacant, or, or-none}
use aderyn.Workspace.Context.{
  WorkspaceContext, EcDest, EcRoutes, pseudo_ext_fn, real_ext_fn, public_fn, c3,
}
use aderyn.Router.Build.{
  Scan, go, give_up, panic, ◌then_scan◌, add_selected, scan_variable, scan_by_visibility,
  scan_by_kind, scan_variables, scan_functions, scan_contracts, routes_of,
  build_ec_router_for_contract,
}
use aderyn.Router.Build.Internal.{then_others}

-- What a member of a contract gives the table: an entry, nothing, or a reason to stop.
pub data Item : Type 0 where
  entry : Text → EcDest → Item
  skip lacks_selector free : Item

abbrev pub selected : Option Text → EcDest → Item
selected none dest = lacks_selector
selected (some selector) dest = entry selector dest

abbrev pub variable_item : VariableDeclaration → Item
variable_item v =
    if is_public v.visibility then selected v.function_selector (pseudo_ext_fn v.id) else skip

abbrev pub visible_item : Visibility → FunctionDefinition → Item
visible_item public f = selected f.function_selector (public_fn f.id)
visible_item external f = selected f.function_selector (real_ext_fn f.id)
visible_item _ f = skip

abbrev pub kind_item : FunctionKind → FunctionDefinition → Item
kind_item function f = visible_item f.visibility f
kind_item receive f = entry (codes "RECEIVE") (EcDest.receive f.id)
kind_item fallback f = entry (codes "FALLBACK") (EcDest.fallback f.id)
kind_item free_function f = free
kind_item constructor f = skip

abbrev pub function_item : FunctionDefinition → Item
function_item f = kind_item (function_kind f) f

-- the members of the contracts in order, the variables of each before its functions
abbrev pub items_of : List ContractDefinition → List Item
items_of [] = []
items_of (c ∷ cs) =
    map variable_item (top_level_variables c)
    ++ (map function_item (contract_functions c) ++ items_of cs)

abbrev pub entries : List Item → List (Text × EcDest)
entries [] = []
entries (entry k d ∷ is) = (k, d) ∷ entries is
entries (i ∷ is) = entries is

-- The first reason to stop.
pub data Verdict : Type 0 where
  complete gives_up panics : Verdict

abbrev pub verdict : List Item → Verdict
verdict [] = complete
verdict (lacks_selector ∷ is) = gives_up
verdict (free ∷ is) = panics
verdict (i ∷ is) = verdict is

-- the scan of a list of members
scan_items : List Item → EcRoutes → Scan
scan_items [] m = go m
scan_items (entry k d ∷ is) m = scan_items is (insert_vacant k d m)
scan_items (skip ∷ is) m = scan_items is m
scan_items (lacks_selector ∷ is) m = give_up
scan_items (free ∷ is) m = panic

scan_items-append :
    (is js : List Item) (m : EcRoutes)
    → scan_items (is ++ js) m ≡ (scan_items is m then_scan scan_items js)
unfolding scan_items
scan_items-append [] js m = refl
scan_items-append (entry k d ∷ is) js m = scan_items-append is js (insert_vacant k d m)
scan_items-append (skip ∷ is) js m = scan_items-append is js m
scan_items-append (lacks_selector ∷ is) js m = refl
scan_items-append (free ∷ is) js m = refl

then_scan-eq :
    (s : Scan) (f g : EcRoutes → Scan)
    → ((m : EcRoutes) → f m ≡ g m)
    → (s then_scan f) ≡ (s then_scan g)
then_scan-eq (go m) f g e = e m
then_scan-eq give_up f g e = refl
then_scan-eq panic f g e = refl

scan_items-variable :
    (v : VariableDeclaration) (m : EcRoutes)
    → scan_variable v m ≡ scan_items (variable_item v ∷ []) m
unfolding scan_variable scan_items add_selected
scan_items-variable v m = elim (Bool-cases (is_public v.visibility)) [
  | inl is ↦ rw is (by_selector v.function_selector)
  | inr other ↦ rw other refl
]
  where
    by_selector :
        (s : Option Text)
        → add_selected s (pseudo_ext_fn v.id) m
          ≡ scan_items (selected s (pseudo_ext_fn v.id) ∷ []) m
    by_selector none = refl
    by_selector (some t) = refl

add_selected-item :
    (s : Option Text) (d : EcDest) (m : EcRoutes)
    → add_selected s d m ≡ scan_items (selected s d ∷ []) m
unfolding scan_items add_selected
add_selected-item none d m = refl
add_selected-item (some t) d m = refl

scan_items-visible :
    (v : Visibility) (f : FunctionDefinition) (m : EcRoutes)
    → scan_by_visibility v f m ≡ scan_items (visible_item v f ∷ []) m
unfolding scan_by_visibility scan_items
scan_items-visible public f m = add_selected-item f.function_selector (public_fn f.id) m
scan_items-visible external f m = add_selected-item f.function_selector (real_ext_fn f.id) m
scan_items-visible Visibility.private f m = refl
scan_items-visible Visibility.internal f m = refl

scan_items-kind :
    (k : FunctionKind) (f : FunctionDefinition) (m : EcRoutes)
    → scan_by_kind k f m ≡ scan_items (kind_item k f ∷ []) m
unfolding scan_by_kind scan_items
scan_items-kind function f m = scan_items-visible f.visibility f m
scan_items-kind receive f m = refl
scan_items-kind fallback f m = refl
scan_items-kind free_function f m = refl
scan_items-kind constructor f m = refl

-- a member, and then the others
scan_then :
    (i : Item) (is : List Item) (m : EcRoutes) (s : Scan) (f : EcRoutes → Scan)
    → s ≡ scan_items (i ∷ []) m
    → ((m' : EcRoutes) → f m' ≡ scan_items is m')
    → (s then_scan f) ≡ scan_items (i ∷ is) m
scan_then i is m s f e h =
    ap (λ t. t then_scan f) e
    ∙ then_scan-eq (scan_items (i ∷ []) m) f (scan_items is) h
    ∙ sym (scan_items-append (i ∷ []) is m)

scan_items-variables :
    (vs : List VariableDeclaration) (m : EcRoutes)
    → scan_variables vs m ≡ scan_items (map variable_item vs) m
unfolding scan_variables
scan_items-variables [] m = unfold scan_items in refl
scan_items-variables (v ∷ vs) m =
    scan_then (variable_item v) (map variable_item vs) m (scan_variable v m) (scan_variables vs)
      (scan_items-variable v m) (scan_items-variables vs)

scan_items-functions :
    (fs : List FunctionDefinition) (m : EcRoutes)
    → scan_functions fs m ≡ scan_items (map function_item fs) m
unfolding scan_functions
scan_items-functions [] m = unfold scan_items in refl
scan_items-functions (f ∷ fs) m =
    scan_then (function_item f) (map function_item fs) m (scan_by_kind (function_kind f) f m)
      (scan_functions fs) (scan_items-kind (function_kind f) f m) (scan_items-functions fs)

scan_items-contracts :
    (cs : List ContractDefinition) (m : EcRoutes) → scan_contracts cs m ≡ scan_items (items_of cs) m
unfolding scan_contracts
scan_items-contracts [] m = unfold scan_items in refl
scan_items-contracts (c ∷ cs) m =
    let vs = map variable_item (top_level_variables c) in
    let fs = map function_item (contract_functions c) in
    ap (λ s. s then_scan λ m'. scan_functions (contract_functions c) m' then_scan scan_contracts cs)
      (scan_items-variables (top_level_variables c) m)
    ∙ then_scan-eq (scan_items vs m) _ (scan_items (fs ++ items_of cs)) (λ m'.
      ap (λ s. s then_scan scan_contracts cs) (scan_items-functions (contract_functions c) m')
      ∙ then_scan-eq (scan_items fs m') (scan_contracts cs) (scan_items (items_of cs))
          (scan_items-contracts cs)
      ∙ sym (scan_items-append fs (items_of cs) m'))
    ∙ sym (scan_items-append vs (fs ++ items_of cs) m)

-- What a verdict makes of the result: the first entry of each key, an empty table, or a panic.
abbrev pub Follows : Verdict → List (Text × EcDest) → Option EcRoutes → Type 0
Follows complete es r =
    (m : EcRoutes) × (r ≡ some m) × ((k : Text) → lookup_text k m ≡ lookup_text k es)
Follows gives_up es r = r ≡ some []
Follows panics es r = r ≡ none

abbrev ScannedAs : Verdict → List (Text × EcDest) → EcRoutes → Scan → Type 0
ScannedAs complete es m s =
    (m' : EcRoutes) × (s ≡ go m')
    × ((k : Text) → lookup_text k m' ≡ or (lookup_text k m) (lookup_text k es))
ScannedAs gives_up es m s = s ≡ give_up
ScannedAs panics es m s = s ≡ panic

ScannedAs-entry :
    (w : Verdict) (k : Text) (d : EcDest) (es : List (Text × EcDest)) (m : EcRoutes) (s : Scan)
    → ScannedAs w es (insert_vacant k d m) s
    → ScannedAs w ((k, d) ∷ es) m s
ScannedAs-entry complete k d es m s (m', e, h) = (m', e, λ j. h j ∙ then_others k j d m es)
ScannedAs-entry gives_up k d es m s h = h
ScannedAs-entry panics k d es m s h = h

scan_items-ScannedAs :
    (is : List Item) (m : EcRoutes) → ScannedAs (verdict is) (entries is) m (scan_items is m)
unfolding scan_items
scan_items-ScannedAs [] m = (m, refl, λ k. unfold lookup_text in sym (or-none (lookup_text k m)))
scan_items-ScannedAs (entry k d ∷ is) m =
    ScannedAs-entry (verdict is) k d (entries is) m (scan_items is (insert_vacant k d m))
      (scan_items-ScannedAs is (insert_vacant k d m))
scan_items-ScannedAs (skip ∷ is) m = scan_items-ScannedAs is m
scan_items-ScannedAs (lacks_selector ∷ is) m = refl
scan_items-ScannedAs (free ∷ is) m = refl

routes_of-Follows :
    (w : Verdict) (es : List (Text × EcDest)) (s : Scan)
    → ScannedAs w es [] s
    → Follows w es (routes_of s)
unfolding routes_of
routes_of-Follows complete es s (m, e, h) =
    (m, ap routes_of e, λ k. h k ∙ unfold lookup_text in refl)
routes_of-Follows gives_up es s e = ap routes_of e
routes_of-Follows panics es s e = ap routes_of e

-- The table of external calls of a contract: its members in the linearised order, the variables of each
-- contract before its functions, decide. If a free function comes first, it panics; if a public variable or
-- a public or external function without a selector comes first, the table is empty; if there is neither,
-- the table gives for a selector, and for the fallback and the receive function, the first one.
pub build_ec_router_for_contract-Follows :
    (ctx : WorkspaceContext) (base_contract : ContractDefinition)
    → Follows
        (verdict (items_of (c3 ctx base_contract)))
        (entries (items_of (c3 ctx base_contract)))
        (build_ec_router_for_contract ctx base_contract)
unfolding build_ec_router_for_contract
build_ec_router_for_contract-Follows ctx base_contract =
    let cs = c3 ctx base_contract in
    routes_of-Follows (verdict (items_of cs)) (entries (items_of cs)) (scan_contracts cs []) (
      subst (ScannedAs (verdict (items_of cs)) (entries (items_of cs)) [])
        (sym (scan_items-contracts cs [])) (scan_items-ScannedAs (items_of cs) []))
