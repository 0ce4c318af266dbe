-- ===== src/Graph/Surface/Legacy.antt =====
-- The consumer that `from_nodes` makes, or the error.
use aderyn.Prelude.{
  ℕ, Bool, true, false, sym, ◌↔◌, ◌&&◌, ◌||◌, Option, none, some, List, [], ◌∷◌, ◌⊎◌, inl, inr, ◌≡◌,
  refl, ap, ◌∙◌, arith, ◌==◌, Bool-cases, ==_iff, contains, contains-append,
}
use aderyn.Prelude.Assoc.{lookup}
use aderyn.Workspace.Ast.{FunctionDefinition, ModifierDefinition, AstNode, node_id, extracted}
use aderyn.Workspace.Context.{WorkspaceContext}
use aderyn.Workspace.Ancestors.Line.{IsForest}
use aderyn.Graph.Consumer.{
  Error, unidentified_entry_point_node, CallGraphDirection, CallGraphConsumer,
}
use aderyn.Graph.Surface.{
  onto, derive_outward_surface_points, entry_point, derive_entry_points, is_inward_target,
  inward_targets, derive_inward_surface_points_legacy, from_entry_points, from_nodes,
}
use aderyn.Graph.Surface.Points.{is_id}
use aderyn.Graph.Surface.Stands.{stands_in, containing-stands_in}

abbrev pub or_unnamed : Option ℕ → AstNode → Option AstNode → Option AstNode
or_unnamed none n o = some n
or_unnamed (some i) n o = o

-- the first node without an id
abbrev pub first_unidentified : List AstNode → Option AstNode
first_unidentified [] = none
first_unidentified (n ∷ ns) = or_unnamed (node_id n) n (first_unidentified ns)

abbrev pub ids : List AstNode → List ℕ
ids [] = []
ids (n ∷ ns) = onto (node_id n) (ids ns)

-- what the nodes say of their entry points
abbrev entries_or_error : List ℕ → Option AstNode → Error ⊎ List ℕ
entries_or_error is none = inr is
entries_or_error is (some n) = inl (unidentified_entry_point_node n)

derive_entry_points-first :
    (ns : List AstNode) → derive_entry_points ns ≡ entries_or_error (ids ns) (first_unidentified ns)
unfolding derive_entry_points entry_point
derive_entry_points-first [] = refl
derive_entry_points-first (n ∷ ns) =
    ap (entry_point (node_id n) n) (derive_entry_points-first ns)
    ∙ rest (node_id n) (first_unidentified ns)
  where
    rest :
        (i : Option ℕ) (o : Option AstNode)
        → entry_point i n (entries_or_error (ids ns) o)
          ≡ entries_or_error (onto i (ids ns)) (or_unnamed i n o)
    rest none none = refl
    rest none (some m) = refl
    rest (some i) none = refl
    rest (some i) (some m) = refl

-- whether one of the nodes is or stands in the function or modifier `k`
abbrev pub around : WorkspaceContext → List AstNode → ℕ → Bool
around ctx [] k = false
around ctx (n ∷ ns) k = is_id (stands_in ctx n) k || around ctx ns k

contains-onto :
    (o : Option ℕ) (xs : List ℕ) (k : ℕ) → contains (onto o xs) k ≡ (is_id o k || contains xs k)
contains-onto none xs k = refl
contains-onto (some x) xs k = refl

derive_outward_surface_points-around :
    (ctx : WorkspaceContext)
    → IsForest ctx
    → (ns : List AstNode)
    → (ps : List ℕ) × (derive_outward_surface_points ctx ns ≡ some ps)
      × ((k : ℕ) → contains ps k ≡ around ctx ns k)
unfolding derive_outward_surface_points
derive_outward_surface_points-around ctx forest [] = ([], refl, λ k. refl)
derive_outward_surface_points-around ctx forest (n ∷ ns) =
    let (ps, run, h) = derive_outward_surface_points-around ctx forest ns in
    (
      onto (stands_in ctx n) ps,
      rw (containing-stands_in ctx forest n) (rw run refl),
      λ k. contains-onto (stands_in ctx n) ps k ∙ rw (h k) refl,
    )

-- whether one of the nodes refers to `k`
abbrev pub refers : List AstNode → ℕ → Bool
refers [] k = false
refers (n ∷ ns) k = contains (extracted n).referenced_declarations k || refers ns k

contains-inward_targets :
    (ctx : WorkspaceContext) (ds : List ℕ) (k : ℕ)
    → contains (inward_targets ctx ds) k ≡ (contains ds k && is_inward_target (lookup k ctx.nodes))
unfolding inward_targets
contains-inward_targets ctx [] k = refl
contains-inward_targets ctx (d ∷ ds) k = elim (Bool-cases (d == k)) [
  | inl same ↦ rw (← (==_iff d k).0 same) (ground (arith, contains-inward_targets ctx ds d))
  | inr other ↦ ground (arith, other, contains-inward_targets ctx ds k)
]

contains-derive_inward :
    (ctx : WorkspaceContext) (ns : List AstNode) (k : ℕ)
    → contains (derive_inward_surface_points_legacy ctx ns) k
      ≡ (refers ns k && is_inward_target (lookup k ctx.nodes))
unfolding derive_inward_surface_points_legacy
contains-derive_inward ctx [] k = refl
contains-derive_inward ctx (n ∷ ns) k =
    contains-append (inward_targets ctx (extracted n).referenced_declarations)
      (derive_inward_surface_points_legacy ctx ns) k
    ∙ rw
        (
          contains-inward_targets ctx (extracted n).referenced_declarations k,
          contains-derive_inward ctx ns k,
        )
        (ground arith)

-- What can be explored inward: a modifier, or a function that is implemented.
pub data IsTarget (ctx : WorkspaceContext) (k : ℕ) : Type 0 where
  modifier :
      {m : ModifierDefinition}
      → lookup k ctx.nodes ≡ some (AstNode.modifier_definition m)
      → IsTarget ctx k
  implemented :
      {f : FunctionDefinition}
      → lookup k ctx.nodes ≡ some (AstNode.function_definition f)
      → f.implemented ≡ true
      → IsTarget ctx k

is_inward_target-IsTarget :
    (ctx : WorkspaceContext) (k : ℕ) (n : Option AstNode)
    → lookup k ctx.nodes ≡ n
    → is_inward_target n ≡ true
    → IsTarget ctx k
unfolding is_inward_target
is_inward_target-IsTarget ctx k (some (AstNode.modifier_definition m)) at h = modifier at
is_inward_target-IsTarget ctx k (some (AstNode.function_definition f)) at h = implemented at h
is_inward_target-IsTarget ctx k _ at h = cc

IsTarget-is_inward_target :
    (ctx : WorkspaceContext) (k : ℕ) → IsTarget ctx k → is_inward_target (lookup k ctx.nodes) ≡ true
unfolding is_inward_target
IsTarget-is_inward_target ctx k (modifier at) = rw at refl
IsTarget-is_inward_target ctx k (implemented at h) = rw at h

-- The points of a legacy consumer.
pub record Derived (ctx : WorkspaceContext) (ns : List AstNode) (d : CallGraphDirection)
    (c : CallGraphConsumer) : Type 0 where
  pub entry_points : c.entry_points ≡ ids ns
  pub outward : (k : ℕ) → contains c.outward_surface_points k ≡ around ctx ns k
  pub inward :
      (k : ℕ)
      → (contains c.inward_surface_points k ≡ true) ↔ ((refers ns k ≡ true) × IsTarget ctx k)
  pub direction : c.direction ≡ d
  pub is_legacy : c.base_contract ≡ none

inward_points :
    (ctx : WorkspaceContext) (ns : List AstNode) (k : ℕ)
    → (contains (derive_inward_surface_points_legacy ctx ns) k ≡ true)
      ↔ ((refers ns k ≡ true) × IsTarget ctx k)
inward_points ctx ns k = (
  λ h.
      let both : (refers ns k && is_inward_target (lookup k ctx.nodes)) ≡ true =
        sym (contains-derive_inward ctx ns k) ∙ h in
      (
        ground (arith, both),
        is_inward_target-IsTarget ctx k (lookup k ctx.nodes) refl (ground (arith, both)),
      ),
  λ (r, t). contains-derive_inward ctx ns k ∙ ground (arith, r, IsTarget-is_inward_target ctx k t),
)

-- the error, or a consumer with these points
abbrev pub Expected :
    WorkspaceContext
    → List AstNode
    → CallGraphDirection
    → Option AstNode
    → Option (Error ⊎ CallGraphConsumer)
    → Type 0
Expected ctx ns d none r = (c : CallGraphConsumer) × (r ≡ some (inr c)) × Derived ctx ns d c
Expected ctx ns d (some n) r = r ≡ some (inl (unidentified_entry_point_node n))

-- In a workspace whose parent links do not go round, `from_nodes` returns. If one of the nodes has no id, it
-- is the error that names the first of these. Otherwise it is a consumer for the legacy graphs in the
-- given direction: its entry points are the ids in order, its outward points exactly the functions and
-- modifiers that the nodes are or else stand in (the closest function above, or else the closest modifier),
-- and its inward points exactly the modifiers and implemented
-- functions of the context that the nodes refer to.
pub from_nodes-Expected :
    (ctx : WorkspaceContext) (ns : List AstNode) (d : CallGraphDirection)
    → IsForest ctx
    → Expected ctx ns d (first_unidentified ns) (from_nodes ctx ns d)
unfolding from_nodes
from_nodes-Expected ctx ns d forest =
    by_first (first_unidentified ns) (derive_entry_points ns) (derive_entry_points-first ns)
  where
    by_first :
        (o : Option AstNode) (r : Error ⊎ List ℕ)
        → r ≡ entries_or_error (ids ns) o
        → Expected ctx ns d o (from_entry_points ctx ns d r)
    by_first none r e =
        let (ps, run, h) = derive_outward_surface_points-around ctx forest ns in
        (
          record {
            entry_points = ids ns;
            inward_surface_points = derive_inward_surface_points_legacy ctx ns;
            outward_surface_points = ps;
            direction = d;
            base_contract = none;
          },
          ap (from_entry_points ctx ns d) e ∙ unfold from_entry_points in rw run refl,
          record {
            entry_points = refl;
            outward = h;
            inward = λ k. inward_points ctx ns k;
            direction = refl;
            is_legacy = refl;
          },
        )
    by_first (some n) r e = ap (from_entry_points ctx ns d) e ∙ unfold from_entry_points in refl
