-- ===== src/Graph/Raw.antt =====
-- `RawCallGraph` and its connections, of aderyn_core/src/context/graph/preprocess.
use aderyn.Prelude.{
  ℕ, Bool, false, ◌&&◌, ◌||◌, Option, none, some, List, [], ◌∷◌, ◌++◌, ◌≡◌, refl, ap, ◌∙◌, arith,
  ◌==◌, if◌then◌else◌, is_some, Bool-cases, Option-cases, inl, inr, ==_iff, contains,
  contains-append, sym, subst,
}
use aderyn.Prelude.Assoc.{lookup, insert, lookup-insert, IsMap, insert-IsMap}
use aderyn.Workspace.Context.{RawCallGraph}

-- the entry that `create_connection_if_not_exists` finds at `from`, or finds vacant
connect : Option (List ℕ) → ℕ → ℕ → RawCallGraph → RawCallGraph
connect (some tos) from to g = if contains tos to then g else insert from (tos ++ to ∷ []) g
connect none from to g = insert from (to ∷ []) g

unfoldable pub create_connection_if_not_exists : ℕ → ℕ → RawCallGraph → RawCallGraph
unfolding connect
create_connection_if_not_exists from to g = connect (lookup from g) from to g

unfoldable pub create_node_if_not_exists : ℕ → RawCallGraph → RawCallGraph
create_node_if_not_exists i g = if is_some (lookup i g) then g else insert i [] g

abbrev pub targets : Option (List ℕ) → List ℕ
targets none = []
targets (some tos) = tos

-- whether `to` is listed at `from`
abbrev pub connected : RawCallGraph → ℕ → ℕ → Bool
connected g from to = contains (targets (lookup from g)) to

-- no number is listed twice
abbrev pub IsDistinct : List ℕ → Type 0
IsDistinct [] = Unit
IsDistinct (x ∷ xs) = (contains xs x ≡ false) × IsDistinct xs

IsDistinct-append :
    (xs : List ℕ) (y : ℕ) → IsDistinct xs → contains xs y ≡ false → IsDistinct (xs ++ y ∷ [])
IsDistinct-append [] y d h = (refl, tt)
IsDistinct-append (x ∷ xs) y (n, d) h = (
  contains-append xs (y ∷ []) x ∙ ground (arith, n, h),
  IsDistinct-append xs y d (ground (arith, h)),
)

-- one entry for a key, and each target listed once
pub record IsSimple (g : RawCallGraph) : Type 0 where
  pub one_entry : IsMap g
  pub once : (a : ℕ) (tos : List ℕ) → lookup a g ≡ some tos → IsDistinct tos

pub IsSimple-empty : IsSimple []
IsSimple-empty = record { one_entry = tt; once = λ a tos at. unfold lookup in cc }

abbrev joined : List ℕ → ℕ → List ℕ
joined tos to = if contains tos to then tos else tos ++ to ∷ []

contains-joined :
    (tos : List ℕ) (to b : ℕ) → contains (joined tos to) b ≡ (contains tos b || to == b)
contains-joined tos to b = elim (Bool-cases (contains tos to)) [
  | inl old ↦ elim (Bool-cases (to == b)) [
    | inl same ↦ rw old (ground (arith, same, rw ((==_iff to b).0 same) at old))
    | inr other ↦ ground (arith, old, other)
  ]
  | inr new ↦ rw new (contains-append tos (to ∷ []) b ∙ ground arith)
]

joined-IsDistinct : (tos : List ℕ) (to : ℕ) → IsDistinct tos → IsDistinct (joined tos to)
joined-IsDistinct tos to d = elim (Bool-cases (contains tos to)) [
  | inl old ↦ rw old d
  | inr new ↦ rw new (IsDistinct-append tos to d new)
]

module _ (from to : ℕ) (g : RawCallGraph) where
  lookup-connect :
      (o : Option (List ℕ)) (a : ℕ)
      → lookup from g ≡ o
      → lookup a (connect o from to g)
        ≡ (if from == a then some (joined (targets o) to) else lookup a g)
  unfolding connect
  lookup-connect none a at = lookup-insert from a (to ∷ []) g
  lookup-connect (some tos) a at = elim (Bool-cases (contains tos to)) [
    | inl old ↦ elim (Bool-cases (from == a)) [
      | inl same ↦ rw (old, same) (rw ((==_iff from a).0 same) at at)
      | inr other ↦ rw (old, other) refl
    ]
    | inr new ↦ rw new (lookup-insert from a (tos ++ to ∷ []) g)
  ]

  -- the entry of `from` gets `to` if it has not got it, and no other entry changes
  pub lookup-create_connection :
      (a : ℕ)
      → lookup a (create_connection_if_not_exists from to g)
        ≡ (if from == a then some (joined (targets (lookup from g)) to) else lookup a g)
  unfolding create_connection_if_not_exists
  lookup-create_connection a = lookup-connect (lookup from g) a refl

  pub connected-create_connection :
      (a b : ℕ)
      → connected (create_connection_if_not_exists from to g) a b
        ≡ (connected g a b || (from == a && to == b))
  connected-create_connection a b =
      ap (λ o. contains (targets o) b) (lookup-create_connection a)
      ∙ elim (Bool-cases (from == a)) [
        | inl same ↦
            rw (same, (==_iff from a).0 same)
              (contains-joined (targets (lookup a g)) to b ∙ ground arith)
        | inr other ↦ ground (arith, other)
      ]

  connect-IsMap : (o : Option (List ℕ)) → IsMap g → IsMap (connect o from to g)
  unfolding connect
  connect-IsMap none m = insert-IsMap from (to ∷ []) g m
  connect-IsMap (some tos) m = elim (Bool-cases (contains tos to)) [
    | inl old ↦ rw old m
    | inr new ↦ rw new (insert-IsMap from (tos ++ to ∷ []) g m)
  ]

  targets-IsDistinct :
      IsSimple g → (o : Option (List ℕ)) → lookup from g ≡ o → IsDistinct (targets o)
  targets-IsDistinct s none at = tt
  targets-IsDistinct s (some tos) at = s.once from tos at

  pub create_connection-IsSimple : IsSimple g → IsSimple (create_connection_if_not_exists from to g)
  create_connection-IsSimple s = record {
    one_entry = unfold create_connection_if_not_exists in connect-IsMap (lookup from g) s.one_entry;
    once = λ a tos at. elim (Bool-cases (from == a)) [
      | inl same ↦
          let e : some (joined (targets (lookup from g)) to) ≡ some tos =
            rw same at (sym (lookup-create_connection a) ∙ at) in
          subst IsDistinct (cc) (
            joined-IsDistinct (targets (lookup from g)) to
              (targets-IsDistinct s (lookup from g) refl))
      | inr other ↦ s.once a tos (rw other at (sym (lookup-create_connection a) ∙ at))
    ];
  }

module _ (i : ℕ) (g : RawCallGraph) where
  pub connected-create_node :
      (a b : ℕ) → connected (create_node_if_not_exists i g) a b ≡ connected g a b
  unfolding create_node_if_not_exists
  connected-create_node a b = elim (Option-cases (lookup i g)) [
    | inl absent ↦ rw absent (
        ap (λ o. contains (targets o) b) (lookup-insert i a [] g) ∙ elim (Bool-cases (i == a)) [
          | inl same ↦ ground (arith, same, rw ((==_iff i a).0 same) at absent)
          | inr other ↦ ground (arith, other)
        ])
    | inr (tos, at) ↦ rw at refl
  ]

  pub create_node-IsSimple : IsSimple g → IsSimple (create_node_if_not_exists i g)
  unfolding create_node_if_not_exists
  create_node-IsSimple s = elim (Option-cases (lookup i g)) [
    | inl absent ↦ rw absent (record {
      one_entry = insert-IsMap i [] g s.one_entry;
      once = λ a tos at. elim (Bool-cases (i == a)) [
        | inl same ↦
            let e : some [] ≡ some tos = rw same at (sym (lookup-insert i a [] g) ∙ at) in
            subst IsDistinct {x = []} (cc) tt
        | inr other ↦ s.once a tos (rw other at (sym (lookup-insert i a [] g) ∙ at))
      ];
    })
    | inr (tos, at) ↦ rw at s
  ]
