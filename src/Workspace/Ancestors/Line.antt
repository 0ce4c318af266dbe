-- ===== src/Workspace/Ancestors/Line.antt =====
-- In a workspace whose parent links do not go round, the walks end and agree.
use aderyn.Prelude.{
  ℕ, zero, suc, ◌<◌, false, Option, none, some, ◌>>=◌, List, [], ◌∷◌, ◌≡◌, refl, ap, ◌∙◌, arith,
  ◌==◌, if◌then◌else◌, Bool-cases, Option-cases, inl, inr, ==_iff, All, contains, length,
}
use aderyn.Prelude.Assoc.{lookup}
use aderyn.Prelude.Unvisited.{left, left-visit, left-length}
use aderyn.Workspace.Ast.{AstNode, NodeType, node_type, type_eq, node_id}
use aderyn.Workspace.Context.{WorkspaceContext}
use aderyn.Workspace.Ancestors.{
  get_parent, parent, line_loop, get_ancestral_line, closest_loop, get_closest_ancestor,
}

-- The parent of a node stands below it in some ranking, and a node has the id that it is kept under.
pub record IsForest (ctx : WorkspaceContext) : Type 0 where
  pub rank : ℕ → ℕ
  pub lower : (i p : ℕ) → lookup i ctx.parent_link ≡ some p → rank p < rank i
  pub own_ids : (i : ℕ) (n : AstNode) → lookup i ctx.nodes ≡ some n → node_id n ≡ some i

-- the first node of the type
abbrev pub first_of : NodeType → List AstNode → Option AstNode
first_of t [] = none
first_of t (n ∷ ns) = if type_eq (node_type n) t then some n else first_of t ns

module _ (ctx : WorkspaceContext) (forest : IsForest ctx) where
  -- everything that was passed stands above
  abbrev Above : ℕ → List ℕ → Type 0
  Above p v = All (λ k. forest.rank p < forest.rank k) v

  Above-new : (p : ℕ) (v : List ℕ) → Above p v → contains v p ≡ false
  Above-new p [] h = refl
  Above-new p (k ∷ v) (l, h) = elim (Bool-cases (k == p)) [
    | inl same ↦ absurd (below k p ((==_iff k p).0 same) l)
    | inr other ↦ rw other (Above-new p v h)
  ]
    where
      below : (k p : ℕ) → k ≡ p → forest.rank p < forest.rank k → ⊥
      below k p e l = omega (arith, ap forest.rank e, l)

  Above-lower : (p q : ℕ) (v : List ℕ) → forest.rank q < forest.rank p → Above p v → Above q v
  Above-lower p q [] l h = tt
  Above-lower p q (k ∷ v) l (m, h) = (omega (arith, l, m), Above-lower p q v l h)

  -- where the walk stands, and what it has passed
  abbrev Standing : Option ℕ → List ℕ → Type 0
  Standing none v = Unit
  Standing (some p) v = Above p v

  Standing-parent :
      (p : ℕ) (v : List ℕ) (o : Option ℕ)
      → lookup p ctx.parent_link ≡ o
      → Above p v
      → Standing o (p ∷ v)
  Standing-parent p v none e h = tt
  Standing-parent p v (some q) e h = (forest.lower p q e, Above-lower p q v (forest.lower p q e) h)

  abbrev Enough : Option ℕ → List ℕ → ℕ → Type 0
  Enough none v fuel = Unit
  Enough (some p) v fuel = left ctx.parent_link v < fuel

  Enough-parent :
      (p : ℕ) (v : List ℕ) (fuel : ℕ) (o : Option ℕ)
      → lookup p ctx.parent_link ≡ o
      → contains v p ≡ false
      → left ctx.parent_link v < suc fuel
      → Enough o (p ∷ v) fuel
  Enough-parent p v fuel none e n l = tt
  Enough-parent p v fuel (some q) e n l =
      omega (arith, l, left-visit ctx.parent_link v p (rw e refl) n)

  parent_of :
      (n : AstNode) (p : ℕ)
      → lookup p ctx.nodes ≡ some n
      → parent ctx n ≡ (lookup p ctx.parent_link >>= λ q. lookup q ctx.nodes)
  unfolding parent get_parent
  parent_of n p at = ap (λ o. o >>= get_parent ctx) (forest.own_ids p n at)

  abbrev Agree : ℕ → ℕ → Option ℕ → Type 0
  Agree f1 f2 o =
      (chain : List AstNode) × (line_loop ctx f1 (o >>= λ p. lookup p ctx.nodes) ≡ some chain)
      × ((t : NodeType) → closest_loop ctx t f2 o ≡ some (first_of t chain))

  loops-Agree :
      (f1 f2 : ℕ) (o : Option ℕ) (v : List ℕ)
      → Standing o v
      → Enough o v f1
      → Enough o v f2
      → Agree f1 f2 o
  unfolding line_loop closest_loop
  loops-Agree f1 f2 none v h l1 l2 = ([], refl, λ t. refl)
  loops-Agree zero f2 (some p) v h l1 l2 = absurd (omega (arith, l1))
  loops-Agree (suc f1) zero (some p) v h l1 l2 = absurd (omega (arith, l2))
  loops-Agree (suc f1) (suc f2) (some p) v h l1 l2 = elim (Option-cases (lookup p ctx.nodes)) [
    | inl gone ↦ ([], rw gone refl, λ t. rw (gone, closest_loop) refl)
    | inr (n, at) ↦
        let next = lookup p ctx.parent_link in
        let (chain, run, closest) =
          loops-Agree f1 f2 next (p ∷ v) (Standing-parent p v next refl h)
            (Enough-parent p v f1 next refl (Above-new p v h) l1)
            (Enough-parent p v f2 next refl (Above-new p v h) l2) in
        (
          n ∷ chain,
          rw at
              (ap (λ o. line_loop ctx f1 o >>= λ c. some (n ∷ c)) (parent_of n p at) ∙ rw run refl),
          λ t. rw (at, closest_loop) (rw (closest t) (ground arith)),
        )
  ]

  -- the walk from the parent of a node
  from_parent-Agree :
      (i : ℕ)
      → Agree (length ctx.parent_link) (suc (length ctx.parent_link)) (lookup i ctx.parent_link)
  from_parent-Agree i =
      let next = lookup i ctx.parent_link in
      let some_left = left-length ctx.parent_link [] in
      loops-Agree (length ctx.parent_link) (suc (length ctx.parent_link)) next (i ∷ [])
        (Standing-parent i [] next refl tt)
        (Enough-parent i [] (length ctx.parent_link) next refl refl (omega (arith, some_left)))
        (Enough-parent i [] (suc (length ctx.parent_link)) next refl refl
          (omega (arith, some_left)))

  pub get_closest_ancestor-returns :
      (i : ℕ) (t : NodeType) → (r : Option AstNode) × (get_closest_ancestor ctx i t ≡ some r)
  unfolding get_closest_ancestor
  get_closest_ancestor-returns i t =
      let (chain, run, closest) = from_parent-Agree i in (first_of t chain, closest t)

  -- In a workspace whose parent links do not go round and whose nodes have the ids that they are kept
  -- under, both walks from a node end, with one more step than there are links: the ancestral line starts
  -- with the node itself, and the closest ancestor of a type is the first of that type in the rest of the
  -- line, or none if the rest has none.
  pub get_closest_ancestor-first_of :
      (i : ℕ) (n : AstNode)
      → lookup i ctx.nodes ≡ some n
      → (chain : List AstNode) × (get_ancestral_line ctx i ≡ some (n ∷ chain))
        × ((t : NodeType) → get_closest_ancestor ctx i t ≡ some (first_of t chain))
  unfolding get_ancestral_line get_closest_ancestor line_loop
  get_closest_ancestor-first_of i n at =
      let (chain, run, closest) = from_parent-Agree i in
      (
        chain,
        ap (line_loop ctx (suc (length ctx.parent_link))) at
            ∙ ap (λ o. line_loop ctx (length ctx.parent_link) o >>= λ c. some (n ∷ c))
                (parent_of n i at)
            ∙ rw run refl,
        closest,
      )
