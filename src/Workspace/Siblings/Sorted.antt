-- ===== src/Workspace/Siblings/Sorted.antt =====
-- What the sort by position returns for nodes of one file.
use Prim.Native.Nat.{Ordering}
use mathlib.Core.List.{Perm}
use mathlib.Core.List.Perm
use aderyn.Prelude.{ℕ, true, some, List, [], ◌∷◌, ◌≡◌, refl, All, inl, inr, ◌∙◌, ap, ◌⊎◌}
use aderyn.Prelude.Assoc.{lookup}
use aderyn.Stats.Text.{Text}
use aderyn.Workspace.TextMap.{text_eq_refl}
use aderyn.Workspace.Ast.{AstNode, node_id}
use aderyn.Workspace.Context.{WorkspaceContext}
use aderyn.Workspace.Location.{get_node_sort_key_pure, get_relative_location_of_nodes, split_once}
use aderyn.Workspace.Location.Flip.{
  Ordering-cases, NotBehind, ordered-NotBehind, flip, ordered, ordered-flip, compare_keys-same,
}
use aderyn.Workspace.Siblings.{
  have_ids, paths_of, same_file, all_equal, compare_nodes, insert_sorted, sort_by,
  sort_by_src_position,
}

module _ (ctx : WorkspaceContext) (path : Text) where
  -- a node that is kept under its id, in the file, with a location that has an offset
  pub record Placed (n : AstNode) : Type 0 where
    pub id : ℕ
    pub line : ℕ
    pub location : Text
    pub offset : Text
    pub length : Text
    pub own_id : node_id n ≡ some id
    pub kept : lookup id ctx.nodes ≡ some n
    pub key : get_node_sort_key_pure ctx n ≡ some (path, line, location)
    pub colon : split_once location ≡ some (offset, length)

  compare_nodes-Placed :
      (a b : AstNode) (x : Placed a) (y : Placed b)
      → compare_nodes ctx a b ≡ some (ordered x.line x.offset y.line y.offset)
  unfolding compare_nodes get_relative_location_of_nodes
  compare_nodes-Placed a b x y =
      rw
        (
          x.own_id,
          y.own_id,
          x.kept,
          y.kept,
          x.key,
          y.key,
          compare_keys-same path x.line y.line x.location y.location x.offset x.length y.offset
              y.length x.colon y.colon,
        )
        refl

  -- the comparison does not put the first behind the second
  abbrev NotAfter : AstNode → AstNode → Type 0
  NotAfter a b =
      (compare_nodes ctx a b ≡ some Ordering.lt) ⊎ (compare_nodes ctx a b ≡ some Ordering.eq)

  abbrev Below : AstNode → List AstNode → Type 0
  Below a [] = Unit
  Below a (b ∷ bs) = NotAfter a b

  -- no node is behind the next
  abbrev InOrder : List AstNode → Type 0
  InOrder [] = Unit
  InOrder (a ∷ bs) = Below a bs × InOrder bs

  record Inserted (x : AstNode) (ys zs : List AstNode) : Type 0 where
    returns : insert_sorted ctx x ys ≡ some zs
    perm : Perm zs (x ∷ ys)
    placed : All Placed zs
    in_order : InOrder ys → InOrder zs
    below : (w : AstNode) → NotAfter w x → Below w ys → Below w zs

  stays :
      (x y : AstNode) (ys : List AstNode)
      → Placed x
      → Placed y
      → All Placed ys
      → NotAfter x y
      → Inserted x (y ∷ ys) (x ∷ y ∷ ys)
  unfolding insert_sorted
  stays x y ys px py pys h = record {
    returns = elim h [ inl e ↦ rw (e, insert_sorted) refl | inr e ↦ rw (e, insert_sorted) refl ];
    perm = Perm.refl (x ∷ y ∷ ys);
    placed = (px, (py, pys));
    in_order = λ o. (h, o);
    below = λ w b c. b;
  }

  goes_on :
      (x y : AstNode) (ys zs : List AstNode)
      → Placed y
      → compare_nodes ctx x y ≡ some Ordering.gt
      → NotAfter y x
      → Inserted x ys zs
      → Inserted x (y ∷ ys) (y ∷ zs)
  unfolding insert_sorted
  goes_on x y ys zs py e h i = record {
    returns = rw (e, i.returns, insert_sorted) refl;
    perm = Perm.trans (Perm.cons y i.perm) (Perm.swap x y ys);
    placed = (py, i.placed);
    in_order = λ o. (i.below y h o.0, i.in_order o.1);
    below = λ w b c. c;
  }

  insert_sorted-Inserted :
      (x : AstNode) (ys : List AstNode)
      → Placed x
      → All Placed ys
      → (zs : List AstNode) × Inserted x ys zs
  insert_sorted-Inserted x [] px pys = (
    x ∷ [],
    record {
      returns = unfold insert_sorted in refl;
      perm = Perm.refl (x ∷ []);
      placed = (px, tt);
      in_order = λ o. (tt, tt);
      below = λ w h b. h;
    },
  )
  insert_sorted-Inserted x (y ∷ ys) px (py, pys) =
      let there = compare_nodes-Placed x y px py in
      let back =
        compare_nodes-Placed y x py px
        ∙ ap some (ordered-flip px.line py.line px.offset py.offset) in
      elim (Ordering-cases (ordered px.line px.offset py.line py.offset)) [
        | inl e ↦ (x ∷ y ∷ ys, stays x y ys px py pys (inl (there ∙ ap some e)))
        | inr (inl e) ↦ (x ∷ y ∷ ys, stays x y ys px py pys (inr (there ∙ ap some e)))
        | inr (inr e) ↦
            let rest = insert_sorted-Inserted x ys px pys in
            (
              y ∷ rest.0,
              goes_on x y ys rest.0 py (there ∙ ap some e) (inl (back ∙ ap (λ o. some (flip o)) e))
                  rest.1,
            )
      ]

  record IsSorted (ns zs : List AstNode) : Type 0 where
    pub returns : sort_by ctx ns ≡ some zs
    pub perm : Perm zs ns
    pub placed : All Placed zs
    pub in_order : InOrder zs

  sort_by-IsSorted : (ns : List AstNode) → All Placed ns → (zs : List AstNode) × IsSorted ns zs
  unfolding sort_by
  sort_by-IsSorted [] p =
      ([], record { returns = refl; perm = Perm.refl []; placed = tt; in_order = tt })
  sort_by-IsSorted (n ∷ ns) (p, ps) =
      let (zs, z) = sort_by-IsSorted ns ps in
      let (out, i) = insert_sorted-Inserted n zs p z.placed in
      (
        out,
        record {
          returns = rw z.returns i.returns;
          perm = Perm.trans i.perm (Perm.cons n z.perm);
          placed = i.placed;
          in_order = i.in_order z.in_order;
        },
      )

  have_ids-Placed : (ns : List AstNode) → All Placed ns → have_ids ns ≡ true
  unfolding have_ids
  have_ids-Placed [] p = refl
  have_ids-Placed (n ∷ ns) (p, ps) = rw (p.own_id, have_ids) (have_ids-Placed ns ps)

  paths_of-Placed :
      (ns : List AstNode)
      → All Placed ns
      → (ps : List Text) × (paths_of ctx ns ≡ some ps) × (all_equal path ps ≡ true)
  unfolding paths_of all_equal
  paths_of-Placed [] p = ([], refl, refl)
  paths_of-Placed (n ∷ ns) (p, ps) =
      let (qs, at, all) = paths_of-Placed ns ps in
      (path ∷ qs, rw (p.key, at) refl, rw (text_eq_refl path) all)

  -- where the nodes stand in the file
  abbrev pub Precedes : AstNode → AstNode → Type 0
  Precedes a b = (x : Placed a) × (y : Placed b) × NotBehind x.line x.offset y.line y.offset

  abbrev PrecedesFirst : AstNode → List AstNode → Type 0
  PrecedesFirst a [] = Unit
  PrecedesFirst a (b ∷ bs) = Precedes a b

  -- no node stands behind the next
  abbrev pub ByPosition : List AstNode → Type 0
  ByPosition [] = Unit
  ByPosition (a ∷ bs) = PrecedesFirst a bs × ByPosition bs

  NotAfter-Precedes : (a b : AstNode) → Placed a → Placed b → NotAfter a b → Precedes a b
  NotAfter-Precedes a b x y h = (
    x,
    y,
    ordered-NotBehind x.line y.line x.offset y.offset
        (λ g. not_greater h (compare_nodes-Placed a b x y ∙ ap some g)),
  )
    where
      not_greater : NotAfter a b → compare_nodes ctx a b ≡ some Ordering.gt → ⊥
      not_greater (inl e) g = cc
      not_greater (inr e) g = cc

  InOrder-ByPosition : (ns : List AstNode) → All Placed ns → InOrder ns → ByPosition ns
  InOrder-ByPosition [] p o = tt
  InOrder-ByPosition (a ∷ []) p o = (tt, tt)
  InOrder-ByPosition (a ∷ b ∷ ns) (x, (y, p)) (h, o) =
      (NotAfter-Precedes a b x y h, InOrder-ByPosition (b ∷ ns) (y, p) o)

  -- On one node or more, each kept under its id, in the same file and with a location that has a colon,
  -- `sort_by_src_position` returns a permutation of them in which each node stands on an earlier line than
  -- the next, or on the same line with an offset that is not behind that of the next. The offsets of one
  -- line are compared as texts, as in a dictionary: 10 stands before 9.
  pub sort_by_src_position-IsSorted :
      (n : AstNode) (ns : List AstNode)
      → All Placed (n ∷ ns)
      → (zs : List AstNode) × (sort_by_src_position ctx (n ∷ ns) ≡ some (some zs))
        × Perm zs (n ∷ ns)
        × ByPosition zs
  unfolding sort_by_src_position same_file
  sort_by_src_position-IsSorted n ns p =
      let (zs, z) = sort_by-IsSorted (n ∷ ns) p in
      let (ps, at, all) = paths_of-Placed ns p.1 in
      (
        zs,
        rw (have_ids-Placed (n ∷ ns) p, p.0.key, at, all, z.returns) refl,
        z.perm,
        InOrder-ByPosition zs z.placed z.in_order,
      )
