-- ===== src/Workspace/Siblings/Tree.antt =====
-- The siblings in a workspace whose parent links and children agree.
use aderyn.Prelude.{
  some_inj, ℕ, ◌+◌, ◌≤◌, Option, some, List, [], ◌∷◌, ◌≡◌, refl, arith, All, Option-cases, inl, inr,
  ◌==◌, if◌then◌else◌, >>=-eq-some, ap, sym, ◌∙◌,
}
use aderyn.Prelude.Assoc.{lookup}
use aderyn.Workspace.Ast.{AstNode, node_id, extracted}
use aderyn.Workspace.Context.{WorkspaceContext}
use aderyn.Workspace.Ancestors.{get_parent}
use aderyn.Workspace.Location.{get_source_unit_from_child_node}
use aderyn.Workspace.Siblings.{
  next_to, previous_to, nodes_at, children, sorted_children, next_sibling, previous_sibling,
  sibling, search_in,
}
use aderyn.Workspace.Siblings.Kept.{count_id, sort_by_src_position-Kept}
use aderyn.Workspace.Siblings.Back.{previous_to-next_to}

-- how often the id stands in the list
abbrev pub occurrences : ℕ → List ℕ → ℕ
occurrences j [] = 0
occurrences j (i ∷ is) = (if i == j then 1 else 0) + occurrences j is

-- Each node has the id that it is kept under, is the parent of its children, has each of them once and
-- stands in the same file as they do.
pub record IsTree (ctx : WorkspaceContext) : Type 0 where
  pub own_ids : (i : ℕ) (n : AstNode) → lookup i ctx.nodes ≡ some n → node_id n ≡ some i
  pub child_links :
      (i : ℕ) (p : AstNode)
      → lookup i ctx.nodes ≡ some p
      → All (λ c. lookup c ctx.parent_link ≡ some i) (extracted p).immediate_children
  pub once :
      (i : ℕ) (p : AstNode)
      → lookup i ctx.nodes ≡ some p
      → (j : ℕ) → occurrences j (extracted p).immediate_children ≤ 1
  pub one_file :
      (c i : ℕ) (n p : AstNode)
      → lookup c ctx.nodes ≡ some n
      → lookup c ctx.parent_link ≡ some i
      → lookup i ctx.nodes ≡ some p
      → get_source_unit_from_child_node ctx n ≡ get_source_unit_from_child_node ctx p

module _ (ctx : WorkspaceContext) (tree : IsTree ctx) where
  -- a child of the node `i`
  abbrev IsChild : ℕ → AstNode → Type 0
  IsChild i n =
      (c : ℕ) × (node_id n ≡ some c)
      × (lookup c ctx.nodes ≡ some n)
      × (lookup c ctx.parent_link ≡ some i)

  nodes_at-IsChild :
      (i : ℕ) (is : List ℕ)
      → All (λ c. lookup c ctx.parent_link ≡ some i) is
      → All (IsChild i) (nodes_at ctx is)
  unfolding nodes_at
  nodes_at-IsChild i [] h = tt
  nodes_at-IsChild i (c ∷ is) (link, h) = elim (Option-cases (lookup c ctx.nodes)) [
    | inl gone ↦ rw (gone, nodes_at) (nodes_at-IsChild i is h)
    | inr (n, at) ↦ rw (at, nodes_at) ((c, tree.own_ids c n at, at, link), nodes_at-IsChild i is h)
  ]

  count_id-nodes_at : (j : ℕ) (is : List ℕ) → count_id j (nodes_at ctx is) ≤ occurrences j is
  unfolding nodes_at
  count_id-nodes_at j [] = omega arith
  count_id-nodes_at j (c ∷ is) = elim (Option-cases (lookup c ctx.nodes)) [
    | inl gone ↦ rw (gone, nodes_at) (omega (arith, count_id-nodes_at j is))
    | inr (n, at) ↦ rw (at, nodes_at, tree.own_ids c n at) (omega (arith, count_id-nodes_at j is))
  ]

  children-kept :
      (i : ℕ) (p : AstNode)
      → lookup i ctx.nodes ≡ some p
      → children ctx p ≡ some (nodes_at ctx (extracted p).immediate_children)
  unfolding children
  children-kept i p at = rw (tree.own_ids i p at, at) refl

  -- what a search among the sorted children of a node's parent has found
  record Searched (search : List AstNode → Option AstNode) (i : ℕ) (s : AstNode) : Type 0 where
    parent_id : ℕ
    above : AstNode
    sorted : List AstNode
    link : lookup i ctx.parent_link ≡ some parent_id
    kept : lookup parent_id ctx.nodes ≡ some above
    sorts : sorted_children ctx (some above) ≡ some (some sorted)
    finds : search sorted ≡ some s

  -- the children of no parent are not searched
  sorted_children-parent :
      (i : ℕ) (sorted : List AstNode)
      → sorted_children ctx (get_parent ctx i) ≡ some (some sorted)
      → (parent_id : ℕ) × (parent : AstNode) × (lookup i ctx.parent_link ≡ some parent_id)
        × (lookup parent_id ctx.nodes ≡ some parent)
        × (sorted_children ctx (some parent) ≡ some (some sorted))
  unfolding get_parent sorted_children
  sorted_children-parent i sorted h = elim (Option-cases (lookup i ctx.parent_link)) [
    | inl alone ↦ cc (rw alone at h)
    | inr (p, link) ↦ elim (Option-cases (lookup p ctx.nodes)) [
      | inl gone ↦ cc (rw (link, gone) at h)
      | inr (parent, kept) ↦ (p, parent, link, kept, rw (link, kept) at h)
    ]
  ]

  sibling-Searched :
      (search : ℕ → List AstNode → Option AstNode) (i : ℕ) (s : AstNode)
      → sibling ctx search (some i) ≡ some (some s)
      → Searched (search i) i s
  unfolding sibling search_in
  sibling-Searched search i s h =
      let (found, e, r) =
        >>=-eq-some (sorted_children ctx (get_parent ctx i))
          (λ found. some (search_in (search i) found)) h in
      elim (Option-cases found) [
        | inl nothing ↦ cc (rw nothing at r)
        | inr (zs, sorted) ↦
            let (p, parent, link, kept, sorts) = sorted_children-parent i zs (rw sorted at e) in
            record {
              parent_id = p;
              above = parent;
              sorted = zs;
              link = link;
              kept = kept;
              sorts = sorts;
              finds = some_inj (rw sorted at r);
            }
      ]

  Searched-sibling :
      (search : ℕ → List AstNode → Option AstNode) (i : ℕ) (s : AstNode)
      → Searched (search i) i s
      → sibling ctx search (some i) ≡ some (some s)
  unfolding sibling search_in get_parent
  Searched-sibling search i s x = rw (x.link, x.kept, x.sorts, x.finds) refl

  -- what holds of the sorted children
  sorted_children-IsChild :
      (i : ℕ) (p : AstNode) (zs : List AstNode)
      → lookup i ctx.nodes ≡ some p
      → sorted_children ctx (some p) ≡ some (some zs)
      → All (IsChild i) zs × ((j : ℕ) → count_id j zs ≤ 1)
  unfolding sorted_children
  sorted_children-IsChild i p zs at sorts =
      let ns = nodes_at ctx (extracted p).immediate_children in
      let k =
        sort_by_src_position-Kept (IsChild i) ctx ns zs
          (rw (children-kept i p at, sorted_children) at sorts) in
      (
        k.all (nodes_at-IsChild i _ (tree.child_links i p at)),
        λ j. omega (
          arith,
          k.count j,
          count_id-nodes_at j (extracted p).immediate_children,
          tree.once i p at j,
        ),
      )

  pub next_sibling-parent :
      (i : ℕ) (n s : AstNode)
      → lookup i ctx.nodes ≡ some n
      → next_sibling ctx n ≡ some (some s)
      → (p : ℕ) × (parent : AstNode) × (lookup i ctx.parent_link ≡ some p)
        × (lookup p ctx.nodes ≡ some parent)
  unfolding next_sibling
  next_sibling-parent i n s at next =
      let x = sibling-Searched next_to i s (rw (tree.own_ids i n at) at next) in
      (x.parent_id, x.above, x.link, x.kept)

  pub previous_sibling-next_sibling :
      (i : ℕ) (n s : AstNode)
      → lookup i ctx.nodes ≡ some n
      → next_sibling ctx n ≡ some (some s)
      → (j : ℕ) × (lookup j ctx.nodes ≡ some s)
        × (lookup j ctx.parent_link ≡ lookup i ctx.parent_link)
        × (previous_sibling ctx s ≡ some (some n))
  unfolding next_sibling previous_sibling
  previous_sibling-next_sibling i n s at next =
      let x = sibling-Searched next_to i s (rw (tree.own_ids i n at) at next) in
      let (all, once) = sorted_children-IsChild x.parent_id x.above x.sorted x.kept x.sorts in
      let ((j, s_id, s_kept, s_link), m, (k, m_id, m_kept, m_link), same, back) =
        previous_to-next_to (IsChild x.parent_id) (λ c h. (h.0, h.1)) i s x.sorted all once
          x.finds in
      let own =
        some_inj (sym m_kept ∙ ap (λ q. lookup q ctx.nodes) (some_inj (sym m_id ∙ same)) ∙ at) in
      (
        j,
        s_kept,
        s_link ∙ sym x.link,
        rw s_id (
            Searched-sibling previous_to j n (record {
              parent_id = x.parent_id;
              above = x.above;
              sorted = x.sorted;
              link = s_link;
              kept = x.kept;
              sorts = x.sorts;
              finds = back j s_id ∙ ap some own;
            })),
      )
