-- ===== src/Workspace/Peek/Adjacent.antt =====
-- The text between two siblings is the same, asked from either of them.
use aderyn.Prelude.{ℕ, Option, none, some, ◌>>=◌, ◌≡◌, refl, sym, ◌∙◌}
use aderyn.Prelude.Assoc.{lookup}
use aderyn.Stats.Text.{Text}
use aderyn.Workspace.Ast.{AstNode}
use aderyn.Workspace.Context.{WorkspaceContext, SourceUnit}
use aderyn.Workspace.Location.{get_source_unit_from_child_node}
use aderyn.Workspace.Siblings.{next_sibling, previous_sibling}
use aderyn.Workspace.Siblings.Tree.{IsTree, next_sibling-parent, previous_sibling-next_sibling}
use aderyn.Workspace.Peek.{
  peek_over, peek_under, over_at, under_at, over, under, place_of, content_and_place,
  get_offset_and_length_of_node, between,
}

abbrev content_of : Option SourceUnit → Option Text
content_of unit = unit >>= λ u. u.source

-- the content and the place of a node
abbrev at_place : Option Text → Option (ℕ × ℕ) → Option (Text × (ℕ × ℕ))
at_place text place = text >>= λ content. place >>= λ at. some (content, at)

content-at_place :
    (unit : Option SourceUnit) (place : Option (ℕ × ℕ))
    → (unit >>= λ u. u.source >>= λ content. place >>= λ at. some (content, at))
      ≡ at_place (content_of unit) place
content-at_place none place = refl
content-at_place (some u) place = refl

-- what both slices come to
gap : Option Text → Option (ℕ × ℕ) → Option (ℕ × ℕ) → Option (Option Text)
gap (some content) (some here) (some there) = between content here there.0
gap _ _ _ = some none

module _ (ctx : WorkspaceContext) (tree : IsTree ctx) where
  content_and_place-kept :
      (i : ℕ) (n : AstNode)
      → lookup i ctx.nodes ≡ some n
      → content_and_place ctx i
        ≡ at_place
            (content_of (get_source_unit_from_child_node ctx n))
            (get_offset_and_length_of_node ctx i)
  unfolding content_and_place
  content_and_place-kept i n at = rw at (
      content-at_place (get_source_unit_from_child_node ctx n)
        (get_offset_and_length_of_node ctx i))

  under-gap :
      (text : Option Text) (n s : AstNode) (here there : Option (ℕ × ℕ))
      → next_sibling ctx n ≡ some (some s)
      → place_of ctx s ≡ there
      → under_at ctx n (at_place text here) ≡ gap text here there
  unfolding under_at under gap
  under-gap none n s here there e p = refl
  under-gap (some c) n s none there e p = refl
  under-gap (some c) n s (some a) none e p = rw e (rw (p, under) refl)
  under-gap (some c) n s (some a) (some b) e p = rw e (rw (p, under) refl)

  over-gap :
      (text : Option Text) (n s : AstNode) (here there : Option (ℕ × ℕ))
      → previous_sibling ctx s ≡ some (some n)
      → place_of ctx n ≡ here
      → over_at ctx s (at_place text there) ≡ gap text here there
  unfolding over_at over gap
  over-gap none n s here there e p = refl
  over-gap (some c) n s none none e p = refl
  over-gap (some c) n s (some a) none e p = refl
  over-gap (some c) n s none (some b) e p = rw e (rw (p, over) refl)
  over-gap (some c) n s (some a) (some b) e p = rw e (rw (p, over) refl)

  place_of-kept :
      (i : ℕ) (n : AstNode)
      → lookup i ctx.nodes ≡ some n
      → place_of ctx n ≡ get_offset_and_length_of_node ctx i
  unfolding place_of
  place_of-kept i n at = rw (tree.own_ids i n at) refl

  next_sibling-one_file :
      (i j : ℕ) (n s : AstNode)
      → lookup i ctx.nodes ≡ some n
      → lookup j ctx.nodes ≡ some s
      → lookup j ctx.parent_link ≡ lookup i ctx.parent_link
      → next_sibling ctx n ≡ some (some s)
      → get_source_unit_from_child_node ctx s ≡ get_source_unit_from_child_node ctx n
  next_sibling-one_file i j n s n_at s_at link next =
      let (p, parent, i_link, p_at) = next_sibling-parent ctx tree i n s n_at next in
      tree.one_file j p s parent s_at (link ∙ i_link) p_at
      ∙ sym (tree.one_file i p n parent n_at i_link p_at)

  -- In a workspace in which each node is kept under its id and is the parent of its children, has each
  -- child once and stands in the file of its children: when the next sibling of a node that is kept
  -- there is `s`, the previous sibling of `s` is the node, and `peek_over` of `s` returns what
  -- `peek_under` of the node does, whether that is a text, nothing or a panic.
  pub peek_over-next_sibling :
      (i : ℕ) (n s : AstNode)
      → lookup i ctx.nodes ≡ some n
      → next_sibling ctx n ≡ some (some s)
      → (previous_sibling ctx s ≡ some (some n)) × (peek_over ctx s ≡ peek_under ctx n)
  unfolding peek_over peek_under
  peek_over-next_sibling i n s at next =
      let (j, s_at, link, back) = previous_sibling-next_sibling ctx tree i n s at next in
      let same = next_sibling-one_file i j n s at s_at link next in
      (
        back,
        rw
            (
              peek_over,
              peek_under,
              tree.own_ids j s s_at,
              tree.own_ids i n at,
              content_and_place-kept j s s_at,
              content_and_place-kept i n at,
              same,
            )
            (over-gap text n s here (get_offset_and_length_of_node ctx j) back
                (place_of-kept i n at)
              ∙ sym (
                  under-gap text n s here (get_offset_and_length_of_node ctx j) next
                    (place_of-kept j s s_at))),
      )
    where
      text : Option Text
      text = content_of (get_source_unit_from_child_node ctx n)

      here : Option (ℕ × ℕ)
      here = get_offset_and_length_of_node ctx i
