-- ===== src/Workspace/Tests/Siblings.antt =====
-- A file with a source unit (1) and two nodes in it (2 and 3), listed in the opposite order.
use mathlib.Core.List.{Perm}
use aderyn.Prelude.{
  some_inj, ℕ, none, some, List, [], ◌∷◌, ◌≡◌, refl, arith, ◌==◌, All, subst, Bool-cases, ==_iff,
  inl, inr, ◌≤◌,
}
use aderyn.Prelude.Assoc.{lookup}
use aderyn.Stats.Text.{Text, codes}
use aderyn.Workspace.Ast.{AstNode, node_id, extracted}
use aderyn.Workspace.Context.{WorkspaceContext, SourceUnit}
use aderyn.Workspace.Location.{get_source_unit_from_child_node, get_node_sort_key_pure, split_once}
use aderyn.Workspace.Siblings.{sort_by_src_position, next_sibling, previous_sibling}
use aderyn.Workspace.Siblings.Sorted.{Placed, ByPosition, sort_by_src_position-IsSorted}
use aderyn.Workspace.Siblings.Tree.{IsTree, occurrences}
use aderyn.Workspace.Peek.{peek, peek_over, peek_under}
use aderyn.Workspace.Peek.Adjacent.{peek_over-next_sibling}

abbrev node_at : ℕ → Text → List ℕ → AstNode
node_at id src children = AstNode.other_node (some id) (record {
  function_calls = [];
  modifier_invocations = [];
  referenced_declarations = [];
  immediate_children = children;
  src = some src;
})

abbrev unit1 : AstNode
unit1 = node_at 1 (codes "0:16:0") (3 ∷ 2 ∷ [])

abbrev node2 : AstNode
node2 = node_at 2 (codes "3:2:0") []

abbrev node3 : AstNode
node3 = node_at 3 (codes "11:2:0") []

abbrev file : SourceUnit
file = record {
  id = 1;
  absolute_path = some (codes "A.sol");
  source = some (codes "ab\ncd e\nfgh ij\nkl");
}

abbrev tree : WorkspaceContext
tree = record {
  parent_link = (2, 1) ∷ (3, 1) ∷ [];
  router = none;
  nodes = (1, unit1) ∷ (2, node2) ∷ (3, node3) ∷ [];
  inward_callgraph = none;
  outward_callgraph = none;
  callgraphs = none;
  function_definitions = [];
  modifier_definitions = [];
  contract_definitions = [];
  source_unit_ids = λ n. some 1;
  source_units_context = file ∷ [];
}

-- two nodes of one line, whose offsets are compared as texts
abbrev node4 : AstNode
node4 = node_at 4 (codes "9:1:0") []

abbrev node5 : AstNode
node5 = node_at 5 (codes "10:1:0") []

abbrev one_line : WorkspaceContext
one_line = record tree { nodes = (4, node4) ∷ (5, node5) ∷ [] }

ten_before_nine :
    sort_by_src_position one_line (node4 ∷ node5 ∷ []) ≡ some (some (node5 ∷ node4 ∷ []))
unfolding sort_by_src_position node_id get_node_sort_key_pure
    aderyn.Workspace.Siblings.compare_nodes aderyn.Workspace.Location.get_relative_location_of_nodes
    lookup
ten_before_nine = refl

sorted_sample : sort_by_src_position tree (node3 ∷ node2 ∷ []) ≡ some (some (node2 ∷ node3 ∷ []))
unfolding sort_by_src_position node_id get_node_sort_key_pure
    aderyn.Workspace.Siblings.compare_nodes aderyn.Workspace.Location.get_relative_location_of_nodes
    lookup
sorted_sample = refl

next_sample : next_sibling tree node2 ≡ some (some node3)
unfolding next_sibling node_id aderyn.Workspace.Ancestors.get_parent lookup
    aderyn.Workspace.Siblings.nodes_at get_node_sort_key_pure
    aderyn.Workspace.Siblings.compare_nodes aderyn.Workspace.Location.get_relative_location_of_nodes
next_sample = refl

peek_sample : peek tree node2 ≡ some (some (codes "cd"))
unfolding peek node_id lookup aderyn.Workspace.Location.slice_to
    aderyn.Workspace.Location.slice_from
peek_sample = refl

under_sample : peek_under tree node2 ≡ some (some (codes " e\nfgh"))
unfolding peek_under node_id aderyn.Workspace.Peek.content_and_place lookup
    get_source_unit_from_child_node next_sibling aderyn.Workspace.Ancestors.get_parent
    aderyn.Workspace.Siblings.nodes_at get_node_sort_key_pure
    aderyn.Workspace.Siblings.compare_nodes aderyn.Workspace.Location.get_relative_location_of_nodes
under_sample = refl

-- what holds of each node under its id holds of what is kept
by_nodes {κ} :
    (P : ℕ → AstNode → Type κ)
    → P 1 unit1
    → P 2 node2
    → P 3 node3
    → (i : ℕ) (p : AstNode) → lookup i tree.nodes ≡ some p
    → P i p
unfolding lookup
by_nodes P h1 h2 h3 i p at = elim (Bool-cases (1 == i)) [
  | inl e ↦ subst (λ x. P x p) ((==_iff 1 i).0 e) (subst (P 1) (some_inj (rw (e, lookup) at at)) h1)
  | inr no1 ↦ elim (Bool-cases (2 == i)) [
    | inl e ↦
        subst (λ x. P x p) ((==_iff 2 i).0 e)
          (subst (P 2) (some_inj (rw (no1, e, lookup) at at)) h2)
    | inr no2 ↦ elim (Bool-cases (3 == i)) [
      | inl e ↦
          subst (λ x. P x p) ((==_iff 3 i).0 e)
            (subst (P 3) (some_inj (rw (no1, no2, e, lookup) at at)) h3)
      | inr no3 ↦ cc (rw (no1, no2, no3, lookup) at at)
    ]
  ]
]

tree-own_ids : (i : ℕ) (n : AstNode) → lookup i tree.nodes ≡ some n → node_id n ≡ some i
unfolding node_id
tree-own_ids = by_nodes (λ i n. node_id n ≡ some i) refl refl refl

tree-child_links :
    (i : ℕ) (p : AstNode)
    → lookup i tree.nodes ≡ some p
    → All (λ c. lookup c tree.parent_link ≡ some i) (extracted p).immediate_children
tree-child_links =
    by_nodes (λ i p. All (λ c. lookup c tree.parent_link ≡ some i) (extracted p).immediate_children)
      (unfold lookup in (refl, (refl, tt))) tt tt

tree-once :
    (i : ℕ) (p : AstNode)
    → lookup i tree.nodes ≡ some p
    → (j : ℕ) → occurrences j (extracted p).immediate_children ≤ 1
tree-once =
    by_nodes (λ i p. (j : ℕ) → occurrences j (extracted p).immediate_children ≤ 1)
      (λ j. ground arith) (λ j. omega arith) (λ j. omega arith)

tree-IsTree : IsTree tree
unfolding get_source_unit_from_child_node
tree-IsTree = record {
  own_ids = tree-own_ids;
  child_links = tree-child_links;
  once = tree-once;
  one_file = λ c i n p n_at link p_at. refl;
}

node2-Placed : Placed tree (codes "A.sol") node2
unfolding node_id lookup get_node_sort_key_pure split_once
node2-Placed = record {
  id = 2;
  line = 2;
  location = codes "3:2";
  offset = codes "3";
  length = codes "2";
  own_id = refl;
  kept = refl;
  key = refl;
  colon = refl;
}

node3-Placed : Placed tree (codes "A.sol") node3
unfolding node_id lookup get_node_sort_key_pure split_once
node3-Placed = record {
  id = 3;
  line = 3;
  location = codes "11:2";
  offset = codes "11";
  length = codes "2";
  own_id = refl;
  kept = refl;
  key = refl;
  colon = refl;
}

peek_over-next_sibling_example :
    (previous_sibling tree node3 ≡ some (some node2))
    × (peek_over tree node3 ≡ peek_under tree node2)
peek_over-next_sibling_example =
    peek_over-next_sibling tree tree-IsTree 2 node2 node3 (unfold lookup in refl) next_sample

sort_by_src_position-IsSorted_example :
    (zs : List AstNode) × (sort_by_src_position tree (node3 ∷ node2 ∷ []) ≡ some (some zs))
    × Perm zs (node3 ∷ node2 ∷ [])
    × ByPosition tree (codes "A.sol") zs
sort_by_src_position-IsSorted_example =
    sort_by_src_position-IsSorted tree (codes "A.sol") node3 (node2 ∷ [])
      (node3-Placed, (node2-Placed, tt))
