-- ===== src/Workspace/Siblings.antt =====
-- The neighbours of a node: context/browser/immediate_children.rs, sort_nodes.rs and siblings.rs below
-- aderyn_core/src. The outer `none` is a panic.
pub mod Sorted
pub mod Kept
pub mod Back
pub mod Tree
use Prim.Native.Nat.{Ordering}
use mathlib.Core.List.{reverse}
use aderyn.Prelude.{
  ℕ, Bool, true, false, ◌&&◌, ◌||◌, Option, none, some, ◌>>=◌, List, [], ◌∷◌, if◌then◌else◌, ◌==◌,
}
use aderyn.Prelude.Assoc.{lookup}
use aderyn.Stats.Text.{Text}
use aderyn.Workspace.TextMap.{text_eq}
use aderyn.Workspace.Ast.{AstNode, node_id, extracted}
use aderyn.Workspace.Context.{WorkspaceContext}
use aderyn.Workspace.Ancestors.{get_parent}
use aderyn.Workspace.Location.{get_node_sort_key_pure, get_relative_location_of_nodes}

unfoldable pub nodes_at : WorkspaceContext → List ℕ → List AstNode
nodes_at ctx [] = []
nodes_at ctx (i ∷ is) = elim (lookup i ctx.nodes) [
  | some n ↦ n ∷ nodes_at ctx is
  | none ↦ nodes_at ctx is
]

-- `GetImmediateChildren::children`
unfoldable pub children : WorkspaceContext → AstNode → Option (List AstNode)
children ctx n = node_id n >>= λ i.
    lookup i ctx.nodes >>= λ kept. some (nodes_at ctx (extracted kept).immediate_children)

unfoldable pub have_ids : List AstNode → Bool
have_ids [] = true
have_ids (n ∷ ns) = elim (node_id n) [ some i ↦ have_ids ns | none ↦ false ]

-- the first components of the sort keys
unfoldable pub paths_of : WorkspaceContext → List AstNode → Option (List Text)
paths_of ctx [] = some []
paths_of ctx (n ∷ ns) =
    get_node_sort_key_pure ctx n >>= λ key. paths_of ctx ns >>= λ paths. some (key.0 ∷ paths)

unfoldable pub all_equal : Text → List Text → Bool
unfolding text_eq
all_equal p [] = true
all_equal p (q ∷ qs) = text_eq p q && all_equal p qs

has_empty : List Text → Bool
has_empty [] = false
has_empty ([] ∷ ps) = true
has_empty ((c ∷ p) ∷ ps) = has_empty ps

-- the set of the paths has one element, or its least element is the empty text
unfoldable pub same_file : List Text → Bool
unfolding all_equal has_empty
same_file [] = false
same_file (p ∷ ps) = all_equal p ps || has_empty (p ∷ ps)

-- the comparison that `sort_by` is given
unfoldable pub compare_nodes : WorkspaceContext → AstNode → AstNode → Option Ordering
compare_nodes ctx a b =
    node_id a >>= λ i. node_id b >>= λ j. get_relative_location_of_nodes ctx i j >>= λ o. o

-- `slice::sort_by` as an insertion sort, which is stable as well
unfoldable pub insert_sorted : WorkspaceContext → AstNode → List AstNode → Option (List AstNode)
insert_sorted ctx x [] = some (x ∷ [])
insert_sorted ctx x (y ∷ ys) =
    let rest = insert_sorted ctx x ys in
    elim (compare_nodes ctx x y) [
      | none ↦ none
      | some Ordering.gt ↦ rest >>= λ r. some (y ∷ r)
      | some _ ↦ some (x ∷ y ∷ ys)
    ]

unfoldable pub sort_by : WorkspaceContext → List AstNode → Option (List AstNode)
unfolding insert_sorted
sort_by ctx [] = some []
sort_by ctx (n ∷ ns) = sort_by ctx ns >>= insert_sorted ctx n

unfoldable pub sort_by_src_position :
    WorkspaceContext → List AstNode → Option (Option (List AstNode))
unfolding have_ids paths_of same_file sort_by
sort_by_src_position ctx ns =
    if have_ids ns
    then (paths_of ctx ns >>= λ paths.
        if same_file paths then (sort_by ctx ns >>= λ sorted. some (some sorted)) else some none)
    else some none

-- the loop of `next_sibling`; a sorted list has an element, so `len() - 1` does not go below 0
unfoldable pub next_to : ℕ → List AstNode → Option AstNode
next_to i [] = none
next_to i (n ∷ []) = none
next_to i (n ∷ m ∷ ns) =
    let rest = next_to i (m ∷ ns) in
    elim (node_id n) [ none ↦ none | some j ↦ if j == i then some m else rest ]

-- the loop of `previous_sibling`, which goes backwards
unfoldable pub previous_to : ℕ → List AstNode → Option AstNode
unfolding next_to
previous_to i ns = next_to i (reverse ns)

-- the sorted children of a parent
unfoldable pub sorted_children : WorkspaceContext → Option AstNode → Option (Option (List AstNode))
unfolding children sort_by_src_position
sorted_children ctx none = some none
sorted_children ctx (some parent) = elim (children ctx parent) [
  | none ↦ some none
  | some ns ↦ sort_by_src_position ctx ns
]

search_in : (List AstNode → Option AstNode) → Option (List AstNode) → Option AstNode
search_in search none = none
search_in search (some sorted) = search sorted

sibling :
    WorkspaceContext → (ℕ → List AstNode → Option AstNode) → Option ℕ → Option (Option AstNode)
unfolding sorted_children search_in
sibling ctx search none = some none
sibling ctx search (some i) =
    sorted_children ctx (get_parent ctx i) >>= λ found. some (search_in (search i) found)

-- `GetNextSibling::next_sibling`
unfoldable pub next_sibling : WorkspaceContext → AstNode → Option (Option AstNode)
unfolding sibling next_to
next_sibling ctx n = sibling ctx next_to (node_id n)

-- `GetPreviousSibling::previous_sibling`
unfoldable pub previous_sibling : WorkspaceContext → AstNode → Option (Option AstNode)
unfolding sibling previous_to
previous_sibling ctx n = sibling ctx previous_to (node_id n)
