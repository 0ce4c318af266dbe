-- ===== src/Workspace/Peek.antt =====
-- The source text of a node and around it: `get_source_code_of_node`, `get_offset_and_length_of_node` of
-- ast/impls/ctx/getters.rs, and context/browser/peek.rs, peek_over.rs and peek_under.rs below
-- aderyn_core/src. The outer `none` is a panic; a sum of two offsets panics when it does not fit.
pub mod Adjacent
use aderyn.Prelude.{
  ℕ, ◌+◌, Bool, true, false, ◌&&◌, Option, none, some, ◌>>=◌, List, [], ◌∷◌, if◌then◌else◌, ltb,
}
use aderyn.Prelude.Assoc.{lookup}
use aderyn.Stats.Text.{Text}
use aderyn.Workspace.Ast.{AstNode, node_id}
use aderyn.Workspace.Context.{WorkspaceContext, SourceUnit}
use aderyn.Workspace.Location.{
  byte_length, slice_to, slice_from, parse_usize, split_once, chopped_location, src_location,
  get_source_unit_from_child_node,
}
use aderyn.Workspace.Siblings.{next_sibling, previous_sibling}

parse_pair : Text × Text → Option (ℕ × ℕ)
unfolding parse_usize
parse_pair (offset, len) = parse_usize offset >>= λ o. parse_usize len >>= λ l. some (o, l)

-- `&content[from..to]`
unfoldable pub slice : Text → ℕ → ℕ → Option Text
slice content from to = slice_to to content >>= slice_from from

-- the sum of two `usize`
unfoldable pub add_usize : ℕ → ℕ → Option ℕ
add_usize a b = if ltb (a + b) 0x10000000000000000 then some (a + b) else none

offset_and_length : AstNode → Option (ℕ × ℕ)
unfolding split_once chopped_location src_location parse_pair
offset_and_length n = split_once (chopped_location (src_location n)) >>= parse_pair

unfoldable pub get_offset_and_length_of_node : WorkspaceContext → ℕ → Option (ℕ × ℕ)
unfolding offset_and_length
get_offset_and_length_of_node ctx i = lookup i ctx.nodes >>= offset_and_length

code_at : Option Text → ℕ × ℕ → Option (Option Text)
unfolding slice add_usize
code_at none (offset, len) = some none
code_at (some content) (offset, len) = add_usize offset len >>= λ end.
    if ltb end (byte_length content)
    then (slice content offset end >>= λ t. some (some t))
    else some none

source_code : WorkspaceContext → Option AstNode → Option (Option Text)
unfolding get_source_unit_from_child_node offset_and_length code_at
source_code ctx none = some none
source_code ctx (some n) = get_source_unit_from_child_node ctx n >>= λ u.
    elim (offset_and_length n) [ none ↦ some none | some at ↦ code_at u.source at ]

unfoldable pub get_source_code_of_node : WorkspaceContext → ℕ → Option (Option Text)
unfolding source_code
get_source_code_of_node ctx i = source_code ctx (lookup i ctx.nodes)

-- `Peek::peek`
unfoldable pub peek : WorkspaceContext → AstNode → Option (Option Text)
unfolding get_source_code_of_node
peek ctx n = elim (node_id n) [ none ↦ some none | some i ↦ get_source_code_of_node ctx i ]

-- The content of the file and the place of the node in it.
unfoldable pub content_and_place : WorkspaceContext → ℕ → Option (Text × (ℕ × ℕ))
content_and_place ctx i = lookup i ctx.nodes >>= λ n. get_source_unit_from_child_node ctx n >>= λ u.
    u.source >>= λ content. get_offset_and_length_of_node ctx i >>= λ at. some (content, at)

place_of : WorkspaceContext → AstNode → Option (ℕ × ℕ)
unfolding get_offset_and_length_of_node
place_of ctx n = node_id n >>= get_offset_and_length_of_node ctx

-- what stands between the end of one place and the beginning of another
unfoldable pub between : Text → ℕ × ℕ → ℕ → Option (Option Text)
unfolding slice add_usize
between content (offset, len) to = add_usize offset len >>= λ end.
    if ltb end to && ltb to (byte_length content)
    then (slice content end to >>= λ t. some (some t))
    else some none

until : Text → ℕ → Option (Option Text)
until content to =
    if ltb to (byte_length content) then (slice_to to content >>= λ t. some (some t)) else some none

over : WorkspaceContext → Text × (ℕ × ℕ) → Option AstNode → Option (Option Text)
unfolding place_of between until
over ctx (content, (curr_offset, curr_len)) (some previous) = elim (place_of ctx previous) [
  | none ↦ some none
  | some prev ↦ between content prev curr_offset
]
over ctx (content, (curr_offset, curr_len)) none = until content curr_offset

over_at : WorkspaceContext → AstNode → Option (Text × (ℕ × ℕ)) → Option (Option Text)
unfolding over
over_at ctx n none = some none
over_at ctx n (some at) = previous_sibling ctx n >>= over ctx at

-- `PeekOver::peek_over`
unfoldable pub peek_over : WorkspaceContext → AstNode → Option (Option Text)
unfolding over_at
peek_over ctx n = elim (node_id n) [
  | none ↦ some none
  | some i ↦ over_at ctx n (content_and_place ctx i)
]

after : Text → ℕ × ℕ → Option (Option Text)
unfolding slice_from add_usize
after content (offset, len) =
    add_usize offset len >>= λ end. slice_from end content >>= λ t. some (some t)

under : WorkspaceContext → Text × (ℕ × ℕ) → Option AstNode → Option (Option Text)
unfolding place_of between after
under ctx (content, curr) (some next) = elim (place_of ctx next) [
  | none ↦ some none
  | some (next_offset, next_len) ↦ between content curr next_offset
]
under ctx (content, curr) none = after content curr

under_at : WorkspaceContext → AstNode → Option (Text × (ℕ × ℕ)) → Option (Option Text)
unfolding under
under_at ctx n none = some none
under_at ctx n (some at) = next_sibling ctx n >>= under ctx at

-- `PeekUnder::peek_under`
unfoldable pub peek_under : WorkspaceContext → AstNode → Option (Option Text)
unfolding under_at
peek_under ctx n = elim (node_id n) [
  | none ↦ some none
  | some i ↦ under_at ctx n (content_and_place ctx i)
]
