-- ===== src/Workspace/Location.antt =====
-- Where a node stands in its file: the getters of aderyn_core/src/ast/impls/ctx/getters.rs,
-- `source_line` of ast/impls/own/source_units.rs and context/browser/location.rs. The `src` of a node is
-- `offset:length:file`. The outer `none` is a panic. A text is a list of code points; the code counts
-- bytes, so each code point has its width, and a slice that cuts one panics.
pub mod Flip
use Prim.Native.Nat.{Ordering, compare}
use aderyn.Prelude.{
  ℕ, zero, suc, ◌+◌, ◌-◌, ◌*◌, Bool, true, false, ◌&&◌, Option, none, some, ◌>>=◌, List, [], ◌∷◌,
  if◌then◌else◌, ltb, leb, ◌==◌,
}
use aderyn.Prelude.Assoc.{lookup}
use aderyn.Stats.Text.{Text, newlines}
use aderyn.Workspace.TextMap.{text_eq}
use aderyn.Workspace.Ast.{AstNode, node_id, extracted}
use aderyn.Workspace.Context.{SourceUnit, WorkspaceContext}

-- `char::len_utf8`
abbrev pub width : ℕ → ℕ
width c = if ltb c 0x80 then 1 else if ltb c 0x800 then 2 else if ltb c 0x10000 then 3 else 4

-- `str::len`
abbrev pub byte_length : Text → ℕ
byte_length [] = 0
byte_length (c ∷ cs) = width c + byte_length cs

-- `&text[..n]`
unfoldable pub slice_to : ℕ → Text → Option Text
slice_to zero t = some []
slice_to (suc n) [] = none
slice_to (suc n) (c ∷ cs) =
    let rest = slice_to (suc n - width c) cs in
    if leb (width c) (suc n) then (rest >>= λ t. some (c ∷ t)) else none

-- `&text[n..]`
unfoldable pub slice_from : ℕ → Text → Option Text
slice_from zero t = some t
slice_from (suc n) [] = none
slice_from (suc n) (c ∷ cs) =
    let rest = slice_from (suc n - width c) cs in if leb (width c) (suc n) then rest else none

-- the digits that `str::parse` reads into a `usize` of 64 bits
parse_digits : ℕ → Text → Option ℕ
parse_digits n [] = some n
parse_digits n (c ∷ cs) =
    let more = n * 10 + (c - b'0') in
    let rest = parse_digits more cs in
    if leb b'0' c && leb c b'9' && ltb more 0x10000000000000000 then rest else none

-- `str::parse::<usize>`, which takes one plus sign
unfoldable pub parse_usize : Text → Option ℕ
unfolding parse_digits
parse_usize [] = none
parse_usize (c ∷ []) = parse_digits 0 (c ∷ [])
parse_usize (c ∷ d ∷ ds) =
    if c == b'+' then parse_digits 0 (d ∷ ds) else parse_digits 0 (c ∷ d ∷ ds)

-- the first piece of `str::split(':')`
unfoldable pub first_piece : Text → Text
first_piece [] = []
first_piece (c ∷ cs) = if c == b':' then [] else c ∷ first_piece cs

-- `str::split_once(':')`
unfoldable pub split_once : Text → Option (Text × Text)
split_once [] = none
split_once (c ∷ cs) =
    let rest = split_once cs in
    if c == b':' then some ([], cs) else (rest >>= λ r. some (c ∷ r.0, r.1))

-- what stands before `str::rfind(':')`
before_last : Text → Option Text
before_last [] = none
before_last (c ∷ cs) = elim (before_last cs) [
  | some t ↦ some (c ∷ t)
  | none ↦ if c == b':' then some [] else none
]

-- `chopped_location` in `get_node_sort_key_pure` and two other getters
unfoldable pub chopped_location : Text → Text
unfolding before_last
chopped_location src_location = elim (before_last src_location) [ some t ↦ t | none ↦ src_location ]

or_empty : Option Text → Text
or_empty none = []
or_empty (some t) = t

-- the `src` of the node, `""` where it has none
unfoldable pub src_location : AstNode → Text
unfolding or_empty
src_location n = or_empty (extracted n).src

find_unit : ℕ → List SourceUnit → Option SourceUnit
find_unit i [] = none
find_unit i (u ∷ us) = if u.id == i then some u else find_unit i us

unfoldable pub get_source_unit_from_child_node : WorkspaceContext → AstNode → Option SourceUnit
unfolding find_unit
get_source_unit_from_child_node ctx n =
    ctx.source_unit_ids n >>= λ i. find_unit i ctx.source_units_context

line_at : Text → ℕ → Option (Option ℕ)
unfolding slice_to
line_at source index =
    if ltb (byte_length source) index
    then some none
    else (slice_to index source >>= λ before. some (some (newlines before + 1)))

-- `SourceUnit::source_line`; the inner `none` is its error
unfoldable pub source_line : SourceUnit → Text → Option (Option ℕ)
unfolding parse_usize first_piece line_at
source_line u src = elim u.source [
  | none ↦ some none
  | some source ↦ elim (parse_usize (first_piece src)) [
    | none ↦ some none
    | some index ↦ line_at source index
  ]
]

or_zero : Option ℕ → ℕ
or_zero none = 0
or_zero (some n) = n

key_line : SourceUnit → Option Text → Option ℕ
unfolding source_line or_zero
key_line u none = some 0
key_line u (some src) = source_line u src >>= λ line. some (or_zero line)

abbrev pub SortKey : Type 0
SortKey = Text × ℕ × Text

unfoldable pub get_node_sort_key_pure : WorkspaceContext → AstNode → Option SortKey
unfolding get_source_unit_from_child_node key_line chopped_location src_location
get_node_sort_key_pure ctx n = get_source_unit_from_child_node ctx n >>= λ u.
    u.absolute_path >>= λ path.
    key_line u (extracted n).src >>= λ line. some (path, line, chopped_location (src_location n))

-- `str::cmp`: the order of the bytes is that of the code points
abbrev pub compare_text : Text → Text → Ordering
compare_text [] [] = Ordering.eq
compare_text [] (d ∷ ds) = Ordering.lt
compare_text (c ∷ cs) [] = Ordering.gt
compare_text (c ∷ cs) (d ∷ ds) =
    let rest = compare_text cs ds in
    elim (compare c d) [
      | Ordering.lt ↦ Ordering.lt
      | Ordering.eq ↦ rest
      | Ordering.gt ↦ Ordering.gt
    ]

-- the offsets in two locations, compared as the texts that they are
unfoldable pub compare_offsets : Text → Text → Option (Option Ordering)
unfolding split_once
compare_offsets f s = split_once f >>= λ first_offset.
    split_once s >>= λ second_offset. some (some (compare_text first_offset.0 second_offset.0))

unfoldable pub compare_keys : SortKey → SortKey → Option (Option Ordering)
unfolding text_eq compare_offsets
compare_keys (f_path, f_line, f_location) (s_path, s_line, s_location) =
    if text_eq f_path s_path
    then elim (compare f_line s_line) [
      | Ordering.lt ↦ some (some Ordering.lt)
      | Ordering.eq ↦ compare_offsets f_location s_location
      | Ordering.gt ↦ some (some Ordering.gt)
    ]
    else some none

relative_to : WorkspaceContext → SortKey → Option AstNode → Option (Option Ordering)
unfolding get_node_sort_key_pure compare_keys
relative_to ctx f none = some none
relative_to ctx f (some n) = get_node_sort_key_pure ctx n >>= compare_keys f

relative : WorkspaceContext → Option AstNode → Option AstNode → Option (Option Ordering)
unfolding get_node_sort_key_pure relative_to
relative ctx none second = some none
relative ctx (some n) second = get_node_sort_key_pure ctx n >>= λ f. relative_to ctx f second

unfoldable pub get_relative_location_of_nodes : WorkspaceContext → ℕ → ℕ → Option (Option Ordering)
unfolding relative
get_relative_location_of_nodes ctx first second =
    relative ctx (lookup first ctx.nodes) (lookup second ctx.nodes)

-- a question about two nodes that have ids
asked : WorkspaceContext → (Ordering → Bool) → Option ℕ → Option ℕ → Option (Option Bool)
unfolding get_relative_location_of_nodes
asked ctx answer (some i) (some j) = elim (get_relative_location_of_nodes ctx i j) [
  | none ↦ none
  | some none ↦ some none
  | some (some o) ↦ some (some (answer o))
]
asked ctx answer _ _ = some none

is_less : Ordering → Bool
is_less Ordering.lt = true
is_less _ = false

is_greater : Ordering → Bool
is_greater Ordering.gt = true
is_greater _ = false

-- `AppearsBeforeNodeLocation::appears_before`
unfoldable pub appears_before : WorkspaceContext → AstNode → AstNode → Option (Option Bool)
unfolding asked is_less
appears_before ctx self other = asked ctx is_less (node_id self) (node_id other)

-- `AppearsAfterNodeLocation::appears_after`
unfoldable pub appears_after : WorkspaceContext → AstNode → AstNode → Option (Option Bool)
unfolding asked is_greater
appears_after ctx self other = asked ctx is_greater (node_id self) (node_id other)
