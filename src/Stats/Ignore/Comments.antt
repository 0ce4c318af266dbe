-- ===== src/Stats/Ignore/Comments.antt =====
-- Ignored lines come from comments alone, and stand at the end of the comment or right below.
use aderyn.Prelude.{◌+◌, List, [], ◌∷◌, ◌++◌, map, ◌≡◌, refl, ap, ◌⊎◌, arith, All, All-append}
use aderyn.Stats.Text.{Text}
use aderyn.Stats.Token.{
  TokenType, code_single_quotes, code_double_quotes, code_outside_quotes, TokenDescriptor,
}
use aderyn.Stats.Insight.{high_level, not_code}
use aderyn.Stats.Ignore.{
  IgnoreLine, Capture, capture_line, marker_lines, comment_lines, token_lines, get_lines_to_ignore,
}

-- A line at which this token may place an entry.
abbrev pub IsNear : TokenDescriptor → IgnoreLine → Type 0
IsNear t l = (l.which ≡ t.end_line) ⊎ (l.which ≡ t.end_line + 1)

-- The comment among `ts` that placed the entry.
pub record PlacedBy (ts : List TokenDescriptor) (l : IgnoreLine) : Type 0 where
  pub before : List TokenDescriptor
  pub comment : TokenDescriptor
  pub behind : List TokenDescriptor
  pub splits : ts ≡ before ++ comment ∷ behind
  pub is_comment : high_level comment.token_type ≡ not_code
  pub is_near : IsNear comment l

capture_lines-IsNear :
    (t : TokenDescriptor) (cs : List Capture) → All (IsNear t) (map (capture_line t.end_line) cs)
capture_lines-IsNear t [] = tt
capture_lines-IsNear t (c ∷ cs) = (ground arith, capture_lines-IsNear t cs)

comment_lines-IsNear :
    (t : TokenDescriptor) (cs : List Capture) → All (IsNear t) (comment_lines t cs)
unfolding comment_lines marker_lines
comment_lines-IsNear t [] = ground arith
comment_lines-IsNear t (c ∷ cs) = capture_lines-IsNear t (c ∷ cs)

PlacedBy-here :
    (t : TokenDescriptor) (ts : List TokenDescriptor) (ls : List IgnoreLine)
    → high_level t.token_type ≡ not_code
    → All (IsNear t) ls
    → All (PlacedBy (t ∷ ts)) ls
PlacedBy-here t ts [] c h = tt
PlacedBy-here t ts (l ∷ ls) c h = (
  record { before = []; comment = t; behind = ts; splits = refl; is_comment = c; is_near = h.0 },
  PlacedBy-here t ts ls c h.1,
)

PlacedBy-there :
    (t : TokenDescriptor) (ts : List TokenDescriptor) (ls : List IgnoreLine)
    → All (PlacedBy ts) ls
    → All (PlacedBy (t ∷ ts)) ls
PlacedBy-there t ts [] h = tt
PlacedBy-there t ts (l ∷ ls) h = (
  record {
    before = t ∷ h.0.before;
    comment = h.0.comment;
    behind = h.0.behind;
    splits = ap (◌∷◌ t) h.0.splits;
    is_comment = h.0.is_comment;
    is_near = h.0.is_near;
  },
  PlacedBy-there t ts ls h.1,
)

module _ (captures_iter : Text → List Capture) where
  token_lines-PlacedBy :
      (ty : TokenType) (t : TokenDescriptor) (ts : List TokenDescriptor)
      → t.token_type ≡ ty
      → All (PlacedBy (t ∷ ts)) (token_lines captures_iter ty t)
  unfolding token_lines
  token_lines-PlacedBy code_single_quotes t ts e = tt
  token_lines-PlacedBy code_double_quotes t ts e = tt
  token_lines-PlacedBy code_outside_quotes t ts e = tt
  token_lines-PlacedBy ty t ts e =
      PlacedBy-here t ts _ (ap high_level e) (comment_lines-IsNear t (captures_iter t.content))

  -- Whatever the regular expression captures, each ignored line was placed by a comment among the
  -- tokens, never by code, and is the line on which that comment ends or the next one.
  pub get_lines_to_ignore-PlacedBy :
      (ts : List TokenDescriptor) → All (PlacedBy ts) (get_lines_to_ignore captures_iter ts)
  unfolding get_lines_to_ignore
  get_lines_to_ignore-PlacedBy [] = tt
  get_lines_to_ignore-PlacedBy (t ∷ ts) =
      All-append (PlacedBy (t ∷ ts)) (token_lines captures_iter t.token_type t)
        (get_lines_to_ignore captures_iter ts) (token_lines-PlacedBy t.token_type t ts refl)
        (PlacedBy-there t ts _ (get_lines_to_ignore-PlacedBy ts))
