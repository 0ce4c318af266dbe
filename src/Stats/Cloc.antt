-- ===== src/Stats/Cloc.antt =====
-- aderyn_core/src/stats/cloc.rs: the lines of code of a list of tokens.
pub mod Count
use aderyn.Prelude.{
  ℕ, ◌+◌, Bool, true, false, ◌&&◌, Option, none, some, List, [], ◌∷◌, ◌++◌, ◌==◌, leb,
  if◌then◌else◌, ◌>>=◌,
}
use aderyn.Prelude.Int.{pos, ◌==ℤ◌}
use aderyn.Stats.Token.{TokenDescriptor}
use aderyn.Stats.Insight.{
  TokenInsight, TokenInsightGroup, high_level, same_type, code, insight, checked_sub,
  total_contribution, last_token_insight_has_code_in_its_last_line,
}

-- `token_descriptors.iter().map(|t| t.into()).collect()`
unfoldable pub insights : List TokenDescriptor → Option (List TokenInsight)
insights [] = some []
insights (t ∷ ts) = do i ← insight t; is ← insights ts; some (i ∷ is)

abbrev pub new_group : TokenInsight → TokenInsightGroup
new_group i = record {
  token_insights = i ∷ [];
  start_line = i.start_line;
  end_line = i.end_line;
  token_type = high_level i.token_type;
}

abbrev pub extended : TokenInsightGroup → TokenInsight → TokenInsightGroup
extended g i = record g { token_insights = g.token_insights ++ i ∷ []; end_line = i.end_line }

abbrev pub joins : TokenInsightGroup → TokenInsight → Bool
joins g i =
    i.start_line == g.end_line
    && (i.code_lines.actual_first_line ==ℤ pos 0
        && (last_token_insight_has_code_in_its_last_line g
            && same_type g.token_type (high_level i.token_type)))

-- the rounds of the grouping loop; `g` is the last group of the vector so far
unfoldable pub group_from : TokenInsightGroup → List TokenInsight → List TokenInsightGroup
group_from g [] = g ∷ []
group_from g (i ∷ is) = elim (joins g i) [
  | true ↦ group_from (extended g i) is
  | false ↦ g ∷ group_from (new_group i) is
]

unfoldable pub token_insight_groups : List TokenInsight → List TokenInsightGroup
unfolding group_from
token_insight_groups [] = []
token_insight_groups (i ∷ is) = group_from (new_group i) is

-- `filter(|g| g.token_type == HighLevelType::Code)`
unfoldable pub code_groups : List TokenInsightGroup → List TokenInsightGroup
code_groups [] = []
code_groups (g ∷ gs) = if same_type g.token_type code then g ∷ code_groups gs else code_groups gs

-- the first insight of the group has code on its first line; an empty group is a panic
abbrev pub first_has_code : List TokenInsight → Option Bool
first_has_code [] = none
first_has_code (i ∷ is) = some (i.code_lines.actual_first_line ==ℤ pos 0)

-- the rest of the test, which takes one line off
shared_line : TokenInsightGroup → ℕ → ℕ → Bool → Option ℕ
shared_line prev code_lines contrib first =
    if first && (leb 1 contrib && last_token_insight_has_code_in_its_last_line prev)
    then checked_sub (code_lines + contrib) 1
    else some (code_lines + contrib)

-- `code_lines` after the group `curr`; the index is read only where the first test holds
group_lines : TokenInsightGroup → TokenInsightGroup → ℕ → ℕ → Option ℕ
unfolding shared_line
group_lines prev curr code_lines contrib =
    if curr.start_line == prev.end_line
    then first_has_code curr.token_insights >>= shared_line prev code_lines contrib
    else some (code_lines + contrib)

unfoldable pub add_groups : TokenInsightGroup → ℕ → List TokenInsightGroup → Option ℕ
unfolding group_lines
add_groups prev code_lines [] = some code_lines
add_groups prev code_lines (curr ∷ rest) = do
  contrib ← total_contribution curr
  total ← group_lines prev curr code_lines contrib
  add_groups curr total rest

unfoldable pub count_groups : List TokenInsightGroup → Option ℕ
unfolding add_groups
count_groups [] = some 0
count_groups (g ∷ gs) = do contrib ← total_contribution g; add_groups g contrib gs

-- `none` is a subtraction below 0 or an index out of range
unfoldable pub count_code_lines : List TokenDescriptor → Option ℕ
unfolding count_groups insights code_groups token_insight_groups
count_code_lines ts = do is ← insights ts; count_groups (code_groups (token_insight_groups is))
