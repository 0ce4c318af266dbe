-- ===== src/Stats/Insight.antt =====
-- aderyn_core/src/stats/token.rs, the insights: what the line count needs of a token.
pub mod Contribution
use aderyn.Prelude.{
  ℕ, ◌+◌, ◌-◌, Bool, true, false, ◌&&◌, not, Option, none, some, List, [], ◌∷◌, ◌==◌, ltb,
  if◌then◌else◌, ◌>>=◌, is_char, head?, last?,
}
use aderyn.Prelude.Int.{ℤ, pos, negsuc, ◌==ℤ◌}
use aderyn.Stats.Text.{Text, has_code, split_lines}
use aderyn.Stats.Token.{
  TokenType, code_single_quotes, code_double_quotes, code_outside_quotes, multiline_comment,
  singleline_comment, TokenDescriptor,
}

pub record CodeLines : Type 0 where
  pub info_lines : ℕ
  pub actual_first_line : ℤ
  pub last_line_has_code : Bool

pub record TokenInsight : Type 0 where
  pub token_type : TokenType
  pub start_line : ℕ
  pub end_line : ℕ
  pub code_lines : CodeLines
  pub starts_with_newline : Bool
  pub ends_with_newline : Bool

pub data HighLevelType : Type 0 where
  code not_code : HighLevelType

-- `From<TokenType> for HighLevelType`
abbrev pub high_level : TokenType → HighLevelType
high_level code_double_quotes = code
high_level code_outside_quotes = code
high_level code_single_quotes = code
high_level multiline_comment = not_code
high_level singleline_comment = not_code

abbrev pub same_type : HighLevelType → HighLevelType → Bool
same_type code code = true
same_type not_code not_code = true
same_type _ _ = false

-- the body of the loop over `content.split('\n')`, at line `count`
abbrev pub see_line : ℕ → CodeLines → Text → CodeLines
see_line count c line =
    if has_code line
    then record {
      info_lines = c.info_lines + 1;
      actual_first_line =
          if c.actual_first_line ==ℤ negsuc 0 then pos count else c.actual_first_line;
      last_line_has_code = true;
    }
    else record c { last_line_has_code = false }

unfoldable pub see_lines : ℕ → CodeLines → List Text → CodeLines
see_lines count c [] = c
see_lines count c (l ∷ ls) = see_lines (count + 1) (see_line count c l) ls

unfoldable pub number_of_lines : TokenType → Text → CodeLines
unfolding see_lines
number_of_lines code_outside_quotes content =
    see_lines 0
      (record { info_lines = 0; actual_first_line = negsuc 0; last_line_has_code = false })
      (split_lines content)
number_of_lines _ content = record {
  info_lines = 0;
  actual_first_line = negsuc 0;
  last_line_has_code = true;
}

-- a subtraction of `usize` that may not go below 0
abbrev pub checked_sub : ℕ → ℕ → Option ℕ
checked_sub a b = if ltb a b then none else some (a - b)

abbrev pub lines_of_code : ℕ → CodeLines
lines_of_code n = record { info_lines = n; actual_first_line = pos 0; last_line_has_code = true }

-- a quoted text counts each of its lines
quoted_lines : TokenDescriptor → Option CodeLines
quoted_lines t = do lines ← checked_sub t.end_line t.start_line; some (lines_of_code (lines + 1))

code_lines_of : TokenType → TokenDescriptor → Option CodeLines
unfolding quoted_lines
code_lines_of code_double_quotes t = quoted_lines t
code_lines_of code_single_quotes t = quoted_lines t
code_lines_of ty t = some (number_of_lines ty t.content)

abbrev pub insight_with : TokenDescriptor → CodeLines → TokenInsight
insight_with t lines = record {
  token_type = t.token_type;
  start_line = t.start_line;
  end_line = t.end_line;
  code_lines = lines;
  starts_with_newline = is_char (head? t.content) b'\n';
  ends_with_newline = is_char (last? t.content) b'\n';
}

-- `From<&TokenDescriptor> for TokenInsight`
unfoldable pub insight : TokenDescriptor → Option TokenInsight
unfolding code_lines_of
insight t = do lines ← code_lines_of t.token_type t; some (insight_with t lines)

pub record TokenInsightGroup : Type 0 where
  pub token_insights : List TokenInsight
  pub start_line : ℕ
  pub end_line : ℕ
  pub token_type : HighLevelType

-- the insight starts on the last line of the one before it, which has been counted
abbrev pub shares_line : Option TokenInsight → TokenInsight → Bool
shares_line none curr = false
shares_line (some prev) curr =
    curr.code_lines.actual_first_line ==ℤ pos 0
    && (curr.start_line == prev.end_line && not (prev.code_lines.actual_first_line ==ℤ negsuc 0))

abbrev pub counted : Option TokenInsight → ℕ → TokenInsight → Option ℕ
counted prev total curr =
    if curr.code_lines.actual_first_line ==ℤ negsuc 0
    then some total
    else if shares_line prev curr
    then checked_sub (total + curr.code_lines.info_lines) 1
    else some (total + curr.code_lines.info_lines)

-- the loop of `total_contribution`; `prev` is `token_insights[i - 1]`
unfoldable pub contribution_from : Option TokenInsight → ℕ → List TokenInsight → Option ℕ
contribution_from prev total [] = some total
contribution_from prev total (curr ∷ rest) = do
  total' ← counted prev total curr
  contribution_from (some curr) total' rest

unfoldable pub total_contribution : TokenInsightGroup → Option ℕ
unfolding contribution_from
total_contribution g = contribution_from none 0 g.token_insights

abbrev pub ends_in_code : Option TokenInsight → Bool
ends_in_code none = false
ends_in_code (some i) = i.code_lines.last_line_has_code

unfoldable pub last_token_insight_has_code_in_its_last_line : TokenInsightGroup → Bool
last_token_insight_has_code_in_its_last_line g = ends_in_code (last? g.token_insights)
