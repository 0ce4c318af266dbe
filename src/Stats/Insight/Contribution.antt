-- ===== src/Stats/Insight/Contribution.antt =====
-- No subtraction of the contribution goes below 0.
use aderyn.Prelude.{
  ◌-◌, inl, inr, Bool-cases, ℕ, ◌+◌, ◌≤◌, List, [], ◌∷◌, ◌≡◌, false, some, Option, arith, All, refl,
  Bool-cases,
}
use aderyn.Prelude.Int.{◌==ℤ◌, negsuc}
use aderyn.Stats.Token.{
  TokenType, code_single_quotes, code_double_quotes, code_outside_quotes, TokenDescriptor,
}
use aderyn.Stats.Insight.{
  TokenInsight, CodeLines, see_line, see_lines, number_of_lines, insight, contribution_from,
  counted, code_lines_of, insight_with, lines_of_code, shares_line,
}
use aderyn.Stats.Text.{Text, split_lines}

-- Where a first line of code is known, a line of code is counted.
pub record IsCounted (c : CodeLines) : Type 0 where
  pub some_line : (c.actual_first_line ==ℤ negsuc 0) ≡ false → 1 ≤ c.info_lines

see_lines-IsCounted :
    (ls : List Text) (count : ℕ) (c : CodeLines) → IsCounted c → IsCounted (see_lines count c ls)
unfolding see_lines
see_lines-IsCounted [] count c h = h
see_lines-IsCounted (l ∷ ls) count c h =
    see_lines-IsCounted ls (count + 1) (see_line count c l) (ground arith)

number_of_lines-IsCounted :
    (ty : TokenType) (content : Text) → IsCounted (number_of_lines ty content)
unfolding number_of_lines
number_of_lines-IsCounted code_outside_quotes content =
    see_lines-IsCounted (split_lines content) 0 _ (ground arith)
number_of_lines-IsCounted _ content = ground arith

abbrev pub IsSound : TokenInsight → Type 0
IsSound i = IsCounted i.code_lines

code_lines_of-returns :
    (ty : TokenType) (t : TokenDescriptor)
    → t.start_line ≤ t.end_line
    → (c : CodeLines) × (code_lines_of ty t ≡ some c) × IsCounted c
unfolding code_lines_of
code_lines_of-returns code_double_quotes t h =
    (lines_of_code (t.end_line - t.start_line + 1), ground arith, ground arith)
code_lines_of-returns code_single_quotes t h =
    (lines_of_code (t.end_line - t.start_line + 1), ground arith, ground arith)
code_lines_of-returns code_outside_quotes t h = (
  number_of_lines code_outside_quotes t.content,
  refl,
  number_of_lines-IsCounted code_outside_quotes t.content,
)
code_lines_of-returns ty t h =
    (number_of_lines ty t.content, refl, number_of_lines-IsCounted ty t.content)

-- A token that does not end before it starts has an insight.
pub insight-returns :
    (t : TokenDescriptor)
    → t.start_line ≤ t.end_line
    → (i : TokenInsight) × (insight t ≡ some i) × IsSound i
unfolding insight
insight-returns t h =
    let (c, e, s) = code_lines_of-returns t.token_type t h in (insight_with t c, rw e, s)

abbrev pub info_sum : List TokenInsight → ℕ
info_sum [] = 0
info_sum (i ∷ is) = i.code_lines.info_lines + info_sum is

counted-returns :
    (prev : Option TokenInsight) (total : ℕ) (i : TokenInsight)
    → IsSound i
    → (k : ℕ) × (counted prev total i ≡ some k)
      × (total ≤ k)
      × (k ≤ total + i.code_lines.info_lines)
counted-returns prev total i h = elim (Bool-cases (i.code_lines.actual_first_line ==ℤ negsuc 0)) [
  | inl blank ↦ (total, rw blank, omega arith, omega arith)
  | inr code ↦ rw code (elim (Bool-cases (shares_line prev i)) [
    | inl shared ↦
        let one = h.some_line code in
        (total + i.code_lines.info_lines - 1, rw shared (ground arith), omega arith, omega arith)
    | inr apart ↦ (total + i.code_lines.info_lines, rw apart, omega arith, omega arith)
  ])
]

pub contribution_from-returns :
    (prev : Option TokenInsight) (total : ℕ) (is : List TokenInsight)
    → All IsSound is
    → (n : ℕ) × (contribution_from prev total is ≡ some n) × (total ≤ n) × (n ≤ total + info_sum is)
unfolding contribution_from
contribution_from-returns prev total [] h = (total, refl, omega arith, omega arith)
contribution_from-returns prev total (i ∷ is) h =
    let (k, e, lo, hi) = counted-returns prev total i h.0 in
    let (n, e', lo', hi') = contribution_from-returns (some i) k is h.1 in
    (n, rw e e', omega arith, omega arith)
