-- ===== src/Stats/Cloc/Count.antt =====
-- The count is always made, and lies within the lines of code of the tokens.
use aderyn.Prelude.{
  List-cases, ◌&&◌, ℕ, ◌+◌, ◌-◌, ◌≤◌, Bool, true, false, none, some, List, [], ◌∷◌, ◌++◌, ◌≡◌, ◌≢◌,
  refl, inl, inr, arith, All, All-append, Bool-cases, ◌==◌, leb,
}
use aderyn.Prelude.Int.{◌==ℤ◌, pos}
use aderyn.Stats.Token.{TokenDescriptor}
use aderyn.Stats.Insight.{TokenInsight, TokenInsightGroup, total_contribution, same_type, code}
use aderyn.Stats.Insight.Contribution.{
  IsSound, insight-returns, info_sum, contribution_from-returns,
}
use aderyn.Stats.Cloc.{
  shared_line, insights, new_group, extended, joins, group_from, token_insight_groups, code_groups,
  group_lines, add_groups, count_groups, count_code_lines,
  last_token_insight_has_code_in_its_last_line,
}

-- A group of the vector: it has an insight, and each is sound.
record IsGroup (g : TokenInsightGroup) : Type 0 where
  filled : g.token_insights ≢ []
  sound : All IsSound g.token_insights

abbrev pub info_total : List TokenInsightGroup → ℕ
info_total [] = 0
info_total (g ∷ gs) = info_sum g.token_insights + info_total gs

info_sum-append : (is js : List TokenInsight) → info_sum (is ++ js) ≡ info_sum is + info_sum js
info_sum-append [] js = omega arith
info_sum-append (i ∷ is) js = omega (arith, info_sum-append is js)

concat-ne-nil : (is : List TokenInsight) (i : TokenInsight) → is ++ i ∷ [] ≢ []
concat-ne-nil [] i h = cc
concat-ne-nil (j ∷ is) i h = cc

extended-IsGroup :
    (g : TokenInsightGroup) (i : TokenInsight) → IsGroup g → IsSound i → IsGroup (extended g i)
extended-IsGroup g i h s = record {
  filled = concat-ne-nil g.token_insights i;
  sound = All-append IsSound g.token_insights (i ∷ []) h.sound (s, tt);
}

new_group-IsGroup : (i : TokenInsight) → IsSound i → IsGroup (new_group i)
new_group-IsGroup i s = record { filled = concat-ne-nil [] i; sound = (s, tt) }

group_from-joins :
    (g : TokenInsightGroup) (i : TokenInsight) (is : List TokenInsight)
    → joins g i ≡ true
    → group_from g (i ∷ is) ≡ group_from (extended g i) is
unfolding group_from
group_from-joins g i is h = rw (h, group_from)

group_from-apart :
    (g : TokenInsightGroup) (i : TokenInsight) (is : List TokenInsight)
    → joins g i ≡ false
    → group_from g (i ∷ is) ≡ g ∷ group_from (new_group i) is
unfolding group_from
group_from-apart g i is h = rw (h, group_from)

group_from-IsGroup :
    (g : TokenInsightGroup) (is : List TokenInsight)
    → IsGroup g
    → All IsSound is
    → All IsGroup (group_from g is)
      × (info_total (group_from g is) ≡ info_sum g.token_insights + info_sum is)
unfolding group_from
group_from-IsGroup g [] h s = ((h, tt), omega arith)
group_from-IsGroup g (i ∷ is) h s = elim (Bool-cases (joins g i)) [
  | inl joined ↦
      let (groups, total) = group_from-IsGroup (extended g i) is (extended-IsGroup g i h s.0) s.1 in
      rw (group_from-joins g i is joined)
        (groups, omega (arith, total, info_sum-append g.token_insights (i ∷ [])))
  | inr apart ↦
      let (groups, total) = group_from-IsGroup (new_group i) is (new_group-IsGroup i s.0) s.1 in
      rw (group_from-apart g i is apart) ((h, groups), omega arith)
]

token_insight_groups-IsGroup :
    (is : List TokenInsight)
    → All IsSound is
    → All IsGroup (token_insight_groups is) × (info_total (token_insight_groups is) ≡ info_sum is)
unfolding token_insight_groups
token_insight_groups-IsGroup [] s = (tt, refl)
token_insight_groups-IsGroup (i ∷ is) s =
    let (groups, total) = group_from-IsGroup (new_group i) is (new_group-IsGroup i s.0) s.1 in
    (groups, omega arith)

-- the lines of the tokens of code alone
abbrev pub code_info : List TokenInsightGroup → ℕ
code_info gs = info_total (code_groups gs)

code_groups-IsGroup :
    (gs : List TokenInsightGroup)
    → All IsGroup gs
    → All IsGroup (code_groups gs) × (info_total (code_groups gs) ≤ info_total gs)
unfolding code_groups
code_groups-IsGroup [] h = (tt, omega arith)
code_groups-IsGroup (g ∷ gs) h =
    let (groups, total) = code_groups-IsGroup gs h.1 in
    elim (Bool-cases (same_type g.token_type code)) [
      | inl kept ↦ rw kept ((h.0, groups), omega arith)
      | inr dropped ↦ rw dropped (groups, omega arith)
    ]

total_contribution-returns :
    (g : TokenInsightGroup)
    → IsGroup g
    → (n : ℕ) × (total_contribution g ≡ some n) × (n ≤ info_sum g.token_insights)
unfolding total_contribution
total_contribution-returns g h =
    let (n, e, lo, hi) = contribution_from-returns none 0 g.token_insights h.sound in
    (n, e, omega arith)

shared_line-returns :
    (prev : TokenInsightGroup) (code_lines contrib : ℕ) (first : Bool)
    → (n : ℕ) × (shared_line prev code_lines contrib first ≡ some n)
      × (code_lines ≤ n)
      × (n ≤ code_lines + contrib)
unfolding shared_line
shared_line-returns prev code_lines contrib first =
    elim (Bool-cases
      (first && (leb 1 contrib && last_token_insight_has_code_in_its_last_line prev))) [
        | inl less ↦
            let some_lines : 1 ≤ contrib = ground arith in
            (code_lines + contrib - 1, rw less (ground arith), omega arith, omega arith)
        | inr all ↦ (code_lines + contrib, rw all, omega arith, omega arith)
      ]

group_lines-returns :
    (prev curr : TokenInsightGroup) (code_lines contrib : ℕ)
    → IsGroup curr
    → (n : ℕ) × (group_lines prev curr code_lines contrib ≡ some n)
      × (code_lines ≤ n)
      × (n ≤ code_lines + contrib)
unfolding group_lines
group_lines-returns prev curr code_lines contrib h =
    elim (Bool-cases (curr.start_line == prev.end_line)) [
      | inl meets ↦ elim (List-cases curr.token_insights) [
        | inl e ↦ absurd (h.filled e)
        | inr (i, is, e) ↦
            let (n, returns, lo, hi) =
              shared_line-returns prev code_lines contrib
                (i.code_lines.actual_first_line ==ℤ pos 0) in
            (n, rw (meets, e) returns, lo, hi)
      ]
      | inr apart ↦ (code_lines + contrib, rw apart, omega arith, omega arith)
    ]

add_groups-returns :
    (prev : TokenInsightGroup) (code_lines : ℕ) (gs : List TokenInsightGroup)
    → All IsGroup gs
    → (n : ℕ) × (add_groups prev code_lines gs ≡ some n)
      × (code_lines ≤ n)
      × (n ≤ code_lines + info_total gs)
unfolding add_groups
add_groups-returns prev code_lines [] h = (code_lines, refl, omega arith, omega arith)
add_groups-returns prev code_lines (g ∷ gs) h =
    let (contrib, e, hi) = total_contribution-returns g h.0 in
    let (total, e', lo', hi') = group_lines-returns prev g code_lines contrib h.0 in
    let (n, e'', lo'', hi'') = add_groups-returns g total gs h.1 in
    (n, rw e (rw e' e''), omega arith, omega arith)

insights-returns :
    (ts : List TokenDescriptor)
    → All (λ t. t.start_line ≤ t.end_line) ts
    → (is : List TokenInsight) × (insights ts ≡ some is) × All IsSound is
unfolding insights
insights-returns [] h = ([], refl, tt)
insights-returns (t ∷ ts) h =
    let (i, e, s) = insight-returns t h.0 in
    let (is, e', s') = insights-returns ts h.1 in (i ∷ is, rw (e, e'), (s, s'))

count_groups-returns :
    (gs : List TokenInsightGroup)
    → All IsGroup gs
    → (n : ℕ) × (count_groups gs ≡ some n) × (n ≤ info_total gs)
unfolding count_groups
count_groups-returns [] h = (0, refl, omega arith)
count_groups-returns (g ∷ gs) h =
    let (contrib, e, hi) = total_contribution-returns g h.0 in
    let (n, e', lo', hi') = add_groups-returns g contrib gs h.1 in (n, rw e e', omega arith)

-- Where no token ends before it starts, the count returns: no subtraction goes below 0 and no index
-- is out of range. It is at most the number of lines with code of all tokens, each by itself.
pub count_code_lines-le :
    (ts : List TokenDescriptor)
    → All (λ t. t.start_line ≤ t.end_line) ts
    → (is : List TokenInsight) × (n : ℕ) × (insights ts ≡ some is)
      × (count_code_lines ts ≡ some n)
      × (n ≤ info_sum is)
unfolding count_code_lines
count_code_lines-le ts h =
    let (is, e, s) = insights-returns ts h in
    let (groups, total) = token_insight_groups-IsGroup is s in
    let (kept, less) = code_groups-IsGroup (token_insight_groups is) groups in
    let (n, e', hi) = count_groups-returns (code_groups (token_insight_groups is)) kept in
    (is, n, e, rw e e', omega arith)
