-- ===== src/Stats/Collect/Total.antt =====
-- `get_stats` returns on each source file.
use aderyn.Prelude.{ℕ, ◌≤◌, Bool, true, false, some, List, [], ◌∷◌, ◌≡◌, refl, arith, All, ◌≢◌}
use aderyn.Stats.Text.{Text}
use aderyn.Stats.Token.{TokenDescriptor}
use aderyn.Stats.Token.Lossless.{joined, IsLaidOut, tokenize_lossless}
use aderyn.Stats.Cloc.{count_code_lines}
use aderyn.Stats.Cloc.Count.{count_code_lines-le}
use aderyn.Stats.Ignore.{Capture, get_lines_to_ignore}
use aderyn.Stats.Collect.{Stats, get_stats}

cons-ne-nil : (c : ℕ) (cs : Text) → c ∷ cs ≢ []
cons-ne-nil c cs h = cc

IsLaidOut-ordered :
    (ts : List TokenDescriptor) (n : ℕ) → IsLaidOut n ts → All (λ t. t.start_line ≤ t.end_line) ts
IsLaidOut-ordered [] n h = tt
IsLaidOut-ordered (t ∷ ts) n (full, start, lo, hi, more) =
    (omega arith, IsLaidOut-ordered ts _ more)

-- What the statistics of a file are: its tokens hold the whole file, the ignored lines are those of
-- the tokens, and the lines of code are counted unless the count is skipped.
pub record Describes (captures_iter : Text → List Capture) (content : Text) (skip_cloc : Bool)
    (s : Stats) : Type 0 where
  pub tokens : List TokenDescriptor
  pub whole : joined tokens ≡ content
  pub ignored : s.ignore_lines ≡ get_lines_to_ignore captures_iter tokens
  pub counted : skip_cloc ≡ false → count_code_lines tokens ≡ some s.code
  pub skipped : skip_cloc ≡ true → s.code ≡ 0

module _ (captures_iter : Text → List Capture) where
  -- On every text, the empty one included, `get_stats` returns without a panic, and its result
  -- describes the text.
  pub get_stats-Describes :
      (content : Text) (skip_cloc : Bool)
      → (s : Stats) × (get_stats captures_iter content skip_cloc ≡ some s)
        × Describes captures_iter content skip_cloc s
  unfolding get_stats get_lines_to_ignore count_code_lines
  get_stats-Describes [] skip_cloc = (
    record { code = 0; ignore_lines = [] },
    refl,
    record { tokens = []; whole = refl; ignored = refl; counted = λ _. refl; skipped = λ _. refl },
  )
  get_stats-Describes (c ∷ cs) true =
      let (ts, e, whole, laid) = tokenize_lossless (c ∷ cs) (cons-ne-nil c cs) in
      (
        record { code = 0; ignore_lines = get_lines_to_ignore captures_iter ts },
        rw e,
        record {
          tokens = ts;
          whole = whole;
          ignored = refl;
          counted = λ z. cc;
          skipped = λ _. refl;
        },
      )
  get_stats-Describes (c ∷ cs) false =
      let (ts, e, whole, laid) = tokenize_lossless (c ∷ cs) (cons-ne-nil c cs) in
      let (is, n, e', counts, le) = count_code_lines-le ts (IsLaidOut-ordered ts 1 laid) in
      (
        record { code = n; ignore_lines = get_lines_to_ignore captures_iter ts },
        rw (e, counts),
        record {
          tokens = ts;
          whole = whole;
          ignored = refl;
          counted = λ _. counts;
          skipped = λ z. cc;
        },
      )
