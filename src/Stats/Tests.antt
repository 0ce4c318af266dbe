-- ===== src/Stats/Tests.antt =====
-- Small texts, and one use of each theorem.
use aderyn.Prelude.{ℕ, ◌≤◌, false, some, List, [], ◌∷◌, ◌≡◌, ◌≢◌, refl, arith, All, head?}
use aderyn.Stats.Text.{Text}
use aderyn.Stats.CodeIterator.{from_str, next}
use aderyn.Stats.CodeIterator.Peek.{moved, next-cons}
use aderyn.Stats.Token.{TokenDescriptor, tokenize, singleline_comment, code_outside_quotes}
use aderyn.Stats.Token.Lossless.{joined, IsLaidOut, tokenize_lossless}
use aderyn.Stats.Insight.{TokenInsight}
use aderyn.Stats.Insight.Contribution.{info_sum}
use aderyn.Stats.Cloc.{insights, count_code_lines}
use aderyn.Stats.Cloc.Count.{count_code_lines-le}
use aderyn.Stats.Ignore.{Capture, literal, get_lines_to_ignore}
use aderyn.Stats.Ignore.Comments.{PlacedBy, get_lines_to_ignore-PlacedBy}
use aderyn.Stats.Collect.{Stats, get_stats}
use aderyn.Stats.Collect.Total.{Describes, get_stats-Describes}

abbrev text : Text
text = literal "a=1;// aderyn-ignore"

text-ne : text ≢ []
text-ne e = cc

tokenize_lossless_example :
    (ts : List TokenDescriptor) × (tokenize text ≡ some ts) × (joined ts ≡ text) × IsLaidOut 1 ts
tokenize_lossless_example = tokenize_lossless text text-ne

next-cons_example :
    next (from_str (b'a' ∷ b'b' ∷ []))
    ≡ some (
      some (record { curr = b'a'; next = head? (b'b' ∷ []); line_no = 1 }),
      moved (from_str (b'a' ∷ b'b' ∷ [])) b'a',
    )
next-cons_example = next-cons (from_str (b'a' ∷ b'b' ∷ [])) b'a' (b'b' ∷ []) refl

abbrev tokens : List TokenDescriptor
tokens =
    (record {
      token_type = code_outside_quotes;
      start_line = 1;
      end_line = 1;
      content = literal "a=1;";
    })
    ∷ (record {
      token_type = singleline_comment;
      start_line = 1;
      end_line = 1;
      content = literal "// aderyn-ignore";
    })
    ∷ []

count_code_lines-le_example :
    (is : List TokenInsight) × (n : ℕ) × (insights tokens ≡ some is)
    × (count_code_lines tokens ≡ some n)
    × (n ≤ info_sum is)
count_code_lines-le_example = count_code_lines-le tokens (omega arith, (omega arith, tt))

-- an expression that captures nothing
abbrev no_capture : Text → List Capture
no_capture content = []

get_lines_to_ignore-PlacedBy_example : All (PlacedBy tokens) (get_lines_to_ignore no_capture tokens)
get_lines_to_ignore-PlacedBy_example = get_lines_to_ignore-PlacedBy no_capture tokens

get_stats-Describes_example :
    (s : Stats) × (get_stats no_capture text false ≡ some s) × Describes no_capture text false s
get_stats-Describes_example = get_stats-Describes no_capture text false
