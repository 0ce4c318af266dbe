-- ===== src/Stats/Token.antt =====
-- aderyn_core/src/stats/token.rs, `tokenize`: a text is cut into comments, quoted code and the
-- code between. Each loop has fuel; `none` is a panic, or fuel that has run out.
use aderyn.Prelude.{
  ℕ, zero, suc, ◌+◌, Bool, ◌&&◌, ◌||◌, Option, none, some, List, [], ◌∷◌, ◌++◌, max, ◌==◌,
  if◌then◌else◌, ◌>>=◌, is_some, is_char, length,
}
use aderyn.Stats.Text.{Text}
use aderyn.Stats.CodeIterator.{CodeIterator, StatefulToken, from_str, next}
pub mod Scan
pub mod Lossless

pub data TokenType : Type 0 where
  code_single_quotes code_double_quotes code_outside_quotes : TokenType
  multiline_comment singleline_comment : TokenType

pub record TokenDescriptor : Type 0 where
  pub token_type : TokenType
  pub start_line : ℕ
  pub end_line : ℕ
  pub content : Text

-- The iterator, `end`, and the bytes of the branch that the loop body is in.
pub record Scanned : Type 0 where
  pub it : CodeIterator
  pub end_line : ℕ
  pub bytes : Text

-- the body of `if next.curr == '*' && …` in a comment
close_comment : Scanned → Option Scanned
close_comment s = do
  (found, it) ← next s.it
  t ← found
  some
      (record { it = it; end_line = max s.end_line t.line_no; bytes = s.bytes ++ b'*' ∷ b'/' ∷ [] })

pub multiline_loop : ℕ → Scanned → Option Scanned
unfolding close_comment
multiline_loop zero s = none
multiline_loop (suc fuel) s = do
  (found, it) ← next s.it
  elim found [
    | none ↦ some (record s { it = it })
    | some t ↦
        let more = multiline_loop fuel (record s { it = it; bytes = s.bytes ++ t.curr ∷ [] }) in
        if t.curr == b'*' && is_char t.next b'/' then close_comment (record s { it = it }) else more
  ]

-- `iter.next(); bytes.push(next.next.unwrap())` behind a backslash
escape : StatefulToken → Scanned → Option Scanned
escape t s =
    if t.curr == b'\\' && is_some t.next
    then (do
      (_, it) ← next s.it
      c ← t.next
      some (record s { it = it; bytes = s.bytes ++ c ∷ [] }))
    else some s

-- the loop that both kinds of quotes have, up to the closing `quote`
pub quoted_loop : ℕ → ℕ → Scanned → Option Scanned
unfolding escape
quoted_loop quote zero s = none
quoted_loop quote (suc fuel) s = do
  (found, it) ← next s.it
  elim found [
    | none ↦ some (record s { it = it })
    | some t ↦
        let more = (do
          s' ← escape t (record s { it = it; bytes = s.bytes ++ t.curr ∷ [] })
          quoted_loop quote fuel s') in
        if t.curr == quote
        then some
            (record { it = it; end_line = max s.end_line t.line_no; bytes = s.bytes ++ quote ∷ [] })
        else more
  ]

pub singleline_loop : ℕ → Scanned → Option Scanned
singleline_loop zero s = none
singleline_loop (suc fuel) s = do
  (found, it) ← next s.it
  elim found [
    | none ↦ some (record s { it = it })
    | some t ↦
        let s' = record s { it = it; bytes = s.bytes ++ t.curr ∷ [] } in
        let more = singleline_loop fuel s' in if t.curr == b'\n' then some s' else more
  ]

abbrev pub stay_away : ℕ → Bool
stay_away c = c == b'\'' || c == b'"' || c == b'/'

-- `curr` is the character ahead
pub outside_loop : ℕ → Option ℕ → Scanned → Option Scanned
outside_loop zero curr s = none
outside_loop (suc fuel) none s = some s
outside_loop (suc fuel) (some ahead) s =
    let more = (do
      (found, it) ← next s.it
      t ← found
      outside_loop fuel t.next (record {
        it = it;
        end_line = max s.end_line t.line_no;
        bytes = s.bytes ++ t.curr ∷ [];
      })) in
    if stay_away ahead then some s else more

-- The five byte vectors, which are cleared at the end of each round of the outer loop.
pub record Buffers : Type 0 where
  pub multiline_comment_bytes : Text
  pub singleline_comment_bytes : Text
  pub code_bytes_inside_double_quotes : Text
  pub code_bytes_inside_single_quotes : Text
  pub code_bytes_outside_quotes : Text

abbrev pub cleared : Buffers
cleared = record {
  multiline_comment_bytes = [];
  singleline_comment_bytes = [];
  code_bytes_inside_double_quotes = [];
  code_bytes_inside_single_quotes = [];
  code_bytes_outside_quotes = [];
}

-- The buffers at the end of a round, whose branch has filled one of them.
abbrev pub filled : TokenType → Text → Buffers
filled multiline_comment b = record cleared { multiline_comment_bytes = b }
filled singleline_comment b = record cleared { singleline_comment_bytes = b }
filled code_double_quotes b = record cleared { code_bytes_inside_double_quotes = b }
filled code_single_quotes b = record cleared { code_bytes_inside_single_quotes = b }
filled code_outside_quotes b = record cleared { code_bytes_outside_quotes = b }

-- `if !bytes.is_empty() { token_descriptors.push(…) }`
abbrev pub push_token : TokenType → ℕ → ℕ → Text → List TokenDescriptor
push_token ty start end_line [] = []
push_token ty start end_line (c ∷ cs) =
    (record { token_type = ty; start_line = start; end_line = end_line; content = c ∷ cs }) ∷ []

pub flush : ℕ → ℕ → Buffers → List TokenDescriptor
flush start e b =
    push_token multiline_comment start e b.multiline_comment_bytes
    ++ (push_token singleline_comment start e b.singleline_comment_bytes
        ++ (push_token code_double_quotes start e b.code_bytes_inside_double_quotes
            ++ (push_token code_single_quotes start e b.code_bytes_inside_single_quotes
                ++ push_token code_outside_quotes start e b.code_bytes_outside_quotes)))

-- the branch of kind `ty` is over
abbrev pub close : TokenType → Option Scanned → Option (Scanned × Buffers)
close ty none = none
close ty (some s) = some (s, filled ty s.bytes)

-- the first characters of a branch are pushed, and `end` is the line of the first
abbrev pub opened : CodeIterator → StatefulToken → Text → Scanned
opened it t bytes = record { it = it; end_line = t.line_no; bytes = bytes }

-- the branches of the outer loop, on the token `t` that was read
pub scan_token : ℕ → StatefulToken → CodeIterator → Option (Scanned × Buffers)
scan_token fuel t it =
    if t.curr == b'/' && is_char t.next b'*'
    then (do
      (_, it') ← next it
      close multiline_comment (multiline_loop fuel (opened it' t (b'/' ∷ b'*' ∷ []))))
    else if t.curr == b'"'
    then close code_double_quotes (quoted_loop b'"' fuel (opened it t (b'"' ∷ [])))
    else if t.curr == b'\''
    then close code_single_quotes (quoted_loop b'\'' fuel (opened it t (b'\'' ∷ [])))
    else if t.curr == b'/' && is_char t.next b'/'
    then (do
      (_, it') ← next it
      close singleline_comment (singleline_loop fuel (opened it' t (b'/' ∷ b'/' ∷ []))))
    else close code_outside_quotes (outside_loop fuel t.next (opened it t (t.curr ∷ [])))

pub token_loop : ℕ → CodeIterator → List TokenDescriptor → Option (List TokenDescriptor)
token_loop zero it out = none
token_loop (suc fuel) it out = do
  (found, it') ← next it
  elim found [
    | none ↦ some out
    | some t ↦ do
      (s, buffers) ← scan_token fuel t it'
      token_loop fuel s.it (out ++ flush t.line_no s.end_line buffers)
  ]

-- Each round takes a character at least, so one more than there are characters are enough.
unfoldable pub tokenize : Text → Option (List TokenDescriptor)
unfolding token_loop scan_token flush multiline_loop quoted_loop singleline_loop outside_loop next
tokenize content = token_loop (length content + 1) (from_str content) []
