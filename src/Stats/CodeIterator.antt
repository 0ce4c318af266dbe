-- ===== src/Stats/CodeIterator.antt =====
-- aderyn_core/src/stats/util.rs: the iterator over the characters of a text.
pub mod Peek
use aderyn.Prelude.{
  ℕ, ◌+◌, ◌-◌, Option, none, some, ◌==◌, ltb, if◌then◌else◌, ◌>>=◌, length, get_elem?,
}
use aderyn.Stats.Text.{Text}

pub record CodeIterator : Type 0 where
  pub content : Text
  pub curr_pos : ℕ
  pub line_no : ℕ

pub record StatefulToken : Type 0 where
  pub curr : ℕ
  pub next : Option ℕ
  pub line_no : ℕ

-- `FromStr::from_str`
abbrev pub from_str : Text → CodeIterator
from_str code = record { content = code; curr_pos = 0; line_no = 1 }

-- `content[pos]` with its successor, and with none; an index out of range is a panic
token_before : CodeIterator → ℕ → Option (Option StatefulToken)
token_before it pos = do
  c ← get_elem? it.content pos
  n ← get_elem? it.content (pos + 1)
  some (some (record { curr = c; next = some n; line_no = it.line_no }))

last_token : CodeIterator → ℕ → Option (Option StatefulToken)
last_token it pos = do
  c ← get_elem? it.content pos
  some (some (record { curr = c; next = none; line_no = it.line_no }))

-- `content.len() - 1` is a panic where the content is empty
token_at : CodeIterator → ℕ → Option (Option StatefulToken)
unfolding token_before last_token
token_at it pos =
    if length it.content == 0
    then none
    else if ltb pos (length it.content - 1)
    then token_before it pos
    else if ltb pos (length it.content)
    then last_token it pos
    else some none

-- `if let Some(ref c) = result && c.curr == '\n' { self.line_no += 1; }`
line_after : Option StatefulToken → ℕ → ℕ
line_after none n = n
line_after (some t) n = if t.curr == b'\n' then n + 1 else n

-- `Iterator::next`; the outer `none` is a panic
unfoldable pub next : CodeIterator → Option (Option StatefulToken × CodeIterator)
unfolding token_at line_after
next it = do
  result ← token_at it it.curr_pos
  some (result, record it { curr_pos = it.curr_pos + 1; line_no = line_after result it.line_no })
