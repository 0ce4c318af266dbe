-- ===== src/Stats/Ignore.antt =====
-- aderyn_core/src/stats/ignore.rs: the lines that comments tell the detectors to ignore. The regular
-- expression is another package's: what it captures in a text is a parameter.
pub mod Comments
use Prim.Native.Char.{code}
use Prim.Native.String.{String}
use aderyn.Prelude.{
  ℕ, ◌+◌, Bool, true, false, ◌||◌, Option, none, some, List, [], ◌∷◌, ◌++◌, map, ◌==◌,
  if◌then◌else◌,
}
use aderyn.Stats.Text.{Text, is_whitespace, contains_text}
use aderyn.Stats.Token.{
  TokenType, code_single_quotes, code_double_quotes, code_outside_quotes, TokenDescriptor,
}

-- the code points of a literal of the source, which is ASCII
abbrev pub literal : String → Text
literal (String.◌∷◌ first others) = code first ∷ literal others
literal String.[] = []

pub data When : Type 0 where
  always : When
  for_detectors_with_names : List Text → When

pub record IgnoreLine : Type 0 where
  pub when : When
  pub which : ℕ

-- one match of ADERYN_IGNORE_REGEX: whether group 1 takes part, and the text of group 2
pub record Capture : Type 0 where
  pub next_line : Bool
  pub names : Option Text

-- `str::trim`: drop the white space at the start, and at the end
trim_start : Text → Text
unfolding is_whitespace
trim_start [] = []
trim_start (c ∷ cs) = if is_whitespace c then trim_start cs else c ∷ cs

is_blank : Text → Bool
unfolding is_whitespace
is_blank [] = true
is_blank (c ∷ cs) = if is_whitespace c then is_blank cs else false

trim_end : Text → Text
unfolding is_blank
trim_end [] = []
trim_end (c ∷ cs) = if is_blank (c ∷ cs) then [] else c ∷ trim_end cs

-- a character joins the first piece
onto : ℕ → List Text → List Text
onto c [] = (c ∷ []) ∷ []
onto c (l ∷ ls) = (c ∷ l) ∷ ls

-- `names.split(',')`
split_commas : Text → List Text
unfolding onto
split_commas [] = [] ∷ []
split_commas (c ∷ cs) = if c == b',' then [] ∷ split_commas cs else onto c (split_commas cs)

-- `filter(|name| !name.is_empty())`
filled_names : List Text → List Text
filled_names [] = []
filled_names ([] ∷ ls) = filled_names ls
filled_names ((c ∷ cs) ∷ ls) = (c ∷ cs) ∷ filled_names ls

unfoldable pub detector_names : Option Text → List Text
unfolding trim_start trim_end split_commas filled_names
detector_names none = []
detector_names (some names) =
    filled_names (map (λ name. trim_end (trim_start name)) (split_commas names))

abbrev pub should_ignore_next_line : Text → Bool
should_ignore_next_line content =
    contains_text content (literal "aderyn-ignore-next-line")
    || contains_text content (literal "aderyn-fp-next-line")

abbrev pub should_ignore_line : Text → Bool
should_ignore_line content =
    contains_text content (literal "aderyn-ignore") || contains_text content (literal "aderyn-fp")

-- the entry of one match, in a token that ends on line `end_line`
abbrev pub capture_line : ℕ → Capture → IgnoreLine
capture_line end_line c = record {
  when = for_detectors_with_names (detector_names c.names);
  which = if c.next_line then end_line + 1 else end_line;
}

-- the entry of a token with no match
unfoldable pub marker_lines : TokenDescriptor → List IgnoreLine
marker_lines t =
    if should_ignore_next_line t.content
    then (record { when = always; which = t.end_line + 1 }) ∷ []
    else if should_ignore_line t.content
    then (record { when = always; which = t.end_line }) ∷ []
    else []

-- the entries of a comment; `found` is false exactly if there is no match
comment_lines : TokenDescriptor → List Capture → List IgnoreLine
comment_lines t [] = marker_lines t
comment_lines t (c ∷ cs) = map (capture_line t.end_line) (c ∷ cs)

module _ (captures_iter : Text → List Capture) where
  -- the body of the loop: `continue` at a token of code
  unfoldable pub token_lines : TokenType → TokenDescriptor → List IgnoreLine
  unfolding comment_lines marker_lines
  token_lines code_single_quotes t = []
  token_lines code_double_quotes t = []
  token_lines code_outside_quotes t = []
  token_lines _ t = comment_lines t (captures_iter t.content)

  unfoldable pub get_lines_to_ignore : List TokenDescriptor → List IgnoreLine
  unfolding token_lines
  get_lines_to_ignore [] = []
  get_lines_to_ignore (t ∷ ts) = token_lines t.token_type t ++ get_lines_to_ignore ts
