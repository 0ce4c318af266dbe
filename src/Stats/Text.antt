-- ===== src/Stats/Text.antt =====
-- What aderyn_core/src/stats uses of Rust's `str`: a text is the list of its code points.
use Prim.Native.String.{String}
use Prim.Native.Char.{code}
use aderyn.Prelude.{
  ℕ, ◌+◌, Bool, true, false, not, ◌&&◌, ◌||◌, List, [], ◌∷◌, ◌++◌, ◌≡◌, arith, leb, ◌==◌,
  if◌then◌else◌,
}

abbrev pub Text : Type 0
Text = List ℕ

-- the code points of a literal
abbrev pub codes : String → Text
codes String.[] = []
codes (String.◌∷◌ c s) = code c ∷ codes s

-- `char::is_whitespace`: the code points with the property White_Space
unfoldable pub is_whitespace : ℕ → Bool
is_whitespace c =
    leb 9 c && leb c 13
    || c == 0x20
    || c == 0x85
    || c == 0xa0
    || c == 0x1680
    || leb 0x2000 c && leb c 0x200a
    || c == 0x2028
    || c == 0x2029
    || c == 0x202f
    || c == 0x205f
    || c == 0x3000

-- `curr.trim() != ""`
unfoldable pub has_code : Text → Bool
unfolding is_whitespace
has_code [] = false
has_code (c ∷ cs) = not (is_whitespace c) || has_code cs

-- a character joins the first piece
onto : ℕ → List Text → List Text
onto c [] = (c ∷ []) ∷ []
onto c (l ∷ ls) = (c ∷ l) ∷ ls

-- `content.split('\n')`: always one piece more than there are newlines
unfoldable pub split_lines : Text → List Text
unfolding onto
split_lines [] = [] ∷ []
split_lines (c ∷ cs) = if c == b'\n' then [] ∷ split_lines cs else onto c (split_lines cs)

-- `str::starts_with` for a text
unfoldable pub starts_with : Text → Text → Bool
starts_with s [] = true
starts_with [] (p ∷ ps) = false
starts_with (c ∷ cs) (p ∷ ps) = c == p && starts_with cs ps

-- `str::contains` for a text
unfoldable pub contains_text : Text → Text → Bool
unfolding starts_with
contains_text [] p = starts_with [] p
contains_text (c ∷ cs) p = starts_with (c ∷ cs) p || contains_text cs p

abbrev pub newlines : Text → ℕ
newlines [] = 0
newlines (c ∷ cs) = (if c == b'\n' then 1 else 0) + newlines cs

pub newlines-append : (a b : Text) → newlines (a ++ b) ≡ newlines a + newlines b
newlines-append [] b = ground arith
newlines-append (c ∷ a) b = ground (arith, newlines-append a b)
