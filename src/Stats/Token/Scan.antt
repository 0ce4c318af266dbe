-- ===== src/Stats/Token/Scan.antt =====
-- Each inner loop of `tokenize` ends, and takes characters off the text into its bytes.
use aderyn.Prelude.{
  ◌&&◌, true, ==_iff, ℕ, zero, suc, ◌+◌, ◌≤◌, ◌<◌, Option, some, [], ◌∷◌, ◌++◌, ◌≡◌, ◌≢◌, refl, sym,
  ap, ◌∙◌, inl, inr, max, append_assoc, arith, ◌==◌, length, head?, tail, List-cases, Bool-cases,
  is_char,
}
use aderyn.Stats.Text.{Text, newlines}
use aderyn.Stats.CodeIterator.Peek.{rest, moved, rest-moved, next-cons, next-nil}
use aderyn.Stats.Token.{
  Scanned, close_comment, multiline_loop, escape, quoted_loop, outside_loop, singleline_loop,
  stay_away,
}

-- `s'` has taken some of the characters that `s` had ahead.
pub record Takes (s s' : Scanned) : Type 0 where
  pub content : s'.it.content ≡ s.it.content
  pub text : s'.bytes ++ rest s'.it ≡ s.bytes ++ rest s.it
  pub lines : s'.it.line_no + newlines (rest s'.it) ≡ s.it.line_no + newlines (rest s.it)
  pub onward : s.it.line_no ≤ s'.it.line_no
  pub left : length (rest s'.it) ≤ length (rest s.it)
  pub starts : s.end_line ≤ s'.end_line
  pub ends : s'.end_line ≤ max s.end_line s'.it.line_no

pub Takes-trans : {s t u : Scanned} → Takes s t → Takes t u → Takes s u
Takes-trans p q = record {
  content = q.content ∙ p.content;
  text = q.text ∙ p.text;
  lines = q.lines ∙ p.lines;
  onward = omega arith;
  left = omega arith;
  starts = omega arith;
  ends = omega arith;
}

pub Takes-refl : (s : Scanned) → Takes s s
Takes-refl s = record {
  content = refl;
  text = refl;
  lines = refl;
  onward = omega arith;
  left = omega arith;
  starts = omega arith;
  ends = omega arith;
}

-- One character goes over, and `end` may become the line that it stands on.
pub Takes-char :
    (s : Scanned) (c : ℕ) (cs : Text) (e : ℕ)
    → rest s.it ≡ c ∷ cs
    → s.end_line ≤ e
    → e ≤ max s.end_line s.it.line_no
    → Takes s (record { it = moved s.it c; end_line = e; bytes = s.bytes ++ c ∷ [] })
Takes-char s c cs e h lo hi =
    let after : rest (moved s.it c) ≡ cs = rest-moved s.it c ∙ ap tail h in
    record {
      content = refl;
      text = rw (after, h) (append_assoc s.bytes (c ∷ []) cs);
      lines = rw (after, h) (ground arith);
      onward = ground arith;
      left = rw (after, h) (omega arith);
      starts = lo;
      ends = ground arith;
    }

Takes-end :
    (s : Scanned)
    → rest s.it ≡ []
    → Takes s (record s { it = record s.it { curr_pos = s.it.curr_pos + 1 } })
Takes-end s h =
    let after : rest (record s.it { curr_pos = s.it.curr_pos + 1 }) ≡ [] =
      rest-moved s.it 0 ∙ ap tail h in
    record {
      content = refl;
      text = rw (after, h);
      lines = rw (after, h);
      onward = omega arith;
      left = rw (after, h) (omega arith);
      starts = omega arith;
      ends = omega arith;
    }

-- The scan `m` from `s` gives a result, and only takes characters.
abbrev pub Ends : Option Scanned → Scanned → Type 0
Ends m s = (s' : Scanned) × (m ≡ some s') × Takes s s'

Ends-after : {m : Option Scanned} {s t : Scanned} → Takes s t → Ends m t → Ends m s
Ends-after p (u, e, q) = (u, e, Takes-trans p q)

abbrev pub pushed : Scanned → ℕ → Scanned
pushed s c = record s { it = moved s.it c; bytes = s.bytes ++ c ∷ [] }

pub Takes-pushed : (s : Scanned) (c : ℕ) (cs : Text) → rest s.it ≡ c ∷ cs → Takes s (pushed s c)
Takes-pushed s c cs h = Takes-char s c cs s.end_line h (omega arith) (omega arith)

pub left-pushed :
    (s : Scanned) (c : ℕ) (cs : Text)
    → rest s.it ≡ c ∷ cs
    → suc (length (rest (moved s.it c))) ≡ length (rest s.it)
left-pushed s c cs h = rw (rest-moved, h)

-- the test for two characters in a row
pub two_chars :
    (c : ℕ) (cs : Text) (k l : ℕ)
    → (c == k && is_char (head? cs) l) ≡ true
    → (ds : Text) × (c ≡ k) × (cs ≡ l ∷ ds)
two_chars c [] k l h = ground arith
two_chars c (d ∷ ds) k l h = (ds, ground arith, ground arith)

close_comment-Ends :
    (s : Scanned) (c : ℕ) (cs : Text)
    → c ≡ b'*'
    → rest s.it ≡ c ∷ b'/' ∷ cs
    → Ends (close_comment (record s { it = moved s.it c })) s
unfolding close_comment
close_comment-Ends s c cs is_star h =
    let star = pushed s c in
    let slash : rest star.it ≡ b'/' ∷ cs = rest-moved s.it c ∙ ap tail h in
    let t : Scanned = record {
      it = moved star.it b'/';
      end_line = max s.end_line star.it.line_no;
      bytes = (s.bytes ++ c ∷ []) ++ b'/' ∷ [];
    } in
    let taken = Takes-trans (Takes-pushed s c (b'/' ∷ cs) h) (
      Takes-char star b'/' cs (max s.end_line star.it.line_no) slash (omega arith) (omega arith)) in
    (
      t,
      rw (next-cons star.it b'/' cs slash) (cc (append_assoc s.bytes (c ∷ []) (b'/' ∷ []))),
      taken,
    )

pub multiline_loop-Ends :
    (fuel : ℕ) (s : Scanned)
    → s.it.content ≢ []
    → length (rest s.it) < fuel
    → Ends (multiline_loop fuel s) s
unfolding multiline_loop
multiline_loop-Ends zero s ne h = elim h [ ]
multiline_loop-Ends (suc fuel) s ne h = elim (List-cases (rest s.it)) [
  | inl e ↦ (
    record s { it = record s.it { curr_pos = s.it.curr_pos + 1 } },
    rw (next-nil s.it ne e),
    Takes-end s e,
  )
  | inr (c, cs, e) ↦
      rw (next-cons s.it c cs e) (elim (Bool-cases (c == b'*' && is_char (head? cs) b'/')) [
        | inl closes ↦
            let (ds, star, slash) = two_chars c cs b'*' b'/' closes in
            rw closes (close_comment-Ends s c ds star (e ∙ ap (◌∷◌ c) slash))
        | inr goes ↦ rw goes (
            Ends-after (Takes-pushed s c cs e)
              (multiline_loop-Ends fuel (pushed s c) ne (omega (arith, left-pushed s c cs e))))
      ])
]

escape-Ends :
    (s : Scanned) (c : ℕ) (cs : Text)
    → s.it.content ≢ []
    → rest s.it ≡ c ∷ cs
    → Ends
        (escape (record { curr = c; next = head? cs; line_no = s.it.line_no }) (pushed s c))
        (pushed s c)
unfolding escape
escape-Ends s c [] ne h = (pushed s c, ground arith, Takes-refl (pushed s c))
escape-Ends s c (d ∷ ds) ne h = elim (Bool-cases (c == b'\\')) [
  | inl escapes ↦
      let next_char : rest (moved s.it c) ≡ d ∷ ds = rest-moved s.it c ∙ ap tail h in
      (
        pushed (pushed s c) d,
        rw escapes (rw (next-cons (moved s.it c) d ds next_char)),
        Takes-pushed (pushed s c) d ds next_char,
      )
  | inr plain ↦ (pushed s c, rw plain, Takes-refl (pushed s c))
]

pub quoted_loop-Ends :
    (quote fuel : ℕ) (s : Scanned)
    → s.it.content ≢ []
    → length (rest s.it) < fuel
    → Ends (quoted_loop quote fuel s) s
unfolding quoted_loop
quoted_loop-Ends quote zero s ne h = elim h [ ]
quoted_loop-Ends quote (suc fuel) s ne h = elim (List-cases (rest s.it)) [
  | inl e ↦ (
    record s { it = record s.it { curr_pos = s.it.curr_pos + 1 } },
    rw (next-nil s.it ne e),
    Takes-end s e,
  )
  | inr (c, cs, e) ↦ rw (next-cons s.it c cs e) (elim (Bool-cases (c == quote)) [
    | inl closes ↦ rw closes (
      record {
        it = moved s.it c;
        end_line = max s.end_line s.it.line_no;
        bytes = s.bytes ++ quote ∷ [];
      },
      refl,
      rw (← (==_iff c quote).0 closes)
          (Takes-char s c cs (max s.end_line s.it.line_no) e (omega arith) (omega arith)),
    )
    | inr goes ↦
        let (s', escaped, taken) = escape-Ends s c cs ne e in
        rw goes (
          rw escaped (
            Ends-after (Takes-trans (Takes-pushed s c cs e) taken) (
              quoted_loop-Ends quote fuel s' (λ z. ne (sym taken.content ∙ z))
                (omega (arith, left-pushed s c cs e, taken.left)))))
  ])
]

pub singleline_loop-Ends :
    (fuel : ℕ) (s : Scanned)
    → s.it.content ≢ []
    → length (rest s.it) < fuel
    → Ends (singleline_loop fuel s) s
unfolding singleline_loop
singleline_loop-Ends zero s ne h = elim h [ ]
singleline_loop-Ends (suc fuel) s ne h = elim (List-cases (rest s.it)) [
  | inl e ↦ (
    record s { it = record s.it { curr_pos = s.it.curr_pos + 1 } },
    rw (next-nil s.it ne e),
    Takes-end s e,
  )
  | inr (c, cs, e) ↦ rw (next-cons s.it c cs e) (elim (Bool-cases (c == b'\n')) [
    | inl newline ↦ (pushed s c, ground arith, Takes-pushed s c cs e)
    | inr goes ↦
        let (t, ends, takes) =
          Ends-after (Takes-pushed s c cs e)
            (singleline_loop-Ends fuel (pushed s c) ne (omega (arith, left-pushed s c cs e))) in
        (t, ground arith, takes)
  ])
]

pub outside_loop-Ends :
    (fuel : ℕ) (s : Scanned)
    → s.it.content ≢ []
    → length (rest s.it) < fuel
    → Ends (outside_loop fuel (head? (rest s.it)) s) s
unfolding outside_loop
outside_loop-Ends zero s ne h = elim h [ ]
outside_loop-Ends (suc fuel) s ne h = elim (List-cases (rest s.it)) [
  | inl e ↦ rw e (s, refl, Takes-refl s)
  | inr (c, cs, e) ↦
      let s' : Scanned = record {
        it = moved s.it c;
        end_line = max s.end_line s.it.line_no;
        bytes = s.bytes ++ c ∷ [];
      } in
      let after : rest s'.it ≡ cs = rest-moved s.it c ∙ ap tail e in
      let taken : Takes s s' = Takes-char s c cs s'.end_line e (omega arith) (omega arith) in
      let later : Ends (outside_loop fuel (head? cs) s') s = Ends-after taken (
        rw (ap head? after) at
          (outside_loop-Ends fuel s' ne (omega (arith, left-pushed s c cs e)))) in
      elim (Bool-cases (stay_away c)) [
        | inl stays ↦ rw (e, outside_loop) (rw stays (s, refl, Takes-refl s))
        | inr goes ↦ rw (e, outside_loop) (rw (goes, next-cons s.it c cs e) later)
      ]
]
