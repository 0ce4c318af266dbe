-- ===== src/Stats/Token/Lossless.antt =====
-- `tokenize` returns on each text that is not empty, and loses nothing of it.
use aderyn.Prelude.{
  ℕ, zero, suc, ◌+◌, ◌≤◌, ◌<◌, ◌&&◌, Option, some, List, [], ◌∷◌, ◌++◌, ◌≡◌, ◌≢◌, refl, sym, ap,
  ◌∙◌, inl, inr, append_assoc, append-nil, arith, ◌==◌, ==_iff, length, head?, tail, List-cases,
  Bool-cases, is_char,
}
use aderyn.Stats.Text.{Text, newlines, newlines-append}
use aderyn.Stats.CodeIterator.{CodeIterator, from_str}
use aderyn.Stats.CodeIterator.Peek.{rest, moved, rest-moved, next-cons, next-nil}
use aderyn.Stats.Token.{
  TokenType, TokenDescriptor, Scanned, Buffers, filled, flush, close, scan_token, token_loop,
  tokenize, multiline_loop, singleline_loop, multiline_comment, code_double_quotes,
  code_single_quotes, singleline_comment, code_outside_quotes,
}
use aderyn.Stats.Token.Scan.{
  Takes, Ends, Takes-trans, pushed, two_chars, Takes-pushed, multiline_loop-Ends, left-pushed,
  quoted_loop-Ends, singleline_loop-Ends, outside_loop-Ends,
}

-- the contents, one after another
abbrev pub joined : List TokenDescriptor → Text
joined [] = []
joined (t ∷ ts) = t.content ++ joined ts

-- The tokens start at line `n`, each where the one before it ends.
abbrev pub IsLaidOut : ℕ → List TokenDescriptor → Type 0
IsLaidOut n [] = Unit
IsLaidOut n (t ∷ ts) =
    (t.content ≢ [])
    × (t.start_line ≡ n)
    × (n ≤ t.end_line)
    × (t.end_line ≤ n + newlines t.content)
    × IsLaidOut (n + newlines t.content) ts

abbrev fresh : CodeIterator → Scanned
fresh it = record { it = it; end_line = it.line_no; bytes = [] }

-- One round of the outer loop, from the iterator `it` before it.
record Round (it : CodeIterator) (m : Option (Scanned × Buffers)) : Type 0 where
  ty : TokenType
  last : Scanned
  returns : m ≡ some (last, filled ty last.bytes)
  takes : Takes (fresh it) last
  shorter : length (rest last.it) < length (rest it)

Round-close :
    (it : CodeIterator) (ty : TokenType) (m : Option Scanned) (s : Scanned)
    → Takes (fresh it) s
    → length (rest s.it) < length (rest it)
    → Ends m s
    → Round it (close ty m)
Round-close it ty m s p h (t, e, q) = record {
  ty = ty;
  last = t;
  returns = rw e;
  takes = Takes-trans p q;
  shorter = omega (arith, q.left);
}

module _ (fuel : ℕ) (it : CodeIterator) (ne : it.content ≢ []) where
  -- both characters of the mark are taken
  Round-two :
      (c k d : ℕ) (ds : Text) (ty : TokenType) (loop : ℕ → Scanned → Option Scanned)
      → ((s : Scanned) → s.it.content ≢ [] → length (rest s.it) < fuel → Ends (loop fuel s) s)
      → c ≡ k
      → rest it ≡ c ∷ d ∷ ds
      → suc (length ds) < fuel
      → Round it (
          close ty (
            loop fuel
              (record { it = moved (moved it c) d; end_line = it.line_no; bytes = k ∷ d ∷ [] })))
  Round-two c k d ds ty loop ends same e h =
      let one = pushed (fresh it) c in
      let e' : rest one.it ≡ d ∷ ds = rest-moved it c ∙ ap tail e in
      let s : Scanned = pushed one d in
      let taken : Takes (fresh it) s =
        Takes-trans (Takes-pushed (fresh it) c (d ∷ ds) e) (Takes-pushed one d ds e') in
      let left : suc (suc (length (rest s.it))) ≡ length (rest it) =
        omega (arith, left-pushed (fresh it) c (d ∷ ds) e, left-pushed one d ds e') in
      rw (← same)
        (Round-close it ty _ s taken (omega arith) (ends s ne (omega (arith, ap length e))))

  Round-one :
      (c k : ℕ) (cs : Text) (ty : TokenType) (m : Option Scanned)
      → c ≡ k
      → rest it ≡ c ∷ cs
      → Ends m (record { it = moved it c; end_line = it.line_no; bytes = k ∷ [] })
      → Round it (close ty m)
  Round-one c k cs ty m same e ends =
      Round-close it ty m (record { it = moved it c; end_line = it.line_no; bytes = k ∷ [] })
        (rw (← same) (Takes-pushed (fresh it) c cs e))
        (omega (arith, left-pushed (fresh it) c cs e)) ends

  scan_token-Round :
      (c : ℕ) (cs : Text)
      → rest it ≡ c ∷ cs
      → length cs < fuel
      → Round it (
          scan_token fuel (record { curr = c; next = head? cs; line_no = it.line_no }) (moved it c))
  unfolding scan_token
  scan_token-Round c cs e h =
      let after : rest (moved it c) ≡ cs = rest-moved it c ∙ ap tail e in
      let small : length (rest (moved it c)) < fuel = rw after h in
      elim (Bool-cases (c == b'/' && is_char (head? cs) b'*')) [
        | inl comment ↦
            let (ds, slash, star) = two_chars c cs b'/' b'*' comment in
            rw comment (
              rw (next-cons (moved it c) b'*' ds (after ∙ star)) (
                Round-two c b'/' b'*' ds multiline_comment multiline_loop (multiline_loop-Ends fuel)
                  slash (e ∙ ap (◌∷◌ c) star) (omega (arith, ap length star))))
        | inr a ↦ rw a (elim (Bool-cases (c == b'"')) [
          | inl double ↦ rw double (
              Round-one c b'"' cs code_double_quotes _ ((==_iff c b'"').0 double) e
                (quoted_loop-Ends b'"' fuel _ ne small))
          | inr b ↦ rw b (elim (Bool-cases (c == b'\'')) [
            | inl single ↦ rw single (
                Round-one c b'\'' cs code_single_quotes _ ((==_iff c b'\'').0 single) e
                  (quoted_loop-Ends b'\'' fuel _ ne small))
            | inr d ↦ rw d (elim (Bool-cases (c == b'/' && is_char (head? cs) b'/')) [
              | inl line ↦
                  let (ds, slash, slash') = two_chars c cs b'/' b'/' line in
                  rw line (
                    rw (next-cons (moved it c) b'/' ds (after ∙ slash')) (
                      Round-two c b'/' b'/' ds singleline_comment singleline_loop
                        (singleline_loop-Ends fuel) slash (e ∙ ap (◌∷◌ c) slash')
                        (omega (arith, ap length slash'))))
              | inr plain ↦ rw plain (
                  Round-one c c cs code_outside_quotes _ refl e (
                    rw (ap head? after) at (outside_loop-Ends fuel (pushed (fresh it) c) ne small)))
            ])
          ])
        ])
      ]

-- a round leaves one token, with the text that it took
flush-filled :
    (n e : ℕ) (ty : TokenType) (b : Text)
    → b ≢ []
    → flush n e (filled ty b)
      ≡ (record { token_type = ty; start_line = n; end_line = e; content = b }) ∷ []
unfolding flush
flush-filled n e ty [] ne = absurd (ne refl)
flush-filled n e multiline_comment (c ∷ cs) ne = refl
flush-filled n e ty (c ∷ cs) ne = refl

-- What `tokenize` gives for the characters ahead of an iterator, behind the tokens so far.
record Tokens (it : CodeIterator) (out : List TokenDescriptor) (m : Option (List TokenDescriptor))
    : Type 0 where
  ts : List TokenDescriptor
  returns : m ≡ some (out ++ ts)
  text : joined ts ≡ rest it
  laid_out : IsLaidOut it.line_no ts

Tokens-cons :
    (it : CodeIterator) (out : List TokenDescriptor) (ty : TokenType) (s : Scanned)
    (m : Option (List TokenDescriptor))
    → Takes (fresh it) s
    → length (rest s.it) < length (rest it)
    → Tokens s.it (out ++ flush it.line_no s.end_line (filled ty s.bytes)) m
    → Tokens it out m
Tokens-cons it out ty s m takes shorter later =
    let t : TokenDescriptor = record {
      token_type = ty;
      start_line = it.line_no;
      end_line = s.end_line;
      content = s.bytes;
    } in
    let full : s.bytes ≢ [] =
      λ z. omega (arith, ap length takes.text, ap (λ (b : Text). length (b ++ rest s.it)) z) in
    let ends : s.it.line_no ≡ it.line_no + newlines s.bytes =
      omega (arith, takes.lines, ap newlines takes.text, newlines-append s.bytes (rest s.it)) in
    record {
      ts = t ∷ later.ts;
      returns =
          later.returns
          ∙ ap some (
              ap (λ f. (out ++ f) ++ later.ts) (flush-filled it.line_no s.end_line ty s.bytes full)
              ∙ append_assoc out (t ∷ []) later.ts);
      text = ap (◌++◌ s.bytes) later.text ∙ takes.text;
      laid_out = (
        full,
        refl,
        omega (arith, takes.starts),
        omega (arith, takes.ends),
        rw ends at later.laid_out,
      );
    }

token_loop-Tokens :
    (fuel : ℕ) (it : CodeIterator) (out : List TokenDescriptor)
    → it.content ≢ []
    → length (rest it) < fuel
    → Tokens it out (token_loop fuel it out)
unfolding token_loop
token_loop-Tokens zero it out ne h = elim h [ ]
token_loop-Tokens (suc fuel) it out ne h = elim (List-cases (rest it)) [
  | inl e ↦
      rw (next-nil it ne e)
        (record { ts = []; returns = rw append-nil; text = sym e; laid_out = tt })
  | inr (c, cs, e) ↦ rw (next-cons it c cs e) (
      let r = scan_token-Round fuel it ne c cs e (omega (arith, ap length e)) in
      rw r.returns (
        Tokens-cons it out r.ty r.last _ r.takes r.shorter (
          token_loop-Tokens fuel r.last.it _ (λ z. ne (sym r.takes.content ∙ z))
            (omega (arith, r.shorter)))))
]

-- On a text that is not empty `tokenize` returns: no index is out of range, and each loop ends.
-- The contents of the tokens, one after another, are the text. No token is empty, each starts on
-- the line where the one before it stops, and ends between there and the last line that it touches.
pub tokenize_lossless :
    (content : Text)
    → content ≢ []
    → (ts : List TokenDescriptor) × (tokenize content ≡ some ts)
      × (joined ts ≡ content)
      × IsLaidOut 1 ts
unfolding tokenize
tokenize_lossless content ne =
    let r = token_loop-Tokens (length content + 1) (from_str content) [] ne (omega arith) in
    (r.ts, r.returns, r.text, r.laid_out)
