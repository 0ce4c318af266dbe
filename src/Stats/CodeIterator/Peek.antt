-- ===== src/Stats/CodeIterator/Peek.antt =====
-- The iterator walks down the characters that are left, one at a time.
use aderyn.Prelude.{
  ℕ, suc, ◌+◌, ◌-◌, none, some, [], ◌∷◌, ◌≡◌, ◌≢◌, ap, ◌∙◌, inl, inr, arith, ◌==◌, if◌then◌else◌,
  length, head?, tail, drop, drop-suc, get_elem?-drop, length-drop, List-cases, get_elem?,
}
use native.Mathlib.Numerals.{add-one}
use aderyn.Stats.Text.{Text}
use aderyn.Stats.CodeIterator.{CodeIterator, next}

-- the characters that are still to come
abbrev pub rest : CodeIterator → Text
rest it = drop it.curr_pos it.content

-- The iterator after one character.
abbrev pub moved : CodeIterator → ℕ → CodeIterator
moved it c = record it {
  curr_pos = it.curr_pos + 1;
  line_no = if c == b'\n' then it.line_no + 1 else it.line_no;
}

pub rest-moved : (it : CodeIterator) (c : ℕ) → rest (moved it c) ≡ tail (rest it)
rest-moved it c = rw add-one (drop-suc it.curr_pos it.content)

module _ (it : CodeIterator) where
  here : get_elem? it.content it.curr_pos ≡ head? (rest it)
  here = get_elem?-drop it.curr_pos it.content

  ahead : get_elem? it.content (it.curr_pos + 1) ≡ head? (tail (rest it))
  ahead =
      rw add-one
        (get_elem?-drop (suc it.curr_pos) it.content ∙ ap head? (drop-suc it.curr_pos it.content))

  left : length (rest it) ≡ length it.content - it.curr_pos
  left = length-drop it.curr_pos it.content

  -- Where a character is left, the iterator returns it with the one behind it, if any, and its line, and
  -- moves one position on, to the next line behind a newline.
  pub next-cons :
      (c : ℕ) (cs : Text)
      → rest it ≡ c ∷ cs
      → next it
        ≡ some (some (record { curr = c; next = head? cs; line_no = it.line_no }), moved it c)
  unfolding next
  next-cons c [] h =
      ground (arith, here ∙ ap head? h, ahead ∙ ap (λ l. head? (tail l)) h, left, ap length h)
  next-cons c (d ∷ ds) h =
      ground (arith, here ∙ ap head? h, ahead ∙ ap (λ l. head? (tail l)) h, left, ap length h)

  -- On a text that is not empty and of which nothing is left, the iterator returns no token and no panic.
  pub next-nil :
      it.content ≢ []
      → rest it ≡ []
      → next it ≡ some (none, record it { curr_pos = it.curr_pos + 1 })
  unfolding next
  next-nil ne h = elim (List-cases it.content) [
    | inl e ↦ absurd (ne e)
    | inr (c, cs, e) ↦ ground (arith, left, ap length h, ap length e)
  ]
