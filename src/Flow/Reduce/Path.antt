-- ===== src/Flow/Reduce/Path.antt =====
-- A path through a node that is replaced becomes a path through its template.
use aderyn.Prelude.{
  ℕ, suc, ◌+◌, ◌<◌, inl, inr, true, false, List, [], ◌∷◌, ◌≡◌, ◌∙◌, subst, arith, ◌==◌, contains,
  Bool-cases,
}
use aderyn.Flow.Cfg.{Cfg}
use aderyn.Flow.Cfg.Template.{Template, targets}
use aderyn.Flow.Cfg.Edges.{edge}
use aderyn.Flow.Reduce.Replace.{Replaced}
use aderyn.Prelude.Leads.{Leads, here, step, Leads-along, Leads-append}
use aderyn.Flow.Reduce.Shape.{joins, Wired}

targets-joins :
    (n i j : ℕ) (es : List (ℕ × ℕ))
    → joins es i j ≡ true
    → contains (targets n (n + i) es) (n + j) ≡ true
targets-joins n i j [] h = h
targets-joins n i j ((k, l) ∷ es) h = ground (arith, targets-joins n i j es)

module _ (g h : Cfg) (c : ℕ) (t : Template) (below : c < g.next_available_id) (w : Wired t)
    (r : Replaced g c t h) where
  across : Leads (edge h) g.next_available_id (suc g.next_available_id)
  across =
      let n = g.next_available_id in
      let p =
        Leads-along {F = edge h} (λ i. n + i)
          (λ i j e. r.edges (n + i) (n + j) ∙ ground (arith, targets-joins n i j t.edges e, below))
          w.through in
      let z : n + 0 ≡ n = omega arith in
      let o : n + 1 ≡ suc n = omega arith in
      subst (λ x. Leads (edge h) x (suc n)) z (subst (λ x. Leads (edge h) (n + 0) x) o p)

  -- from the end of the template where the path begins at the node itself
  leads :
      {a b : ℕ}
      → Leads (edge g) a b
      → (c == b) ≡ false
      → ((c == a) ≡ false → Leads (edge h) a b)
        × ((c == a) ≡ true → Leads (edge h) (suc g.next_available_id) b)
  leads here o = (λ _. here, λ s. ground (arith, s, o))
  leads (step {a = a} {b = x} e p) o =
      let (other, same) = leads p o in
      let n = g.next_available_id in
      elim (Bool-cases (c == x)) [
        | inl s ↦ (
          (λ o'.
              step (r.edges a n ∙ ground (arith, e, s, o', below)) (Leads-append across (same s))),
          λ _. same s,
        )
        | inr n' ↦ (
          (λ o'. step (r.edges a x ∙ ground (arith, e, n', o')) (other n')),
          λ s. step (r.edges (suc n) x ∙ ground (arith, e, n', s, below)) (other n'),
        )
      ]

  pub Replaced-Leads :
      {a b : ℕ} → (c == a) ≡ false → (c == b) ≡ false → Leads (edge g) a b → Leads (edge h) a b
  Replaced-Leads o o' p = (leads p o').0 o
