-- ===== src/Flow/Reduce/Rewire.antt =====
-- The loops of `Cfg::reduce` that take edges away and put edges in.
use aderyn.Prelude.{
  ℕ, Bool, true, false, not, ◌&&◌, ◌||◌, some, List, [], ◌∷◌, ◌≡◌, refl, ap, ◌∙◌, arith, ◌==◌,
  if◌then◌else◌, contains, is_some, Bool-cases, Option-cases, inl, inr, ==_iff, All, All-map,
}
use aderyn.Prelude.Assoc.{lookup, insert, lookup-insert, IsMap, insert-IsMap}
use aderyn.Flow.Cfg.{
  Cfg, or_nil, raw_successors, retain_ne, remove_flow_edge, remove_raw_directed_edge, add_flow_edge,
  add_raw_directed_edge,
}
use aderyn.Flow.Cfg.Returns.{Returns, Returns-step, Returns-pure, Returns-weaken}
use aderyn.Flow.Cfg.Edges.{edge, edge-add, contains-retain_ne}
use aderyn.Flow.Reduce.{for_each}

abbrev pub with_adj_list : Cfg → List (ℕ × List ℕ) → Cfg
with_adj_list g m = record g { adj_list = m }

abbrev pub has_key : Cfg → ℕ → Bool
has_key g k = is_some (lookup k g.adj_list)

-- `h` differs from `g` in the edges only, and has those of the test `E`.
pub record Rewired (g : Cfg) (E : ℕ → ℕ → Bool) (h : Cfg) : Type 0 where
  pub same : h ≡ with_adj_list g h.adj_list
  pub keyed : IsMap h.adj_list
  pub keys : (k : ℕ) → has_key g k ≡ true → has_key h k ≡ true
  pub edges : (a b : ℕ) → edge h a b ≡ E a b

-- one of the edges from `from x` to `to x`
abbrev pub any_edge : (ℕ → ℕ) → (ℕ → ℕ) → List ℕ → ℕ → ℕ → Bool
any_edge from to [] a b = false
any_edge from to (x ∷ xs) a b = (from x == a && to x == b) || any_edge from to xs a b

Rewired-self :
    (g : Cfg) (E : ℕ → ℕ → Bool)
    → IsMap g.adj_list
    → ((a b : ℕ) → edge g a b ≡ E a b)
    → Rewired g E g
Rewired-self g E h e = record { same = refl; keyed = h; keys = λ k p. p; edges = e }

-- `h` from `g1`, and `g1` from `g`
Rewired-after :
    {g g1 h : Cfg} {E F E' : ℕ → ℕ → Bool}
    → Rewired g E g1
    → Rewired g1 F h
    → ((a b : ℕ) → F a b ≡ E' a b)
    → Rewired g E' h
Rewired-after {g} {g1} {h} r s e = record {
  same = s.same ∙ ap (λ x. with_adj_list x h.adj_list) r.same;
  keyed = s.keyed;
  keys = λ k p. s.keys k (r.keys k p);
  edges = λ a b. s.edges a b ∙ e a b;
}

has_key-insert :
    (k j : ℕ) (v : List ℕ) (m : List (ℕ × List ℕ))
    → is_some (lookup j m) ≡ true
    → is_some (lookup j (insert k v m)) ≡ true
has_key-insert k j v m h = rw (lookup-insert k j v m) (ground arith)

module _ (from to : ℕ) (g : Cfg) (keyed : IsMap g.adj_list) where
  -- An edge with a vector to take it from is taken away.
  remove_flow_edge-Rewired :
      (l : List ℕ)
      → lookup from g.adj_list ≡ some l
      → (h : Cfg) × (remove_flow_edge from to g ≡ some (tt, h))
        × Rewired g (λ a b. edge g a b && not (from == a && to == b)) h
  unfolding remove_flow_edge remove_raw_directed_edge raw_successors
  remove_flow_edge-Rewired l e = (
    with_adj_list g (insert from (retain_ne to l) g.adj_list),
    rw (remove_flow_edge, remove_raw_directed_edge, e) refl,
    record {
      same = refl;
      keyed = insert-IsMap from (retain_ne to l) g.adj_list keyed;
      keys = λ k p. has_key-insert from k _ g.adj_list p;
      edges = λ a b.
          ap (λ o. contains (or_nil o) b) (lookup-insert from a (retain_ne to l) g.adj_list)
          ∙ kept a b;
    },
  )
    where
      kept :
          (a b : ℕ)
          → contains (or_nil (if from == a then some (retain_ne to l) else lookup a g.adj_list)) b
            ≡ (contains (or_nil (lookup a g.adj_list)) b && not (from == a && to == b))
      kept a b = elim (Bool-cases (from == a)) [
        | inl same ↦ rw (same, ← (==_iff from a).0 same, e) (contains-retain_ne to l b)
        | inr other ↦ rw other (ground arith)
      ]

  add_flow_edge-Rewired :
      Rewired g (λ a b. edge g a b || (from == a && to == b)) (add_raw_directed_edge from to g)
  add_flow_edge-Rewired = record {
    same = unfold add_raw_directed_edge in refl;
    keyed = unfold add_raw_directed_edge in insert-IsMap from _ g.adj_list keyed;
    keys = λ k p. unfold add_raw_directed_edge in has_key-insert from k _ g.adj_list p;
    edges = λ a b. edge-add from to a b g;
  }

add_flow_edge-runs :
    (from to : ℕ) (g : Cfg) → add_flow_edge from to g ≡ some (tt, add_raw_directed_edge from to g)
unfolding add_flow_edge
add_flow_edge-runs from to g = refl

module _ (from to : ℕ → ℕ) where
  pub remove_each-Rewired :
      (xs : List ℕ) (g : Cfg)
      → IsMap g.adj_list
      → All (λ x. has_key g (from x) ≡ true) xs
      → Returns
          (λ _ h. Rewired g (λ a b. edge g a b && not (any_edge from to xs a b)) h)
          (for_each (λ x. remove_flow_edge (from x) (to x)) xs g)
  unfolding for_each
  remove_each-Rewired [] g keyed h = Returns-pure _ _ (Rewired-self g _ keyed (λ a b. ground arith))
  remove_each-Rewired (x ∷ xs) g keyed h = elim (Option-cases (lookup (from x) g.adj_list)) [
    | inl missing ↦ ground (arith, missing, h.0)
    | inr (l, e) ↦
        let (g1, run, r) = remove_flow_edge-Rewired (from x) (to x) g keyed l e in
        Returns-step _ _ _ _ g1 run (
          Returns-weaken (λ _ h1 s. Rewired-after r s (λ a b. rw (r.edges a b) (ground arith))) _
            (remove_each-Rewired xs g1 r.keyed (All-map (λ y. r.keys (from y)) xs h.1)))
  ]

  pub add_each-Rewired :
      (xs : List ℕ) (g : Cfg)
      → IsMap g.adj_list
      → Returns
          (λ _ h. Rewired g (λ a b. edge g a b || any_edge from to xs a b) h)
          (for_each (λ x. add_flow_edge (from x) (to x)) xs g)
  unfolding for_each
  add_each-Rewired [] g keyed = Returns-pure _ _ (Rewired-self g _ keyed (λ a b. ground arith))
  add_each-Rewired (x ∷ xs) g keyed =
      let r = add_flow_edge-Rewired (from x) (to x) g keyed in
      Returns-step _ _ _ _ _ (add_flow_edge-runs (from x) (to x) g) (
        Returns-weaken (λ _ h1 s. Rewired-after r s (λ a b. rw (r.edges a b) (ground arith))) _
          (add_each-Rewired xs _ r.keyed))
