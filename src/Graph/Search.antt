-- ===== src/Graph/Search.antt =====
-- What both ways to build a call graph (aderyn_core/src/context/graph/preprocess) aim at: the nodes that
-- the roots lead to, each connected to what it uses.
use aderyn.Prelude.{
  ℕ, Bool, true, false, not, ◌&&◌, ◌||◌, List, [], ◌∷◌, ◌++◌, ◌≡◌, refl, ◌∙◌, sym, arith, ◌==◌,
  Bool-cases, inl, inr, ==_iff, contains, contains-append,
}
use aderyn.Prelude.Leads.{Leads, here, step}
use aderyn.Prelude.Assoc.{lookup}
use aderyn.Workspace.Context.{RawCallGraph}
use aderyn.Graph.Raw.{
  create_connection_if_not_exists, connected, IsSimple, IsSimple-empty, connected-create_connection,
  create_connection-IsSimple,
}

pub record Search : Type 0 where
  pub raw_callgraph : RawCallGraph
  pub visited : List ℕ

abbrev pub fresh : Search
fresh = record { raw_callgraph = []; visited = [] }

unfoldable pub connecting : ℕ → ℕ → Search → Search
connecting from to s = record s {
  raw_callgraph = create_connection_if_not_exists from to s.raw_callgraph;
}

-- `uses` gives what a node calls or invokes.
module _ (uses : ℕ → List ℕ) where
  abbrev pub uses_it : ℕ → ℕ → Bool
  uses_it a b = contains (uses a) b

  -- A search that is done from each of `roots`: it has visited no more than these lead to, has left out
  -- nothing that a visited node uses, and has connected each visited node to what it uses.
  pub record Done (roots : List ℕ) (s : Search) : Type 0 where
    pub only :
        (k : ℕ)
        → contains s.visited k ≡ true
        → (r : ℕ) × (contains roots r ≡ true) × Leads uses_it r k
    pub closed :
        (k b : ℕ) → contains s.visited k ≡ true → uses_it k b ≡ true → contains s.visited b ≡ true
    pub started : (r : ℕ) → contains roots r ≡ true → contains s.visited r ≡ true
    pub edges : (k b : ℕ) → connected s.raw_callgraph k b ≡ (contains s.visited k && uses_it k b)
    pub simple : IsSimple s.raw_callgraph

  pub Done-fresh : Done [] fresh
  Done-fresh = record {
    only = λ k v. cc;
    closed = λ k b v e. cc;
    started = λ r v. cc;
    edges = λ k b. unfold lookup in refl;
    simple = IsSimple-empty;
  }

  pub Leads-visited :
      {roots : List ℕ} (s : Search)
      → Done roots s
      → {a k : ℕ} → contains s.visited a ≡ true
      → Leads uses_it a k
      → contains s.visited k ≡ true
  Leads-visited s d v here = v
  Leads-visited s d v (step {a} {b} e p) = Leads-visited s d (d.closed a b v e) p

  -- What a search from `a` does, where `rs` is what it connects `a` to besides.
  pub record Explored (a : ℕ) (rs : List ℕ) (s s' : Search) : Type 0 where
    pub grows : (k : ℕ) → contains s.visited k ≡ true → contains s'.visited k ≡ true
    pub reached :
        (k : ℕ) → contains s'.visited k ≡ true → contains s.visited k ≡ false → Leads uses_it a k
    pub closed :
        (k b : ℕ)
        → contains s'.visited k ≡ true
        → contains s.visited k ≡ false
        → uses_it k b ≡ true
        → contains s'.visited b ≡ true
    pub edges :
        (k b : ℕ)
        → connected s'.raw_callgraph k b ≡ (
            (connected s.raw_callgraph k b || (a == k && contains rs b))
            || ((contains s'.visited k && not (contains s.visited k)) && uses_it k b))
    pub simple : IsSimple s.raw_callgraph → IsSimple s'.raw_callgraph

  pub Explored-self : (a : ℕ) (s : Search) → Explored a [] s s
  Explored-self a s = record {
    grows = λ k p. p;
    reached = λ k p o. ground (arith, p, o);
    closed = λ k b p o e. ground (arith, p, o);
    edges = λ k b. ground arith;
    simple = λ h. h;
  }

  -- something that `a` uses, and then the others
  pub Explored-then :
      {a c : ℕ} (rs : List ℕ) {s s1 s2 : Search}
      → uses_it a c ≡ true
      → Explored c [] (connecting a c s) s1
      → Explored a rs s1 s2
      → Explored a (c ∷ rs) s s2
  unfolding connecting
  Explored-then {a} {c} rs {s = s} {s1 = s1} e x y = record {
    grows = λ k p. y.grows k (x.grows k p);
    reached = λ k p o. elim (Bool-cases (contains s1.visited k)) [
      | inl v ↦ step e (x.reached k v o)
      | inr u ↦ y.reached k p u
    ];
    closed = λ k b p o f. elim (Bool-cases (contains s1.visited k)) [
      | inl v ↦ y.grows b (x.closed k b v o f)
      | inr u ↦ y.closed k b p u f
    ];
    edges = λ k b.
        y.edges k b
        ∙ rw (x.edges k b, connected-create_connection a c s.raw_callgraph k b)
            (ground (arith, x.grows k, y.grows k));
    simple = λ h. y.simple (x.simple (create_connection-IsSimple a c s.raw_callgraph h));
  }

  pub Explored-append :
      {a : ℕ} (rs qs : List ℕ) {s s1 s2 : Search}
      → Explored a rs s s1
      → Explored a qs s1 s2
      → Explored a (rs ++ qs) s s2
  Explored-append {a} rs qs {s1 = s1} x y = record {
    grows = λ k p. y.grows k (x.grows k p);
    reached = λ k p o. elim (Bool-cases (contains s1.visited k)) [
      | inl v ↦ x.reached k v o
      | inr u ↦ y.reached k p u
    ];
    closed = λ k b p o f. elim (Bool-cases (contains s1.visited k)) [
      | inl v ↦ y.grows b (x.closed k b v o f)
      | inr u ↦ y.closed k b p u f
    ];
    edges = λ k b.
        y.edges k b
        ∙ rw (x.edges k b, contains-append rs qs b) (ground (arith, x.grows k, y.grows k));
    simple = λ h. y.simple (x.simple h);
  }

  -- a root of which the search is done, and the roots before it
  pub Done-Explored :
      {roots : List ℕ} {a : ℕ} {s s' : Search}
      → Done roots s
      → Explored a [] s s'
      → contains s'.visited a ≡ true
      → Done (a ∷ roots) s'
  Done-Explored {roots} {a} {s} d x v = record {
    only = λ k p. elim (Bool-cases (contains s.visited k)) [
      | inl old ↦ let (r, h, l) = d.only k old in (r, ground (arith, h), l)
      | inr new ↦ (a, ground arith, x.reached k p new)
    ];
    closed = λ k b p e. elim (Bool-cases (contains s.visited k)) [
      | inl old ↦ x.grows b (d.closed k b old e)
      | inr new ↦ x.closed k b p new e
    ];
    started = λ r h. elim (Bool-cases (a == r)) [
      | inl same ↦ rw (← (==_iff a r).0 same) v
      | inr other ↦ x.grows r (d.started r (ground (arith, h, other)))
    ];
    edges = λ k b. x.edges k b ∙ rw (d.edges k b) (ground (arith, x.grows k));
    simple = x.simple d.simple;
  }

  pub Done-same :
      (roots roots' : List ℕ) {s : Search}
      → ((k : ℕ) → contains roots k ≡ contains roots' k)
      → Done roots s
      → Done roots' s
  Done-same roots roots' f d = record {
    only = λ k p. let (r, h, l) = d.only k p in (r, sym (f r) ∙ h, l);
    closed = d.closed;
    started = λ r h. d.started r (f r ∙ h);
    edges = d.edges;
    simple = d.simple;
  }

  -- The call graph of `roots`: it connects the nodes that these lead to with what they use, and no others.
  pub record IsCallGraph (roots : List ℕ) (g : RawCallGraph) : Type 0 where
    pub simple : IsSimple g
    pub only :
        (a b : ℕ)
        → connected g a b ≡ true
        → (r : ℕ) × (contains roots r ≡ true) × Leads uses_it r a × (uses_it a b ≡ true)
    pub complete :
        (r a b : ℕ)
        → contains roots r ≡ true
        → Leads uses_it r a
        → uses_it a b ≡ true
        → connected g a b ≡ true

  pub Done-IsCallGraph :
      {roots : List ℕ} (s : Search) → Done roots s → IsCallGraph roots s.raw_callgraph
  Done-IsCallGraph s d = record {
    simple = d.simple;
    only = λ a b c.
        let both : (contains s.visited a && uses_it a b) ≡ true = sym (d.edges a b) ∙ c in
        let (r, h, l) = d.only a (ground (arith, both)) in (r, h, l, ground (arith, both));
    complete = λ r a b h l u. d.edges a b ∙ rw (Leads-visited s d (d.started r h) l, u) refl;
  }
