-- ===== src/Graph/Visit/Order.antt =====
-- The order of the visits of a search: it does not depend on the visitor, and has each node that the
-- search reaches once.
use aderyn.Prelude.{
  ℕ, zero, suc, ◌+◌, ◌<◌, true, false, ◌||◌, Option, some, List, [], ◌∷◌, ◌++◌, ◌≡◌, refl, ◌∙◌, sym,
  arith, ◌==◌, Bool-cases, Option-cases, inl, inr, ==_iff, contains, contains-append, length, subst,
}
use aderyn.Prelude.Leads.{Leads, here, step}
use aderyn.Prelude.Assoc.{lookup}
use aderyn.Prelude.Unvisited.{left, left-le, left-visit, left-length}
use aderyn.Workspace.Context.{RawCallGraph}
use aderyn.Graph.Raw.{connected, targets, IsDistinct}
use aderyn.Graph.Consumer.{Error, Outcome, ok, err, ◌>=>◌}
use aderyn.Graph.Visit.{
  Walk, ◌>>=◌, with_visited, for_destinations, dfs_and_visit_subgraph, for_points, visit_all,
}

-- A search did what visits in a row do: both end well, or with the same error and visitor.
pub data Follows {S : Type 0} (v : List ℕ) : Option (Outcome (Walk S)) → Outcome S → Type 0 where
  done : (s : S) → Follows v (some (ok (record { visited = v; visitor = s }))) (ok s)
  stopped : (e : Error) (w : Walk S) → Follows v (some (err e w)) (err e w.visitor)

Follows->>= :
    {S : Type 0} {v v' : List ℕ} {r : Option (Outcome (Walk S))} {o : Outcome S}
    (f : Walk S → Option (Outcome (Walk S))) (h : S → Outcome S)
    → Follows v r o
    → ((s : S) → Follows v' (f (record { visited = v; visitor = s })) (h s))
    → Follows v' (r >>= f) (o >=> h)
Follows->>= f h (done s) k = k s
Follows->>= f h (stopped e w) k = stopped e w

Follows-with_visited :
    {S : Type 0} (v : List ℕ) (o : Outcome S) → Follows v (some (with_visited v o)) o
Follows-with_visited v (ok s) = done s
Follows-with_visited v (err e s) = stopped e (record { visited = v; visitor = s })

>=>_assoc :
    {A : Type 0} (o : Outcome A) (f g h : A → Outcome A)
    → ((a : A) → f a ≡ (g a >=> h))
    → (o >=> f) ≡ ((o >=> g) >=> h)
>=>_assoc (ok a) f g h e = e a
>=>_assoc (err x a) f g h e = refl

visit_all-append :
    {S : Type 0} (visit : ℕ → S → Outcome S) (xs ys : List ℕ) (s : S)
    → visit_all visit (xs ++ ys) s ≡ (visit_all visit xs s >=> visit_all visit ys)
visit_all-append visit [] ys s = refl
visit_all-append visit (x ∷ xs) ys s =
    >=>_assoc (visit x s) (visit_all visit (xs ++ ys)) (visit_all visit xs) (visit_all visit ys)
      (visit_all-append visit xs ys)

-- What a search from `points` visits, in order, of what `v` has not.
pub record Walked (g : RawCallGraph) (points v order v' : List ℕ) : Type 0 where
  pub members : (k : ℕ) → contains v' k ≡ (contains v k || contains order k)
  pub new : (k : ℕ) → contains order k ≡ true → contains v k ≡ false
  pub distinct : IsDistinct order
  pub reached :
      (k : ℕ)
      → contains order k ≡ true
      → (p : ℕ) × (contains points p ≡ true) × Leads (connected g) p k
  pub closed : (k b : ℕ) → contains order k ≡ true → connected g k b ≡ true → contains v' b ≡ true
  pub started : (p : ℕ) → contains points p ≡ true → contains v' p ≡ true

IsDistinct-append :
    (xs ys : List ℕ)
    → IsDistinct xs
    → IsDistinct ys
    → ((k : ℕ) → contains ys k ≡ true → contains xs k ≡ false)
    → IsDistinct (xs ++ ys)
IsDistinct-append [] ys dx dy f = dy
IsDistinct-append (x ∷ xs) ys (n, dx) dy f = (
  contains-append xs ys x ∙ ground (arith, n, f x),
  IsDistinct-append xs ys dx dy (λ k h. ground (arith, f k h)),
)

module _ (g : RawCallGraph) where
  pub Walked-none : (v : List ℕ) → Walked g [] v [] v
  Walked-none v = record {
    members = λ k. ground arith;
    new = λ k h. cc;
    distinct = tt;
    reached = λ k h. cc;
    closed = λ k b h e. cc;
    started = λ p h. cc;
  }

  -- one point, and then the others
  Walked-then :
      (c : ℕ) (cs v o1 v1 o2 v2 : List ℕ)
      → Walked g (c ∷ []) v o1 v1
      → Walked g cs v1 o2 v2
      → Walked g (c ∷ cs) v (o1 ++ o2) v2
  Walked-then c cs v o1 v1 o2 v2 x y = record {
    members = λ k. y.members k ∙ rw (x.members k, contains-append o1 o2 k) (ground arith);
    new = λ k h. elim (Bool-cases (contains o1 k)) [
      | inl first ↦ x.new k first
      | inr later ↦
          let second : contains o2 k ≡ true = ground (arith, (contains-append o1 o2 k), h, later) in
          ground (arith, y.new k second, x.members k)
    ];
    distinct =
        IsDistinct-append o1 o2 x.distinct y.distinct
          (λ k h. ground (arith, y.new k h, x.members k));
    reached = λ k h. elim (Bool-cases (contains o1 k)) [
      | inl first ↦ let (p, q, l) = x.reached k first in (p, ground (arith, q), l)
      | inr later ↦
          let second : contains o2 k ≡ true = ground (arith, (contains-append o1 o2 k), h, later) in
          let (p, q, l) = y.reached k second in (p, ground (arith, q), l)
    ];
    closed = λ k b h e. elim (Bool-cases (contains o1 k)) [
      | inl first ↦ ground (arith, y.members b, x.closed k b first e)
      | inr later ↦
          let second : contains o2 k ≡ true = ground (arith, (contains-append o1 o2 k), h, later) in
          y.closed k b second e
    ];
    started = λ p h. elim (Bool-cases (c == p)) [
      | inl same ↦ ground (arith, y.members p, x.started p (ground (arith, same)))
      | inr other ↦ y.started p (ground (arith, h, other))
    ];
  }

  -- a node, and then what it is connected to
  Walked-node :
      (c : ℕ) (v order v' : List ℕ)
      → contains v c ≡ false
      → Walked g (targets (lookup c g)) (c ∷ v) order v'
      → Walked g (c ∷ []) v (c ∷ order) v'
  Walked-node c v order v' unseen x = record {
    members = λ k. x.members k ∙ ground arith;
    new = λ k h. elim (Bool-cases (c == k)) [
      | inl same ↦ rw (← (==_iff c k).0 same) unseen
      | inr other ↦ ground (arith, x.new k (ground (arith, h, other)))
    ];
    distinct = (
      elim (Bool-cases (contains order c)) [
        | inl again ↦ ground (arith, x.new c again)
        | inr once ↦ once
      ],
      x.distinct,
    );
    reached = λ k h. elim (Bool-cases (c == k)) [
      | inl same ↦ (c, ground arith, rw (← (==_iff c k).0 same) here)
      | inr other ↦
          let (p, q, l) = x.reached k (ground (arith, h, other)) in (c, ground arith, step q l)
    ];
    closed = λ k b h e. elim (Bool-cases (c == k)) [
      | inl same ↦ x.started b (rw (← (==_iff c k).0 same) at e)
      | inr other ↦ x.closed k b (ground (arith, h, other)) e
    ];
    started = λ p h. x.members p ∙ ground (arith, h);
  }

  Walked-seen : (c : ℕ) (v : List ℕ) → contains v c ≡ true → Walked g (c ∷ []) v [] v
  Walked-seen c v seen = record {
    members = λ k. ground arith;
    new = λ k h. cc;
    distinct = tt;
    reached = λ k h. cc;
    closed = λ k b h e. cc;
    started = λ p h. rw (← (==_iff c p).0 (ground (arith, h))) seen;
  }

-- a search that visits in an order which does not depend on the visitor's state
abbrev pub Orders :
    {S : Type 0}
    → RawCallGraph
    → (ℕ → S → Outcome S)
    → List ℕ
    → List ℕ
    → (Walk S → Option (Outcome (Walk S)))
    → Type 0
Orders {S} g visit points v search =
    (order : List ℕ) × (v' : List ℕ) × Walked g points v order v'
    × ((s : S)
        → Follows v' (search (record { visited = v; visitor = s })) (visit_all visit order s))

module _ {S : Type 0} (g : RawCallGraph) (visit : ℕ → S → Outcome S) where
  abbrev Visits : ℕ → (ℕ → Walk S → Option (Outcome (Walk S))) → Type 0
  Visits fuel dfs = (c : ℕ) (v : List ℕ) → left g v < fuel → Orders g visit (c ∷ []) v (dfs c)

  for_destinations-Orders :
      (fuel : ℕ) (dfs : ℕ → Walk S → Option (Outcome (Walk S)))
      → Visits fuel dfs
      → (cs v : List ℕ) → left g v < fuel
      → Orders g visit cs v (for_destinations dfs cs)
  unfolding for_destinations
  for_destinations-Orders fuel dfs ok' [] v l = ([], v, Walked-none g v, λ s. done s)
  for_destinations-Orders fuel dfs ok' (c ∷ cs) v l =
      let (o1, v1, x, run) = ok' c v l in
      let (o2, v2, y, run') =
        for_destinations-Orders fuel dfs ok' cs v1
          (omega (arith, l, left-le g v v1 (λ k h. x.members k ∙ ground (arith, h)))) in
      (
        o1 ++ o2,
        v2,
        Walked-then g c cs v o1 v1 o2 v2 x y,
        λ s.
            subst (Follows v2 _) (sym (visit_all-append visit o1 o2 s))
              (Follows->>= (for_destinations dfs cs) (visit_all visit o2) (run s) run'),
      )

  dfs_and_visit_subgraph-Visits : (fuel : ℕ) → Visits fuel (dfs_and_visit_subgraph visit g fuel)
  unfolding dfs_and_visit_subgraph
  dfs_and_visit_subgraph-Visits zero c v l = absurd (omega (arith, l))
  dfs_and_visit_subgraph-Visits (suc fuel) c v l = elim (Bool-cases (contains v c)) [
    | inl seen ↦ ([], v, Walked-seen g c v seen, λ s. rw seen (done s))
    | inr unseen ↦ elim (Option-cases (lookup c g)) [
      | inl leaf ↦ (
        c ∷ [],
        c ∷ v,
        Walked-node g c v [] (c ∷ v) unseen (rw leaf (Walked-none g (c ∷ v))),
        λ s.
            rw (unseen, leaf)
              (Follows->>= (λ w. some (ok w)) ok (Follows-with_visited (c ∷ v) (visit c s)) done),
      )
      | inr (tos, at) ↦
          let (order, v', x, run) =
            for_destinations-Orders fuel (dfs_and_visit_subgraph visit g fuel)
              (dfs_and_visit_subgraph-Visits fuel) tos (c ∷ v)
              (omega (arith, l, left-visit g v c (rw at refl) unseen)) in
          (
            c ∷ order,
            v',
            Walked-node g c v order v' unseen (rw at x),
            λ s.
                rw (unseen, at)
                  (Follows->>= (for_destinations (dfs_and_visit_subgraph visit g fuel) tos)
                    (visit_all visit order) (Follows-with_visited (c ∷ v) (visit c s)) run),
          )
    ]
  ]

  pub for_points-Orders : (points : List ℕ) → Orders g visit points [] (for_points visit g points)
  unfolding for_points
  for_points-Orders points =
      for_destinations-Orders (length g + 1) (dfs_and_visit_subgraph visit g (length g + 1))
        (dfs_and_visit_subgraph-Visits (length g + 1)) points [] (omega (arith, left-length g []))

-- The nodes that a graph leads to from some points, each once.
pub record IsOrder (g : RawCallGraph) (points order : List ℕ) : Type 0 where
  pub distinct : IsDistinct order
  pub reached :
      (k : ℕ)
      → contains order k ≡ true
      → (p : ℕ) × (contains points p ≡ true) × Leads (connected g) p k
  pub complete :
      (p k : ℕ) → contains points p ≡ true → Leads (connected g) p k → contains order k ≡ true

pub Walked-IsOrder :
    (g : RawCallGraph) (points order v' : List ℕ)
    → Walked g points [] order v'
    → IsOrder g points order
Walked-IsOrder g points order v' x = record {
  distinct = x.distinct;
  reached = x.reached;
  complete = λ p k h l. along (sym (x.members p) ∙ x.started p h) l;
}
  where
    along : {a k : ℕ} → contains order a ≡ true → Leads (connected g) a k → contains order k ≡ true
    along h here = h
    along h (step {a} {b} e p) = along (sym (x.members b) ∙ x.closed a b h e) p

-- A search of the call graph from its surface points, with one more fuel than the graph has entries, does
-- what the visits in one order do, errors included: it has each node that the points lead to exactly once,
-- and does not depend on the state that the visitor starts in.
pub for_points-IsOrder :
    {S : Type 0} (g : RawCallGraph) (visit : ℕ → S → Outcome S) (points : List ℕ)
    → (order : List ℕ) × IsOrder g points order
      × ((s : S)
          → (v' : List ℕ) × Follows v'
              (for_points visit g points (record { visited = []; visitor = s }))
              (visit_all visit order s))
for_points-IsOrder g visit points =
    let (order, v', x, run) = for_points-Orders g visit points in
    (order, Walked-IsOrder g points order v' x, λ s. (v', run s))
