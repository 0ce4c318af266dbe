-- ===== src/Graph/Visit/Accept.antt =====
-- What `_accept` visits, in which order.
use aderyn.Prelude.{
  ℕ, Bool, true, false, not, ◌&&◌, ◌||◌, Option, none, some, List, [], ◌∷◌, ◌++◌, ◌≡◌, refl, ap,
  ◌∙◌, sym, arith, ◌==◌, if◌then◌else◌, Bool-cases, inl, inr, contains, contains-append, ==_iff,
  is_some,
}
use aderyn.Prelude.Leads.{Leads}
use aderyn.Workspace.Context.{WorkspaceContext, RawCallGraph, WorkspaceCallGraphs}
use aderyn.Graph.Raw.{connected, IsDistinct}
use aderyn.Graph.Consumer.{
  CallGraphConsumer, CallGraphVisitor, Outcome, ok, err, ◌>=>◌, CurrentDfsVector,
  outward_side_effect, inward_callgraph_not_available, outward_callgraph_not_available,
}
use aderyn.Graph.Visit.{
  Walk, ◌then_with◌, search_if, unless, visit_all, explore, after_entry_points, accept,
  with_callgraphs, with_inward, with_outward, goes_inward, goes_outward, goes_both, inward_graph,
  outward_graph, make_relevant_visit_call, make_entry_point_visit_call,
}
use aderyn.Graph.Visit.Order.{
  Follows, done, stopped, Walked, Walked-none, for_points-Orders, IsOrder, Walked-IsOrder,
}

abbrev pub points_if : Bool → List ℕ → List ℕ
points_if b points = if b then points else []

search_if-Orders :
    {S : Type 0} (b : Bool) (visit : ℕ → S → Outcome S) (g : RawCallGraph) (points : List ℕ)
    → (order : List ℕ) × (v' : List ℕ) × Walked g (points_if b points) [] order v'
      × ((s : S) → Follows v' (search_if b visit g points s) (visit_all visit order s))
unfolding search_if
search_if-Orders true visit g points = for_points-Orders g visit points
search_if-Orders false visit g points = ([], [], Walked-none g [], λ s. done s)

then_with-eq-some :
    {S : Type 0} {v : List ℕ} {r : Option (Outcome (Walk S))} {o : Outcome S}
    (f : Walk S → Option (Outcome S)) (h : S → Outcome S)
    → Follows v r o
    → ((s : S) → f (record { visited = v; visitor = s }) ≡ some (h s))
    → (r then_with f) ≡ some (o >=> h)
then_with-eq-some f h (done s) k = k s
then_with-eq-some f h (stopped e w) k = refl

>=>-eq :
    {A : Type 0} (o : Outcome A) (f g : A → Outcome A)
    → ((a : A) → f a ≡ g a)
    → (o >=> f) ≡ (o >=> g)
>=>-eq (ok a) f g e = e a
>=>-eq (err x a) f g e = refl

>=>-ok : {A : Type 0} (o : Outcome A) → (o >=> ok) ≡ o
>=>-ok (ok a) = refl
>=>-ok (err x a) = refl

-- the ids that a blacklist lets through
abbrev passed : (ℕ → Bool) → List ℕ → List ℕ
passed p [] = []
passed p (x ∷ xs) = if p x then passed p xs else x ∷ passed p xs

visit_all-unless :
    {S : Type 0} (p : ℕ → Bool) (visit : ℕ → S → Outcome S) (xs : List ℕ) (s : S)
    → visit_all (unless p visit) xs s ≡ visit_all visit (passed p xs) s
visit_all-unless p visit [] s = refl
visit_all-unless p visit (x ∷ xs) s = elim (Bool-cases (p x)) [
  | inl stop ↦ rw stop (visit_all-unless p visit xs s)
  | inr go ↦ rw go (
      >=>-eq (visit x s) (visit_all (unless p visit) xs) (visit_all visit (passed p xs))
        (visit_all-unless p visit xs))
]

contains-passed :
    (p : ℕ → Bool) (xs : List ℕ) (k : ℕ) → contains (passed p xs) k ≡ (contains xs k && not (p k))
contains-passed p [] k = refl
contains-passed p (x ∷ xs) k = elim (Bool-cases (x == k)) [
  | inl same ↦ rw (← (==_iff x k).0 same) (ground (arith, contains-passed p xs x))
  | inr other ↦ ground (arith, other, contains-passed p xs k)
]

passed-IsDistinct : (p : ℕ → Bool) (xs : List ℕ) → IsDistinct xs → IsDistinct (passed p xs)
passed-IsDistinct p [] d = tt
passed-IsDistinct p (x ∷ xs) (n, d) = elim (Bool-cases (p x)) [
  | inl stop ↦ rw stop (passed-IsDistinct p xs d)
  | inr go ↦ rw go (contains-passed p xs x ∙ ground (arith, n), passed-IsDistinct p xs d)
]

-- What `_accept` visits after the entry points: `is` by the inward calls, `os` by the outward ones, and
-- `es` by those for side effects.
pub record Planned (c : CallGraphConsumer) (inward outward : RawCallGraph) (is os es : List ℕ)
    : Type 0 where
  pub inwards : IsOrder inward (points_if (goes_inward c.direction) c.inward_surface_points) is
  pub outwards : IsOrder outward (points_if (goes_outward c.direction) c.outward_surface_points) os
  pub effects_distinct : IsDistinct es
  pub effects_reached :
      (k : ℕ)
      → contains es k ≡ true
      → (p : ℕ) × (contains os p ≡ true) × Leads (connected inward) p k
  pub effects_new :
      (k : ℕ)
      → contains es k ≡ true
      → (contains is k || (contains os k || contains c.entry_points k)) ≡ false
  pub effects_complete :
      goes_both c.direction ≡ true
      → (p k : ℕ) → contains os p ≡ true
      → Leads (connected inward) p k
      → (contains is k || (contains os k || contains c.entry_points k)) ≡ false
      → contains es k ≡ true

contains-points_if :
    (b : Bool) (points : List ℕ) (p : ℕ)
    → contains (points_if b points) p ≡ true
    → contains points p ≡ true
contains-points_if true points p h = h
contains-points_if false points p h = cc

-- the third search starts from what the second visited, and visits what no list holds
Walked-Planned :
    (c : CallGraphConsumer) (inward outward : RawCallGraph) (is v1 os v2 all v3 : List ℕ)
    → Walked inward (points_if (goes_inward c.direction) c.inward_surface_points) [] is v1
    → Walked outward (points_if (goes_outward c.direction) c.outward_surface_points) [] os v2
    → Walked inward (points_if (goes_both c.direction) v2) [] all v3
    → Planned c inward outward is os (passed (contains (v1 ++ v2 ++ c.entry_points)) all)
Walked-Planned c inward outward is v1 os v2 all v3 x1 x2 x3 = record {
  inwards = Walked-IsOrder inward _ is v1 x1;
  outwards = Walked-IsOrder outward _ os v2 x2;
  effects_distinct = passed-IsDistinct held all x3.distinct;
  effects_reached = λ k h.
      let (p, q, l) = x3.reached k (ground (arith, contains-passed held all k, h)) in
      (p, sym (x2.members p) ∙ contains-points_if (goes_both c.direction) v2 p q, l);
  effects_new = λ k h. ground (arith, contains-passed held all k, h, holds k);
  effects_complete = λ both p k h l new.
      let all_order = Walked-IsOrder inward (points_if (goes_both c.direction) v2) all v3 x3 in
      let listed : contains (points_if (goes_both c.direction) v2) p ≡ true =
        rw both (x2.members p ∙ h) in
      ground (arith, contains-passed held all k, all_order.complete p k listed l, holds k, new);
}
  where
    held : ℕ → Bool
    held = contains (v1 ++ v2 ++ c.entry_points)

    holds : (k : ℕ) → held k ≡ (contains is k || (contains os k || contains c.entry_points k))
    holds k =
        contains-append (v1 ++ v2) c.entry_points k
        ∙ ground (arith, contains-append v1 v2 k, x1.members k, x2.members k)

module _ {S : Type 0} (context : WorkspaceContext) (v : CallGraphVisitor S)
    (c : CallGraphConsumer) where
  -- the visits of the plan, up to the first error
  abbrev pub planned_visits : List ℕ → List ℕ → List ℕ → S → Outcome S
  planned_visits is os es s =
      visit_all (make_entry_point_visit_call context v) c.entry_points s >=> λ s1.
      visit_all (make_relevant_visit_call context v CurrentDfsVector.inward) is s1 >=> λ s2.
      visit_all (make_relevant_visit_call context v CurrentDfsVector.outward) os s2 >=> λ s3.
      visit_all (make_relevant_visit_call context v outward_side_effect) es s3

  module _ (inward outward : RawCallGraph) where
    explore-Planned :
        (is : List ℕ) × (os : List ℕ) × (es : List ℕ) × Planned c inward outward is os es
        × ((s : S)
            → explore context v c inward outward s
              ≡ some (
                  visit_all (make_relevant_visit_call context v CurrentDfsVector.inward) is s
                  >=> λ s2.
                      visit_all (make_relevant_visit_call context v CurrentDfsVector.outward) os s2
                      >=> λ s3.
                          visit_all (make_relevant_visit_call context v outward_side_effect) es s3))
    unfolding explore
    explore-Planned =
        let vi = make_relevant_visit_call context v CurrentDfsVector.inward in
        let vo = make_relevant_visit_call context v CurrentDfsVector.outward in
        let ve = make_relevant_visit_call context v outward_side_effect in
        let (is, v1, x1, run1) =
          search_if-Orders (goes_inward c.direction) vi inward c.inward_surface_points in
        let (os, v2, x2, run2) =
          search_if-Orders (goes_outward c.direction) vo outward c.outward_surface_points in
        let held = contains (v1 ++ v2 ++ c.entry_points) in
        let (all, v3, x3, run3) =
          search_if-Orders (goes_both c.direction) (unless held ve) inward v2 in
        (
          is,
          os,
          passed held all,
          Walked-Planned c inward outward is v1 os v2 all v3 x1 x2 x3,
          λ s. then_with-eq-some _ _ (run1 s) (λ s2. then_with-eq-some _ _ (run2 s2) (λ s3.
              then_with-eq-some _ ok (run3 s3) (λ s4. refl)
              ∙ ap some (>=>-ok _ ∙ visit_all-unless held ve all s3))),
        )

  -- When the callgraphs are there, `_accept` returns: it visits the entry points in order, then by inward
  -- calls each node that the inward surface points lead to, by outward calls each that the outward surface
  -- points lead to in the outward graph, and, when it goes both ways, by calls for side effects each node
  -- that those lead to in the inward graph and that was not visited yet. In each group a node is visited
  -- once, and the first error ends the visits.
  pub accept-Planned :
      (callgraphs : WorkspaceCallGraphs) (inward outward : RawCallGraph)
      → context.callgraphs ≡ some callgraphs
      → inward_graph context c callgraphs ≡ some inward
      → outward_graph context c callgraphs ≡ some outward
      → (is : List ℕ) × (os : List ℕ) × (es : List ℕ) × Planned c inward outward is os es
        × ((s : S) → accept context v c s ≡ some (planned_visits is os es s))
  unfolding accept with_callgraphs with_inward with_outward after_entry_points
  accept-Planned callgraphs inward outward h hi ho =
      let (is, os, es, planned, run) = explore-Planned inward outward in
      (
        is,
        os,
        es,
        planned,
        λ s.
            ap (λ o. with_callgraphs context v c o s) h
            ∙ ap (λ o. with_inward context v c callgraphs o s) hi
            ∙ ap (λ o. with_outward context v c inward o s) ho
            ∙ explored inward outward _ run
                (visit_all (make_entry_point_visit_call context v) c.entry_points s),
      )
    where
      explored :
          (inward outward : RawCallGraph) (f : S → Outcome S)
          → ((s : S) → explore context v c inward outward s ≡ some (f s))
          → (o : Outcome S) → after_entry_points context v c inward outward o ≡ some (o >=> f)
      explored inward outward f e (ok s) = e s
      explored inward outward f e (err x s) = refl

  -- When the callgraphs are there, but not the inward or not the outward graph, `_accept` returns the error
  -- for the first of the two that is missing, and the visitor has been called for nothing, not even for the
  -- entry points.
  pub accept-unavailable :
      (callgraphs : WorkspaceCallGraphs)
      → context.callgraphs ≡ some callgraphs
      → (is_some (inward_graph context c callgraphs)
          && is_some (outward_graph context c callgraphs))
        ≡ false
      → (s : S)
      → accept context v c s
        ≡ some (
            err
              (if is_some (inward_graph context c callgraphs)
                then outward_callgraph_not_available
                else inward_callgraph_not_available)
              s)
  unfolding accept with_callgraphs with_inward with_outward
  accept-unavailable callgraphs h missing s =
      ap (λ o. with_callgraphs context v c o s) h
      ∙ refused (inward_graph context c callgraphs) (outward_graph context c callgraphs) refl
          missing
    where
      refused :
          (i o : Option RawCallGraph)
          → outward_graph context c callgraphs ≡ o
          → (is_some i && is_some o) ≡ false
          → with_inward context v c callgraphs i s
            ≡ some (
                err
                  (if is_some i
                    then outward_callgraph_not_available
                    else inward_callgraph_not_available)
                  s)
      refused none o e m = refl
      refused (some i) none e m = ap (λ o. with_outward context v c i o s) e
      refused (some i) (some o) e m = cc
