-- ===== src/Flow/Reduce/Replace.antt =====
-- `Cfg::reduce` replaces a reducible node by its template, and redirects its edges.
pub mod Run
use aderyn.Prelude.{
  ℕ, suc, ◌+◌, Bool, true, not, ◌&&◌, ◌||◌, none, List, [], ◌∷◌, ◌++◌, ◌≡◌, subst, ◌≤◌, refl, ap,
  ◌∙◌, arith, ◌==◌, if◌then◌else◌, contains, is_some, Bool-cases, inl, inr, All, length,
  contains-append,
}
use aderyn.Prelude.Assoc.{lookup, remove, lookup-remove}
use aderyn.Flow.Cfg.{Cfg, raw_predecessors, pointing_to, raw_successors, remove_raw_edges_involving}
use aderyn.Flow.Cfg.Template.{
  Template, PairMap, pairs_of, nodes_over, pairs_over, targets, queue_of, start_end, start_cond,
  start_loop, loop_start, cond_start,
}
use aderyn.Flow.Cfg.Built.{Built, IsFresh}
use aderyn.Flow.Cfg.Edges.{
  edge, contains-raw_predecessors, edge-remove_involving, keyed-remove_involving,
}
use aderyn.Flow.Reduce.Rewire.{Rewired, with_adj_list, any_edge}

-- The edges afterwards: the old ones and the template's; a predecessor of `c` leads to the start, and
-- the end to the successors of `c`. No edge touches `c`.
abbrev pub replaced_edge : Cfg → ℕ → Template → ℕ → ℕ → Bool
replaced_edge g c t a b =
    let n = g.next_available_id in
    (edge g a b
      || (contains (targets n a t.edges) b
          || ((edge g a c && n == b) || (suc n == a && edge g c b))))
    && (not (c == a) && not (c == b))

-- `h` is `g` with the template in place of the node `c`.
pub record Replaced (g : Cfg) (c : ℕ) (t : Template) (h : Cfg) : Type 0 where
  pub fresh : IsFresh h
  pub next : h.next_available_id ≡ g.next_available_id + length t.nodes
  pub queue : h.reduction_queue ≡ g.reduction_queue ++ queue_of g.next_available_id t.nodes
  pub nodes :
      (k : ℕ)
      → lookup k h.nodes
        ≡ nodes_over g.next_available_id k t.nodes (if c == k then none else lookup k g.nodes)
  pub edges : (a b : ℕ) → edge h a b ≡ replaced_edge g c t a b
  pub pairs :
      (p : PairMap) (k : ℕ)
      → lookup k (pairs_of p h)
        ≡ pairs_over p g.next_available_id k t.pairs (lookup k (pairs_of p g))

any_edge-from :
    (k : ℕ) (xs : List ℕ) (a b : ℕ) → any_edge (λ x. x) (λ _. k) xs a b ≡ (contains xs a && k == b)
any_edge-from k [] a b = refl
any_edge-from k (x ∷ xs) a b = ground (arith, any_edge-from k xs a b)

any_edge-to :
    (k : ℕ) (ys : List ℕ) (a b : ℕ) → any_edge (λ _. k) (λ x. x) ys a b ≡ (k == a && contains ys b)
any_edge-to k [] a b = ground arith
any_edge-to k (y ∷ ys) a b = ground (arith, any_edge-to k ys a b)

pointing_to-has_key :
    (c : ℕ) (m m' : List (ℕ × List ℕ))
    → ((k : ℕ) → is_some (lookup k m) ≡ true → is_some (lookup k m') ≡ true)
    → All (λ x. is_some (lookup x m') ≡ true) (pointing_to c m)
unfolding pointing_to lookup
pointing_to-has_key c [] m' f = tt
pointing_to-has_key c ((k, l) ∷ m) m' f =
    let rest = pointing_to-has_key c m m' (λ j h. f j (ground (arith, h))) in
    elim (Bool-cases (contains l c)) [
      | inl here ↦ rw here (f k (ground arith), rest)
      | inr there ↦ rw there rest
    ]

repeated-All : (f : ℕ → Bool) (k : ℕ) (ys : List ℕ) → f k ≡ true → All (λ _. f k ≡ true) ys
repeated-All f k [] h = tt
repeated-All f k (y ∷ ys) h = (h, repeated-All f k ys h)

pairs-with_adj_list :
    (p : PairMap) (g : Cfg) (m : List (ℕ × List ℕ)) → pairs_of p (with_adj_list g m) ≡ pairs_of p g
pairs-with_adj_list start_end g m = refl
pairs-with_adj_list start_cond g m = refl
pairs-with_adj_list start_loop g m = refl
pairs-with_adj_list loop_start g m = refl
pairs-with_adj_list cond_start g m = refl

abbrev without_node : ℕ → Cfg → Cfg
without_node c g = record g { nodes = remove c g.nodes }

pairs-without_node : (p : PairMap) (c : ℕ) (g : Cfg) → pairs_of p (without_node c g) ≡ pairs_of p g
pairs-without_node start_end c g = refl
pairs-without_node start_cond c g = refl
pairs-without_node start_loop c g = refl
pairs-without_node loop_start c g = refl
pairs-without_node cond_start c g = refl

successors-without_node :
    (c : ℕ) (g : Cfg) (a : ℕ) → raw_successors (without_node c g) a ≡ raw_successors g a
unfolding raw_successors
successors-without_node c g a = refl

-- the four loops and the template between them
module _ (g g1 g2 : Cfg) (c : ℕ) (fresh : IsFresh g)
    (r1 : Rewired
      (without_node c g)
      (λ a b.
        edge (without_node c g) a b && not (any_edge (λ x. x) (λ _. c) (raw_predecessors g c) a b))
      g1)
    (r2 : Rewired g1
      (λ a b. edge g1 a b && not (any_edge (λ _. c) (λ x. x) (raw_successors g c) a b))
      g2) where
  same2 : g2 ≡ with_adj_list (without_node c g) g2.adj_list
  same2 = r2.same ∙ ap (λ x. with_adj_list x g2.adj_list) r1.same

  next2 : g2.next_available_id ≡ g.next_available_id
  next2 = ap (λ (x : Cfg). x.next_available_id) same2

  nodes_after : (k : ℕ) → lookup k g2.nodes ≡ (if c == k then none else lookup k g.nodes)
  nodes_after k = ap (λ (x : Cfg). lookup k x.nodes) same2 ∙ lookup-remove c k g.nodes

  fresh2 : IsFresh g2
  fresh2 = record {
    unused = λ k h. nodes_after k ∙ rw (fresh.unused k (subst (λ n. n ≤ k) next2 h)) (ground arith);
    keyed = r2.keyed;
  }

  module _ (g3 g4 g5 : Cfg) (t : Template) (b3 : Built g2 t g3)
      (r4 : Rewired g3
        (λ a b.
          edge g3 a b
          || any_edge (λ x. x) (λ _. g2.next_available_id + 0) (raw_predecessors g c) a b)
        g4)
      (r5 : Rewired g4
        (λ a b.
          edge g4 a b || any_edge (λ _. g2.next_available_id + 1) (λ x. x) (raw_successors g c) a b)
        g5) where
    same5 :
        remove_raw_edges_involving c g5
        ≡ with_adj_list g3 (remove_raw_edges_involving c g5).adj_list
    unfolding remove_raw_edges_involving
    same5 =
        ap (λ x. with_adj_list x (remove_raw_edges_involving c g5).adj_list)
          (r5.same ∙ ap (λ x. with_adj_list x g5.adj_list) r4.same)

    edges_after : (a b : ℕ) → edge (remove_raw_edges_involving c g5) a b ≡ replaced_edge g c t a b
    edges_after a b =
        let p = contains-raw_predecessors c a g fresh.keyed in
        edge-remove_involving c a b g5
        ∙ rw
            (
              r5.edges a b,
              r4.edges a b,
              any_edge-from (g2.next_available_id + 0) (raw_predecessors g c) a b,
              any_edge-to (g2.next_available_id + 1) (raw_successors g c) a b,
              p,
              b3.edges a,
              contains-append (raw_successors g2 a),
              r2.edges a b,
              r1.edges a b,
              successors-without_node c g a,
              any_edge-from c (raw_predecessors g c) a b,
              any_edge-to c (raw_successors g c) a b,
              p,
              next2,
            )
            (ground arith)

    replaced : Replaced g c t (remove_raw_edges_involving c g5)
    replaced = record {
      fresh = record {
        unused = λ k h.
            ap (λ (x : Cfg). lookup k x.nodes) same5
            ∙ b3.fresh.unused k (subst (λ (x : Cfg). x.next_available_id ≤ k) same5 h);
        keyed = keyed-remove_involving c g5 r5.keyed;
      };
      next =
          ap (λ (x : Cfg). x.next_available_id) same5
          ∙ b3.next
          ∙ ap (λ n. n + length t.nodes) next2;
      queue =
          ap (λ (x : Cfg). x.reduction_queue) same5
          ∙ b3.queue
          ∙ rw next2
              (ap (λ (x : Cfg). x.reduction_queue ++ queue_of g.next_available_id t.nodes) same2);
      nodes = λ k.
          ap (λ (x : Cfg). lookup k x.nodes) same5 ∙ b3.nodes k ∙ rw (next2, nodes_after k) refl;
      edges = edges_after;
      pairs = λ p k.
          ap (λ x. lookup k (pairs_of p x)) same5
          ∙ ap (lookup k) (pairs-with_adj_list p g3 _)
          ∙ b3.pairs p k
          ∙ ap (λ n. pairs_over p n k t.pairs (lookup k (pairs_of p g2))) next2
          ∙ ap (λ x. pairs_over p g.next_available_id k t.pairs (lookup k (pairs_of p x))) same2
          ∙ ap (λ m. pairs_over p g.next_available_id k t.pairs (lookup k m))
              (pairs-with_adj_list p (without_node c g) _ ∙ pairs-without_node p c g);
    }
