-- ===== src/Flow/Reduce/Replace/Run.antt =====
-- `Cfg::reduce` runs its four loops and its reducer in turn.
use aderyn.Prelude.{ℕ, ◌+◌, Bool, true, some, ◌≡◌, refl, inl, inr, All, Option-cases}
use aderyn.Prelude.Assoc.{lookup}
use aderyn.Flow.Ast.{Context}
use aderyn.Flow.Node.{CfgNode, CfgNodeDescriptor, is_reducible}
use aderyn.Flow.Cfg.{Cfg, raw_predecessors, raw_successors, remove_raw_edges_involving}
use aderyn.Flow.Cfg.Returns.{Returns, returns, Returns-bind, Returns-step}
use aderyn.Flow.Cfg.Built.{IsFresh}
use aderyn.Flow.Reduce.{reduce, take_node, gets, modify}
use aderyn.Flow.Reduce.Rewire.{Rewired, has_key, remove_each-Rewired, add_each-Rewired}
use aderyn.Flow.Reduce.Descriptor.{template_of, reduce_descriptor-Built}
use aderyn.Flow.Reduce.Replace.{
  Replaced, replaced, fresh2, without_node, pointing_to-has_key, repeated-All,
}

modify-Returns :
    {Q : Unit {0} → Cfg → Type 0} (c : ℕ) (g : Cfg)
    → Q tt (remove_raw_edges_involving c g)
    → Returns Q (modify (remove_raw_edges_involving c) g)
unfolding modify
modify-Returns c g q = returns q

module _ (c : ℕ) (g : Cfg) where
  take_node-runs :
      (node : CfgNode)
      → lookup c g.nodes ≡ some node
      → take_node c g ≡ some (node, without_node c g)
  unfolding take_node
  take_node-runs node e = rw (take_node, e) refl

  predecessors-runs :
      gets (λ x. raw_predecessors x c) (without_node c g)
      ≡ some (raw_predecessors g c, without_node c g)
  unfolding gets raw_predecessors
  predecessors-runs = refl

  successors-runs :
      gets (λ x. raw_successors x c) (without_node c g)
      ≡ some (raw_successors g c, without_node c g)
  unfolding gets raw_successors
  successors-runs = refl

  predecessors-keys : All (λ x. has_key (without_node c g) x ≡ true) (raw_predecessors g c)
  unfolding raw_predecessors
  predecessors-keys = pointing_to-has_key c g.adj_list g.adj_list (λ k p. p)

  successors-keys :
      {E : ℕ → ℕ → Bool} {g1 : Cfg}
      → Rewired (without_node c g) E g1
      → All (λ _. has_key g1 c ≡ true) (raw_successors g c)
  unfolding raw_successors
  successors-keys {g1 = g1} r = elim (Option-cases (lookup c g.adj_list)) [
    | inl missing ↦ rw missing tt
    | inr (l, e) ↦ rw e (repeated-All (has_key g1) c l (r.keys c (rw e refl)))
  ]

-- On a reducible node of a graph in which no node has the next id or a later one, `reduce` returns.
-- Afterwards the node and its edges are gone, the template of its statement stands behind the last id,
-- each predecessor leads to the start of the template, the end of the template leads to each successor,
-- every other edge and node is as before, and the new reducible nodes are queued behind the old ones.
pub reduce-Replaced :
    (nodes : Context) (c : ℕ) (d : CfgNodeDescriptor) (g : Cfg)
    → IsFresh g
    → lookup c g.nodes ≡ some (record { id = c; nd = d })
    → is_reducible d ≡ true
    → Returns (λ _ h. Replaced g c (template_of nodes d) h) (reduce nodes c g)
unfolding reduce
reduce-Replaced nodes c d g fresh here r =
    Returns-step _ _ _ _ _ (take_node-runs c g (record { id = c; nd = d }) here) (
      Returns-step _ _ _ _ _ (predecessors-runs c g) (
        Returns-step _ _ _ _ _ (successors-runs c g) (
          Returns-bind _ _ _
            (remove_each-Rewired (λ x. x) (λ _. c) (raw_predecessors g c) (without_node c g)
              fresh.keyed (predecessors-keys c g))
            λ _ g1 r1.
              Returns-bind _ _ _
                (remove_each-Rewired (λ _. c) (λ x. x) (raw_successors g c) g1 r1.keyed
                  (successors-keys c g r1))
                λ _ g2 r2.
                  Returns-bind _ _ _
                    (reduce_descriptor-Built nodes d g2 r (fresh2 g g1 g2 c fresh r1 r2))
                    λ a g3 (se, b3). rw se (
                      Returns-bind _ _ _
                        (add_each-Rewired (λ x. x) (λ _. g2.next_available_id + 0)
                          (raw_predecessors g c) g3 b3.fresh.keyed)
                        λ _ g4 r4.
                          Returns-bind _ _ _
                            (add_each-Rewired (λ _. g2.next_available_id + 1) (λ x. x)
                              (raw_successors g c) g4 r4.keyed)
                            λ _ g5 r5. modify-Returns c g5 (
                              replaced g g1 g2 c fresh r1 r2 g3 g4 g5 (template_of nodes d) b3 r4
                                r5)))))
