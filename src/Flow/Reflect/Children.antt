-- ===== src/Flow/Reflect/Children.antt =====
-- A walk over the children of a node of a finished graph meets no panic, and sees each successor.
use aderyn.Prelude.{
  ℕ, true, some, List, [], ◌∷◌, ◌≡◌, refl, arith, map, Option-cases, inl, inr, contains, All,
}
use aderyn.Flow.Node.{CfgNode}
use aderyn.Flow.Cfg.{Cfg, raw_successors, has_node}
use aderyn.Flow.Cfg.Edges.{edge}
use aderyn.Flow.Reduce.Invariant.{IsReducing, node_at}
use aderyn.Flow.Reflect.{nodes_of, children}

abbrev pub ids_of : List CfgNode → List ℕ
ids_of = map (λ (n : CfgNode). n.id)

nodes_of-returns :
    (g : Cfg)
    → IsReducing g
    → (cs : List ℕ) → All (λ c. has_node g c ≡ true) cs
    → (ns : List CfgNode) × (nodes_of g cs ≡ some ns) × (ids_of ns ≡ cs)
nodes_of-returns g i [] h = ([], refl, refl)
nodes_of-returns g i (c ∷ cs) h = elim (Option-cases (node_at g c)) [
  | inl missing ↦ ground (arith, missing, h.0)
  | inr (node, e) ↦
      let (ns, e', same) = nodes_of-returns g i cs h.1 in
      (node ∷ ns, rw (e, e') refl, rw (i.own_ids c node e, same) refl)
]

attached-All :
    (g : Cfg)
    → IsReducing g
    → (a : ℕ) (cs : List ℕ) → ((b : ℕ) → contains cs b ≡ true → edge g a b ≡ true)
    → All (λ c. has_node g c ≡ true) cs
attached-All g i a [] f = tt
attached-All g i a (c ∷ cs) f = (
  (i.attached a c (f c (ground arith))).1,
  attached-All g i a cs (λ b h. f b (ground (arith, h))),
)

-- In a graph that satisfies the invariant of the reduction, `children` does not panic on any node, and
-- gives nodes whose ids are the successors of the node, in their order.
pub children-returns :
    (g : Cfg)
    → IsReducing g
    → (node : CfgNode)
    → (ns : List CfgNode) × (children g node ≡ some ns) × (ids_of ns ≡ raw_successors g node.id)
children-returns g i node =
    nodes_of-returns g i (raw_successors g node.id)
      (attached-All g i node.id (raw_successors g node.id) (λ b h. h))
