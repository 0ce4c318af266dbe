-- ===== src/Flow/Reduce/Invariant.antt =====
-- What holds of the graph before and after each call of `Cfg::reduce`.
use aderyn.Prelude.{
  ℕ, suc, ◌+◌, ◌<◌, ◌≤◌, inl, inr, true, false, ◌&&◌, Option, none, some, List, [], ◌∷◌, ◌≡◌, refl,
  sym, ◌∙◌, subst, arith, ◌==◌, if◌then◌else◌, length, contains, Bool-cases, contains-append,
}
use aderyn.Prelude.Assoc.{lookup}
use aderyn.Flow.Ast.{Context}
use aderyn.Flow.Node.{CfgNode, CfgNodeDescriptor, is_reducible}
use aderyn.Flow.Cfg.{Cfg, has_node, raw_successors}
use aderyn.Flow.Cfg.Template.{Template, queue_of, targets}
use aderyn.Flow.Cfg.Built.{IsFresh}
use aderyn.Flow.Cfg.Edges.{edge}
use aderyn.Flow.Reduce.Replace.{Replaced, replaced_edge}
use aderyn.Flow.Reduce.Shape.{InRange, Wired}
use aderyn.Flow.Reduce.Work.{works}
use aderyn.Flow.Reduce.Queue.{
  IsQueue, IsQueue-bounds, IsQueue-append, IsQueue-map, IsQueue-lower, queue_work,
  queue_work-append, queue_work-map, nodes_over-before, nodes_over-kept, nodes_over-inside,
  nodes_over-cases, nodes_over-IsQueue, nodes_over-queue_work,
}

abbrev pub node_at : Cfg → ℕ → Option CfgNode
node_at g k = lookup k g.nodes

-- Nodes bear their own ids, edges join nodes, and the queue is that of all reducible nodes, ascending.
pub record IsReducing (g : Cfg) : Type 0 where
  pub fresh : IsFresh g
  pub own_ids : (k : ℕ) (node : CfgNode) → node_at g k ≡ some node → node.id ≡ k
  pub attached : (a b : ℕ) → edge g a b ≡ true → (has_node g a ≡ true) × (has_node g b ≡ true)
  pub queued : IsQueue (node_at g) 0 g.next_available_id g.reduction_queue
  pub complete :
      (k : ℕ) (node : CfgNode)
      → node_at g k ≡ some node
      → is_reducible node.nd ≡ true
      → contains g.reduction_queue k ≡ true

abbrev pub dequeued : List ℕ → Cfg → Cfg
dequeued q g = record g { reduction_queue = q }

pub targets-inside :
    (n m a b : ℕ) (es : List (ℕ × ℕ))
    → InRange m es
    → contains (targets n a es) b ≡ true
    → ((n ≤ a) × (a < n + m)) × ((n ≤ b) × (b < n + m))
targets-inside n m a b [] r h = ground (arith, h)
targets-inside n m a b ((i, j) ∷ es) r h = elim (Bool-cases (n + i == a)) [
  | inl same ↦ elim (Bool-cases (n + j == b)) [
    | inl found ↦ ground (arith, same, found, r.0)
    | inr other ↦ targets-inside n m a b es r.1 (ground (arith, same, other, h))
  ]
  | inr other ↦ targets-inside n m a b es r.1 (ground (arith, other, h))
]

edge-dequeued : (q : List ℕ) (g : Cfg) (a b : ℕ) → edge (dequeued q g) a b ≡ edge g a b
unfolding raw_successors
edge-dequeued q g a b = refl

-- where an edge after the replacement comes from
data Origin (g : Cfg) (c : ℕ) (t : Template) (a b : ℕ) : Type 0 where
  from_before : edge g a b ≡ true → Origin g c t a b
  from_template : contains (targets g.next_available_id a t.edges) b ≡ true → Origin g c t a b
  from_predecessor : edge g a c ≡ true → g.next_available_id ≡ b → Origin g c t a b
  from_successor : suc g.next_available_id ≡ a → edge g c b ≡ true → Origin g c t a b

replaced_edge-Origin :
    (g : Cfg) (c : ℕ) (t : Template) (a b : ℕ)
    → replaced_edge g c t a b ≡ true
    → ((c == a) ≡ false) × ((c == b) ≡ false) × Origin g c t a b
replaced_edge-Origin g c t a b e = (
  ground (arith, e),
  ground (arith, e),
  elim (Bool-cases (edge g a b)) [
    | inl p ↦ from_before p
    | inr p' ↦ elim (Bool-cases (contains (targets g.next_available_id a t.edges) b)) [
      | inl p ↦ from_template p
      | inr q' ↦ elim (Bool-cases (edge g a c && g.next_available_id == b)) [
        | inl p ↦ from_predecessor (ground (arith, p)) (ground (arith, p))
        | inr r' ↦ from_successor (ground (arith, e, p', q', r')) (ground (arith, e, p', q', r'))
      ]
    ]
  ],
)

module _ (g h : Cfg) (c : ℕ) (q : List ℕ) (d : CfgNodeDescriptor) (t : Template) (i : IsReducing g)
    (head : g.reduction_queue ≡ c ∷ q) (w : Wired t) (r : Replaced (dequeued q g) c t h) where
  abbrev old : ℕ → Option CfgNode
  old k = if c == k then none else node_at g k

  queue_parts : IsQueue (node_at g) 0 g.next_available_id (c ∷ q)
  queue_parts = subst (IsQueue (node_at g) 0 g.next_available_id) head i.queued

  below : c < g.next_available_id
  below = let (a, b, rest) = queue_parts in omega (arith, IsQueue-bounds _ _ _ q rest)

  -- a node that is not `c` stays
  stays : (k : ℕ) → has_node g k ≡ true → (c == k) ≡ false → has_node h k ≡ true
  stays k p o = rw (r.nodes k) (nodes_over-kept g.next_available_id k t.nodes (old k) (rw o p))

  added :
      (k : ℕ)
      → g.next_available_id ≤ k
      → k < g.next_available_id + length t.nodes
      → has_node h k ≡ true
  added k l u = rw (r.nodes k) (nodes_over-inside g.next_available_id k t.nodes (old k) l u)

  attached_after : (a b : ℕ) → edge h a b ≡ true → (has_node h a ≡ true) × (has_node h b ≡ true)
  attached_after a b e =
      let (a', b', o) = replaced_edge-Origin (dequeued q g) c t a b (sym (r.edges a b) ∙ e) in
      elim o [
        | from_before p ↦
            let (x, y) = i.attached a b (sym (edge-dequeued q g a b) ∙ p) in
            (stays a x a', stays b y b')
        | from_template p ↦
            let ((x, x'), (y, y')) =
              targets-inside g.next_available_id (length t.nodes) a b t.edges w.in_range p in
            (added a x x', added b y y')
        | from_predecessor p s ↦
            let (x, y) = i.attached a c (sym (edge-dequeued q g a c) ∙ p) in
            (stays a x a', added b (omega (arith, s)) (omega (arith, s, w.ends)))
        | from_successor s p ↦
            let (x, y) = i.attached c b (sym (edge-dequeued q g c b) ∙ p) in
            (added a (omega (arith, s)) (omega (arith, s, w.ends)), stays b y b')
      ]

  later : (k : ℕ) → suc c ≤ k → k < g.next_available_id → node_at h k ≡ node_at g k
  later k l u = r.nodes k ∙ nodes_over-before g.next_available_id k t.nodes (old k) u ∙ ground arith

  queued_after : IsQueue (node_at h) 0 h.next_available_id h.reduction_queue
  queued_after =
      let (a, b, rest) = queue_parts in
      rw (r.queue, r.next)
        (IsQueue-append (node_at h) 0 g.next_available_id _ q _
          (IsQueue-lower _ (suc c) 0 _ q (omega arith)
            (IsQueue-map (node_at g) (node_at h) g.next_available_id (suc c) q later rest))
          (IsQueue-map _ (node_at h) _ g.next_available_id _ (λ k l u. r.nodes k)
            (nodes_over-IsQueue g.next_available_id t.nodes old)))

  own_ids_after : (k : ℕ) (node : CfgNode) → node_at h k ≡ some node → node.id ≡ k
  own_ids_after k node e =
      elim (nodes_over-cases g.next_available_id k t.nodes (old k) node (sym (r.nodes k) ∙ e)) [
        | inl kept ↦ i.own_ids k node (ground (arith, kept))
        | inr (own, _) ↦ own
      ]

  complete_after :
      (k : ℕ) (node : CfgNode)
      → node_at h k ≡ some node
      → is_reducible node.nd ≡ true
      → contains h.reduction_queue k ≡ true
  complete_after k node e p =
      rw (r.queue, contains-append q (queue_of g.next_available_id t.nodes) k)
        (elim (nodes_over-cases g.next_available_id k t.nodes (old k) node (sym (r.nodes k) ∙ e)) [
          | inl kept ↦
              let there : contains (c ∷ q) k ≡ true =
                subst (λ l. contains l k ≡ true) head
                  (i.complete k node (ground (arith, kept)) p) in
              ground (arith, kept, there)
          | inr (_, f) ↦ ground (arith, f p)
        ])

  pub Replaced-IsReducing : IsReducing h
  Replaced-IsReducing = record {
    fresh = r.fresh;
    own_ids = own_ids_after;
    attached = attached_after;
    queued = queued_after;
    complete = complete_after;
  }

  -- The new nodes' reductions take the place of those of `c`.
  pub Replaced-queue_work :
      (nodes : Context)
      → queue_work nodes (node_at h) h.reduction_queue
        ≡ queue_work nodes (node_at g) q + works nodes t.nodes
  Replaced-queue_work nodes =
      let (a, b, rest) = queue_parts in
      rw (r.queue, queue_work-append nodes (node_at h) q (queue_of g.next_available_id t.nodes))
        (omega (
          arith,
          queue_work-map (node_at g) (node_at h) g.next_available_id nodes (suc c) q later rest,
          queue_work-map _ (node_at h) _ nodes g.next_available_id _ (λ k l u. r.nodes k)
              (nodes_over-IsQueue g.next_available_id t.nodes old),
          nodes_over-queue_work nodes g.next_available_id t.nodes old,
        ))
