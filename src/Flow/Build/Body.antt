-- ===== src/Flow/Build/Body.antt =====
-- The graph of a body before its jumps are calibrated: the skeleton, and the reductions.
use aderyn.Prelude.{
  ℕ, ◌+◌, ◌<◌, ◌≤◌, inl, inr, true, false, none, some, [], ◌∷◌, ◌≡◌, refl, sym, ap, ◌∙◌, subst,
  arith, contains,
}
use aderyn.Prelude.Assoc.{lookup}
use aderyn.Flow.Ast.{Context, Block, block_id, block_node}
use aderyn.Flow.Node.{CfgNode, CfgStartNode, CfgEndNode, start_node, end_node, block, is_reducible}
use aderyn.Flow.Cfg.{Cfg, new, pure, ◌>>=◌, ◌>>◌, raw_successors, add_node, has_node}
use aderyn.Flow.Cfg.Returns.{Returns, Returns-bind, Returns-pure}
use aderyn.Flow.Cfg.Template.{Template, start_end, nodes_over, targets}
use aderyn.Flow.Cfg.Built.{Built, Built-empty, IsFresh}
use aderyn.Flow.Cfg.Rules.{build_node, build_edge, build_start_end}
use aderyn.Flow.Cfg.Edges.{edge}
use aderyn.Flow.Build.{skeleton}
use aderyn.Flow.Reduce.{reduce_all}
use aderyn.Flow.Reduce.Work.{IsClosed, cost_block}
use aderyn.Prelude.Leads.{Leads, here, step}
use aderyn.Flow.Reduce.Queue.{
  IsQueue, IsQueue-map, queue_work, nodes_over-inside, nodes_over-cases, nodes_over-IsQueue,
}
use aderyn.Flow.Reduce.Invariant.{IsReducing, node_at, targets-inside}
use aderyn.Flow.Reduce.Total.{IsSettled, reduce_all-Reduced}

abbrev pub body_template : CfgStartNode → CfgEndNode → ℕ → Template
body_template s e id = record {
  nodes = start_node s ∷ end_node e ∷ block id ∷ [];
  edges = (0, 2) ∷ (2, 1) ∷ [];
  pairs = (start_end, 0, 1) ∷ [];
}

pub new-IsFresh : IsFresh new
new-IsFresh = record { unused = λ k h. unfold lookup in refl; keyed = tt }

module _ (s : CfgStartNode) (e : CfgEndNode) (body : Block) where
  pub skeleton-Built :
      Returns
        (λ a h. (a ≡ (0, 1)) × Built new (body_template s e (block_id body)) h)
        (skeleton (add_node (start_node s)) (add_node (end_node e)) body new)
  unfolding skeleton
  skeleton-Built = build_node (Built-empty new new-IsFresh) _ _ λ _ b. build_node b _ _ λ _ b.
      build_start_end b 0 1 _ λ _ b.
        build_node b _ _
          λ _ b. build_edge b 0 2 _ λ _ b. build_edge b 2 1 _ λ _ b. Returns-pure _ _ (refl, b)

  module _ (h : Cfg) (b : Built new (body_template s e (block_id body)) h) where
    nodes_h : (k : ℕ) → node_at h k ≡ nodes_over 0 k (body_template s e (block_id body)).nodes none
    nodes_h k = b.nodes k ∙ unfold lookup in refl

    edges_h : (i j : ℕ) → edge h i j ≡ contains (targets 0 i ((0, 2) ∷ (2, 1) ∷ [])) j
    edges_h i j = ap (λ l. contains l j) (b.edges i) ∙ unfold raw_successors lookup in refl

    there : (k : ℕ) → k < 0 + 3 → has_node h k ≡ true
    there k l =
        rw (nodes_h k)
          (nodes_over-inside 0 k (body_template s e (block_id body)).nodes none (omega arith) l)

    pub Built-IsReducing : IsReducing h
    Built-IsReducing = record {
      fresh = b.fresh;
      own_ids = λ k node p.
          elim (nodes_over-cases 0 k (body_template s e (block_id body)).nodes none node
            (sym (nodes_h k) ∙ p)) [ inl old ↦ ground (arith, old) | inr (own, _) ↦ own ];
      attached = λ i j p.
          let ((_, x), (_, y)) =
            targets-inside 0 3 i j ((0, 2) ∷ (2, 1) ∷ [])
              ((omega arith, omega arith), ((omega arith, omega arith), tt))
              (sym (edges_h i j) ∙ p) in
          (there i x, there j y);
      queued =
          subst (λ q. IsQueue (node_at h) 0 h.next_available_id q) (sym b.queue)
            (subst (λ m. IsQueue (node_at h) 0 m (2 ∷ [])) (sym b.next)
              (IsQueue-map _ (node_at h) 3 0 (2 ∷ []) (λ k l u. nodes_h k)
                (nodes_over-IsQueue 0 (body_template s e (block_id body)).nodes (λ _. none))));
      complete = λ k node p r.
          elim (nodes_over-cases 0 k (body_template s e (block_id body)).nodes none node
            (sym (nodes_h k) ∙ p)) [
              | inl old ↦ ground (arith, old)
              | inr (_, f) ↦ rw b.queue (f r)
            ];
    }

    ends-IsSettled : IsSettled h 0 × IsSettled h 1
    ends-IsSettled = (
      (record { id = 0; nd = start_node s }, nodes_h 0 ∙ refl, refl),
      (record { id = 1; nd = end_node e }, nodes_h 1 ∙ refl, refl),
    )

    Built-Leads : Leads (edge h) 0 1
    Built-Leads = step {b = 2} (edges_h 0 2) (step (edges_h 2 1) here)

    queue_work-Built :
        (nodes : Context)
        → nodes (block_id body) ≡ some (block_node body)
        → queue_work nodes (node_at h) h.reduction_queue ≡ cost_block body
    queue_work-Built nodes held = rw (b.queue, nodes_h 2) (rw held (omega arith))

  -- What stands before the calibration: the ends are 0 and 1, no node is reducible, and the start leads
  -- to the end.
  pub record Assembled (ends : ℕ × ℕ) (h : Cfg) : Type 0 where
    pub ids : ends ≡ (0, 1)
    pub start_there : node_at h 0 ≡ some (record { id = 0; nd = start_node s })
    pub end_there : node_at h 1 ≡ some (record { id = 1; nd = end_node e })
    pub settled : (k : ℕ) (node : CfgNode) → node_at h k ≡ some node → is_reducible node.nd ≡ false
    pub attached : (a b : ℕ) → edge h a b ≡ true → (has_node h a ≡ true) × (has_node h b ≡ true)
    pub leads : Leads (edge h) 0 1

  -- Over an AST that is closed under taking children and that has the body, and with as much fuel as the
  -- body has reducible statements, itself included, the skeleton of a body and then the loop over the
  -- reduction queue return. The ends of the graph are the nodes 0 and 1, no node is reducible, each edge
  -- joins two nodes, and there is a path from the start to the end.
  pub assemble_body-Assembled :
      (nodes : Context) (fuel : ℕ)
      → IsClosed nodes
      → nodes (block_id body) ≡ some (block_node body)
      → cost_block body ≤ fuel
      → Returns Assembled (
          (skeleton (add_node (start_node s)) (add_node (end_node e)) body >>= λ ends.
          reduce_all fuel nodes >> pure ends)
            new)
  assemble_body-Assembled nodes fuel closed held enough =
      Returns-bind _ _ _ skeleton-Built λ ends g (ids, b).
        let (start, finish) = ends-IsSettled g b in
        Returns-bind _ _ _
          (reduce_all-Reduced nodes closed fuel g (Built-IsReducing g b)
            (rw (queue_work-Built g b nodes held) enough))
          λ _ h r. Returns-pure _ _ (record {
            ids = ids;
            start_there =
                r.kept 0 (record { id = 0; nd = start_node s }) (nodes_h g b 0 ∙ refl) refl;
            end_there = r.kept 1 (record { id = 1; nd = end_node e }) (nodes_h g b 1 ∙ refl) refl;
            settled = r.settled;
            attached = r.reducing.attached;
            leads = r.leads 0 1 start finish (Built-Leads g b);
          })
