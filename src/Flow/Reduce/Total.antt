-- ===== src/Flow/Reduce/Total.antt =====
-- The loop over the reduction queue ends, and leaves no reducible node.
use aderyn.Prelude.{
  ℕ, zero, suc, ◌<◌, ◌≤◌, inl, inr, Bool, true, false, none, some, List, [], ◌∷◌, ◌≡◌, refl, sym,
  ap, ◌∙◌, subst, arith, ◌==◌, if◌then◌else◌, contains, Bool-cases, ==_iff,
}
use aderyn.Flow.Ast.{Context}
use aderyn.Flow.Node.{CfgNode, CfgNodeDescriptor, is_reducible}
use aderyn.Flow.Cfg.{Cfg, ◌>>◌, raw_successors}
use aderyn.Flow.Cfg.Returns.{Returns, returns, Returns-bind, Returns-weaken}
use aderyn.Flow.Cfg.Edges.{edge}
use aderyn.Flow.Reduce.{reduce, reduce_all}
use aderyn.Flow.Reduce.Replace.{Replaced}
use aderyn.Flow.Reduce.Replace.Run.{reduce-Replaced}
use aderyn.Flow.Reduce.Descriptor.{template_of}
use aderyn.Flow.Reduce.Work.{IsClosed}
use aderyn.Flow.Reduce.Fewer.{template_of-Fewer}
use aderyn.Prelude.Leads.{Leads, Leads-map}
use aderyn.Flow.Reduce.Shape.Templates.{template_of-Wired}
use aderyn.Flow.Reduce.Path.{Replaced-Leads}
use aderyn.Flow.Reduce.Queue.{IsQueue, queue_work, nodes_over-before}
use aderyn.Flow.Reduce.Invariant.{
  IsReducing, node_at, dequeued, Replaced-IsReducing, Replaced-queue_work,
}

-- a node that is not reducible
abbrev pub IsSettled : Cfg → ℕ → Type 0
IsSettled g k = (node : CfgNode) × (node_at g k ≡ some node) × (is_reducible node.nd ≡ false)

if-other : {A : Type 0} {b : Bool} (x : A) {y : A} → b ≡ false → (if b then x else y) ≡ y
if-other x h = rw h refl

-- the `elim` of the loop, on an empty queue and on another
module _ {A : Type 0} (x : A) (f : ℕ → List ℕ → A) where
  elim-empty : (l : List ℕ) → l ≡ [] → elim l [ [] ↦ x | c ∷ q ↦ f c q ] ≡ x
  elim-empty [] e = refl
  elim-empty (c ∷ q) e = cc

  elim-next :
      (l : List ℕ) (c : ℕ) (q : List ℕ) → l ≡ c ∷ q → elim l [ [] ↦ x | c ∷ q ↦ f c q ] ≡ f c q
  elim-next l c q e = rw e refl

-- What the loop makes of `g`: no reducible node is left or queued, the other nodes of `g` are there
-- still, and the paths between them too.
pub record Reduced (g h : Cfg) : Type 0 where
  pub reducing : IsReducing h
  pub done : h.reduction_queue ≡ []
  pub settled : (k : ℕ) (node : CfgNode) → node_at h k ≡ some node → is_reducible node.nd ≡ false
  pub kept :
      (k : ℕ) (node : CfgNode)
      → node_at g k ≡ some node
      → is_reducible node.nd ≡ false
      → node_at h k ≡ some node
  pub leads : (a b : ℕ) → IsSettled g a → IsSettled g b → Leads (edge g) a b → Leads (edge h) a b

Reduced-self : (g : Cfg) → IsReducing g → g.reduction_queue ≡ [] → Reduced g g
Reduced-self g i e = record {
  reducing = i;
  done = e;
  settled = λ k node p. elim (Bool-cases (is_reducible node.nd)) [
    | inl r ↦
        let queued : contains [] k ≡ true =
          subst (λ l. contains l k ≡ true) e (i.complete k node p r) in
        ground (arith, queued)
    | inr v ↦ v
  ];
  kept = λ k node p v. p;
  leads = λ a b x y p. p;
}

-- one turn of the loop, and what it means for the whole
pub record Turn (nodes : Context) (g h : Cfg) : Type 0 where
  pub reducing : IsReducing h
  pub less :
      suc (queue_work nodes (node_at h) h.reduction_queue)
      ≡ queue_work nodes (node_at g) g.reduction_queue
  pub kept :
      (k : ℕ) (node : CfgNode)
      → node_at g k ≡ some node
      → is_reducible node.nd ≡ false
      → node_at h k ≡ some node
  pub leads : (a b : ℕ) → IsSettled g a → IsSettled g b → Leads (edge g) a b → Leads (edge h) a b

module _ (nodes : Context) (closed : IsClosed nodes) (g : Cfg) (c : ℕ) (q : List ℕ)
    (i : IsReducing g) (head : g.reduction_queue ≡ c ∷ q) where
  front : IsQueue (node_at g) 0 g.next_available_id (c ∷ q)
  front = subst (IsQueue (node_at g) 0 g.next_available_id) head i.queued

  other_than :
      (k : ℕ) (d : CfgNodeDescriptor)
      → node_at g c ≡ some (record { id = c; nd = d })
      → is_reducible d ≡ true
      → IsSettled g k
      → (c == k) ≡ false
  other_than k d at r (node, p, v) = elim (Bool-cases (c == k)) [
    | inl same ↦
        let both : some (record { id = c; nd = d }) ≡ some node =
          sym at ∙ ap (node_at g) ((==_iff c k).0 same) ∙ p in
        ground (arith, both, r, v)
    | inr other ↦ other
  ]

  inside : (k : ℕ) (node : CfgNode) → node_at g k ≡ some node → k < g.next_available_id
  inside k node p = ground (arith, i.fresh.unused k, p)

  edge-dequeued : (a b : ℕ) → edge (dequeued q g) a b ≡ edge g a b
  unfolding raw_successors
  edge-dequeued a b = refl

  turned :
      (d : CfgNodeDescriptor) (h : Cfg)
      → node_at g c ≡ some (record { id = c; nd = d })
      → is_reducible d ≡ true
      → Replaced (dequeued q g) c (template_of nodes d) h
      → Turn nodes g h
  turned d h at r p =
      let w = template_of-Wired nodes d r in
      record {
        reducing = Replaced-IsReducing g h c q d (template_of nodes d) i head w p;
        less =
            rw (head, at)
              (omega (
                arith,
                Replaced-queue_work g h c q d (template_of nodes d) i head w p nodes,
                template_of-Fewer nodes closed d r,
              ));
        kept = λ k node e v.
            p.nodes k
            ∙ nodes_over-before _ k (template_of nodes d).nodes _ (inside k node e)
            ∙ if-other none (other_than k d at r (node, e, v))
            ∙ e;
        leads = λ a b x y l.
            Replaced-Leads (dequeued q g) h c _ (inside c _ at) w p (other_than a d at r x)
              (other_than b d at r y) (Leads-map (λ j k e. edge-dequeued j k ∙ e) l);
      }

  busy : 0 < queue_work nodes (node_at g) g.reduction_queue
  busy =
      let (_, (d, at, r), _) = front in
      rw (head, at) (omega (arith, template_of-Fewer nodes closed d r))

  -- In a graph that satisfies the invariant and whose queue begins with `c`, over an AST that is closed
  -- under taking children: popping `c` and reducing it returns a graph that satisfies the invariant, in
  -- which one reduction less is left, each node that was not reducible is still there, and each path
  -- between two such nodes is still there.
  pub reduce-Turn : Returns (λ _ h. Turn nodes g h) (reduce nodes c (dequeued q g))
  reduce-Turn =
      let (_, (d, at, r), _) = front in
      Returns-weaken (λ _ h p. turned d h at r p) _
        (reduce-Replaced nodes c d (dequeued q g)
          (record { unused = i.fresh.unused; keyed = i.fresh.keyed }) at r)

module _ (nodes : Context) (g : Cfg) where
  reduce_all-empty : (fuel : ℕ) → g.reduction_queue ≡ [] → reduce_all fuel nodes g ≡ some (tt, g)
  unfolding reduce_all
  reduce_all-empty zero e = elim-empty _ _ g.reduction_queue e
  reduce_all-empty (suc fuel) e = elim-empty _ _ g.reduction_queue e

  reduce_all-next :
      (fuel c : ℕ) (q : List ℕ)
      → g.reduction_queue ≡ c ∷ q
      → reduce_all (suc fuel) nodes g ≡ (reduce nodes c >> reduce_all fuel nodes) (dequeued q g)
  unfolding reduce_all
  reduce_all-next fuel c q e =
      elim-next _
        (λ c q. (reduce nodes c >> reduce_all fuel nodes) (record g { reduction_queue = q }))
        g.reduction_queue c q e

reduce_from :
    (nodes : Context)
    → IsClosed nodes
    → (fuel : ℕ) (g : Cfg) (q : List ℕ) → g.reduction_queue ≡ q
    → IsReducing g
    → queue_work nodes (node_at g) g.reduction_queue ≤ fuel
    → Returns (λ _ h. Reduced g h) (reduce_all fuel nodes g)
reduce_from nodes closed zero g [] e i b =
    rw (reduce_all-empty nodes g zero e) (returns (Reduced-self g i e))
reduce_from nodes closed (suc fuel) g [] e i b =
    rw (reduce_all-empty nodes g (suc fuel) e) (returns (Reduced-self g i e))
reduce_from nodes closed zero g (c ∷ q) e i b = ground (arith, b, busy nodes closed g c q i e)
reduce_from nodes closed (suc fuel) g (c ∷ q) e i b = rw (reduce_all-next nodes g fuel c q e) (
    Returns-bind _ _ _ (reduce-Turn nodes closed g c q i e) λ _ h t.
      Returns-weaken
        (λ _ l r. record {
          reducing = r.reducing;
          done = r.done;
          settled = r.settled;
          kept = λ k node p v. r.kept k node (t.kept k node p v) v;
          leads = λ a b (x, p, v) (y, p', v') l.
              r.leads a b (x, t.kept a x p v, v) (y, t.kept b y p' v', v')
                (t.leads a b (x, p, v) (y, p', v') l);
        })
        _
        (reduce_from nodes closed fuel h h.reduction_queue refl t.reducing
          (omega (arith, t.less, b))))

-- From a graph that satisfies the invariant, over an AST that is closed under taking children, and with
-- as much fuel as the queue has work, the loop over the reduction queue returns. It leaves a graph that
-- satisfies the invariant, with an empty queue and no reducible node, that still has each node that was
-- not reducible, and a path between two such nodes wherever there was one.
pub reduce_all-Reduced :
    (nodes : Context)
    → IsClosed nodes
    → (fuel : ℕ) (g : Cfg) → IsReducing g
    → queue_work nodes (node_at g) g.reduction_queue ≤ fuel
    → Returns (λ _ h. Reduced g h) (reduce_all fuel nodes g)
reduce_all-Reduced nodes closed fuel g i b =
    reduce_from nodes closed fuel g g.reduction_queue refl i b
