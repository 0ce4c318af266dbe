-- ===== src/Flow/Cfg/Built.antt =====
-- What a run of `add_node`, `add_flow_edge` and the insertions into the lookup maps builds.
use aderyn.Prelude.{
  ℕ, suc, ◌+◌, ◌≤◌, true, ◌&&◌, Option, none, some, List, [], ◌∷◌, ◌++◌, ◌≡◌, refl, sym, ap, ◌∙◌,
  arith, append-nil, append_assoc, ◌==◌, if◌then◌else◌, length, length-append, is_some, inl, inr,
  Bool-cases, ==_iff,
}
use native.Mathlib.Nat.{add-zero}
use aderyn.Prelude.Assoc.{lookup, lookup-insert, IsMap, insert-IsMap}
use aderyn.Flow.Node.{CfgNode, CfgNodeDescriptor, is_reducible}
use aderyn.Flow.Cfg.{
  Cfg, raw_successors, add_raw_directed_edge, add_raw_node, add_node, with_node, has_node, queued,
  or_nil, with_next,
}
use aderyn.Flow.Cfg.Template.{
  PairMap, start_end, start_cond, start_loop, loop_start, cond_start, pairs_of, Template, empty,
  with_desc, with_edge, nodes_over, targets, pairs_over, queue_of, same_map,
}

-- No node has the next id or a later one, and each node has one vector of successors.
pub record IsFresh (g : Cfg) : Type 0 where
  pub unused : (k : ℕ) → g.next_available_id ≤ k → lookup k g.nodes ≡ none
  pub keyed : IsMap g.adj_list

-- `g` is `g0` with the template `t` built into it, behind its last id.
pub record Built (g0 : Cfg) (t : Template) (g : Cfg) : Type 0 where
  pub next : g.next_available_id ≡ g0.next_available_id + length t.nodes
  pub fresh : IsFresh g
  pub nodes :
      (k : ℕ) → lookup k g.nodes ≡ nodes_over g0.next_available_id k t.nodes (lookup k g0.nodes)
  pub queue : g.reduction_queue ≡ g0.reduction_queue ++ queue_of g0.next_available_id t.nodes
  pub edges :
      (a : ℕ) → raw_successors g a ≡ raw_successors g0 a ++ targets g0.next_available_id a t.edges
  pub pairs :
      (p : PairMap) (k : ℕ)
      → lookup k (pairs_of p g)
        ≡ pairs_over p g0.next_available_id k t.pairs (lookup k (pairs_of p g0))

pub Built-empty : (g : Cfg) → IsFresh g → Built g empty g
Built-empty g h = record {
  next = omega arith;
  fresh = h;
  nodes = λ k. refl;
  queue = sym (append-nil g.reduction_queue);
  edges = λ a. sym (append-nil (raw_successors g a));
  pairs = λ p k. refl;
}

nodes_over-append :
    (n k : ℕ) (ds : List CfgNodeDescriptor) (d : CfgNodeDescriptor) (old : Option CfgNode)
    → nodes_over n k (ds ++ d ∷ []) old ≡ (
        if n + length ds == k
        then some (record { id = n + length ds; nd = d })
        else nodes_over n k ds old)
nodes_over-append n k [] d old = rw add-zero refl
nodes_over-append n k (e ∷ ds) d old =
    let shift : n + suc (length ds) ≡ suc n + length ds = omega arith in
    rw shift (nodes_over-append (suc n) k ds d _)

queue_of-append :
    (n : ℕ) (ds : List CfgNodeDescriptor) (d : CfgNodeDescriptor)
    → queue_of n (ds ++ d ∷ [])
      ≡ queue_of n ds ++ (if is_reducible d then (n + length ds) ∷ [] else [])
queue_of-append n [] d = rw add-zero refl
queue_of-append n (e ∷ ds) d =
    let shift : n + suc (length ds) ≡ suc n + length ds = omega arith in
    rw (shift, queue_of-append (suc n) ds d)
      (elim (Bool-cases (is_reducible e)) [ inl r ↦ rw r | inr v ↦ rw v ])

targets-append :
    (n a : ℕ) (es : List (ℕ × ℕ)) (i j : ℕ)
    → targets n a (es ++ (i, j) ∷ []) ≡ targets n a es ++ (if n + i == a then (n + j) ∷ [] else [])
targets-append n a [] i j = ground arith
targets-append n a ((k, l) ∷ es) i j = ground (arith, targets-append n a es i j)

pub pairs_over-append :
    (p : PairMap) (n k : ℕ) (ps : List (PairMap × ℕ × ℕ)) (q : PairMap) (i j : ℕ) (old : Option ℕ)
    → pairs_over p n k (ps ++ (q, i, j) ∷ []) old
      ≡ (if same_map q p && n + i == k then some (n + j) else pairs_over p n k ps old)
pairs_over-append p n k [] q i j old = refl
pairs_over-append p n k ((r, a, b) ∷ ps) q i j old = pairs_over-append p n k ps q i j _

pub raw_successors-edge :
    (from to a : ℕ) (g : Cfg)
    → raw_successors (add_raw_directed_edge from to g) a
      ≡ raw_successors g a ++ (if from == a then to ∷ [] else [])
unfolding raw_successors add_raw_directed_edge
raw_successors-edge from to a g =
    ap or_nil (lookup-insert from a (raw_successors g from ++ to ∷ []) g.adj_list)
    ∙ elim (Bool-cases (from == a)) [
      | inl same ↦ rw same (ap (λ x. raw_successors g x ++ to ∷ []) ((==_iff from a).0 same))
      | inr other ↦ rw other (sym (append-nil (raw_successors g a)))
    ]

-- the parts of the graph behind `add_node`
module _ (d : CfgNodeDescriptor) (g : Cfg) where
  queued-nodes : (queued g.next_available_id d (with_next g)).nodes ≡ g.nodes
  queued-nodes = ground arith

  queued-adj_list : (queued g.next_available_id d (with_next g)).adj_list ≡ g.adj_list
  queued-adj_list = ground arith

  lookup-with_node :
      (k : ℕ)
      → lookup k (with_node d g).nodes ≡ (
          if g.next_available_id == k
          then some (record { id = g.next_available_id; nd = d })
          else lookup k g.nodes)
  unfolding add_raw_node
  lookup-with_node k = rw lookup-insert (rw queued-nodes)

  pub add_node-some : IsFresh g → add_node d g ≡ some (g.next_available_id, with_node d g)
  unfolding add_node
  add_node-some h =
      let here : has_node (with_node d g) g.next_available_id ≡ true =
        ap is_some (lookup-with_node g.next_available_id) ∙ ground arith in
      rw (h.unused g.next_available_id (omega arith)) (rw here)

  next-with_node : (with_node d g).next_available_id ≡ suc g.next_available_id
  unfolding add_raw_node
  next-with_node = ground arith

  queue-with_node :
      (with_node d g).reduction_queue
      ≡ g.reduction_queue ++ (if is_reducible d then g.next_available_id ∷ [] else [])
  unfolding add_raw_node
  queue-with_node = elim (Bool-cases (is_reducible d)) [
    | inl r ↦ rw r
    | inr v ↦ rw v (sym (append-nil g.reduction_queue))
  ]

  successors-with_node : (a : ℕ) → raw_successors (with_node d g) a ≡ raw_successors g a
  unfolding add_raw_node raw_successors
  successors-with_node a = ap (λ m. or_nil (lookup a m)) queued-adj_list

  keyed-with_node : IsMap g.adj_list → IsMap (with_node d g).adj_list
  unfolding add_raw_node
  keyed-with_node h = rw queued-adj_list h

  pairs-with_node : (p : PairMap) → pairs_of p (with_node d g) ≡ pairs_of p g
  unfolding add_raw_node
  pairs-with_node start_end = ground arith
  pairs-with_node p = ground arith

  pub Built-node :
      {g0 : Cfg} {t : Template} → Built g0 t g → Built g0 (with_desc t d) (with_node d g)
  Built-node {g0} {t} b = record {
    next = omega (arith, next-with_node, b.next, length-append {0} t.nodes (d ∷ []));
    fresh = record {
      unused = λ k h. rw (lookup-with_node k) (ground (arith, b.fresh.unused k, next-with_node));
      keyed = keyed-with_node b.fresh.keyed;
    };
    nodes = λ k.
        lookup-with_node k
        ∙ rw (b.next, b.nodes k)
            (sym (nodes_over-append g0.next_available_id k t.nodes d (lookup k g0.nodes)));
    queue =
        queue-with_node
        ∙ rw (b.queue, b.next, queue_of-append g0.next_available_id t.nodes d)
            (append_assoc g0.reduction_queue (queue_of g0.next_available_id t.nodes) _);
    edges = λ a. successors-with_node a ∙ b.edges a;
    pairs = λ p k. ap (lookup k) (pairs-with_node p) ∙ b.pairs p k;
  }

module _ {g0 : Cfg} {t : Template} {g : Cfg} (b : Built g0 t g) where
  pub Built-edge :
      (i j : ℕ)
      → Built g0
          (with_edge t i j)
          (add_raw_directed_edge (g0.next_available_id + i) (g0.next_available_id + j) g)
  unfolding add_raw_directed_edge
  Built-edge i j =
      let n = g0.next_available_id in
      record {
        next = b.next;
        fresh = record {
          unused = b.fresh.unused;
          keyed = insert-IsMap (n + i) _ g.adj_list b.fresh.keyed;
        };
        nodes = b.nodes;
        queue = b.queue;
        edges = λ a.
            raw_successors-edge (n + i) (n + j) a g
            ∙ rw (b.edges a, targets-append n a t.edges i j)
                (append_assoc (raw_successors g0 a) (targets n a t.edges) _);
        pairs = λ p k. pairs_edge p k;
      }
    where
      pairs_edge :
          (p : PairMap) (k : ℕ)
          → lookup k (
              pairs_of p
                (add_raw_directed_edge (g0.next_available_id + i) (g0.next_available_id + j) g))
            ≡ pairs_over p g0.next_available_id k t.pairs (lookup k (pairs_of p g0))
      pairs_edge start_end k = b.pairs start_end k
      pairs_edge start_cond k = b.pairs start_cond k
      pairs_edge start_loop k = b.pairs start_loop k
      pairs_edge loop_start k = b.pairs loop_start k
      pairs_edge cond_start k = b.pairs cond_start k
