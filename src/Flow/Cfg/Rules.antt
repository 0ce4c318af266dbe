-- ===== src/Flow/Cfg/Rules.antt =====
-- One rule for each operation that a reducer makes: what is built by it, and the run that follows.
use aderyn.Prelude.{
  ℕ, ◌+◌, true, List, ◌≡◌, refl, ap, ◌∙◌, sym, arith, ◌==◌, if◌then◌else◌, length, inl, inr,
  Bool-cases, ◌&&◌,
}
use mathlib.Core.Path.{subst}
use aderyn.Prelude.Assoc.{lookup, insert, lookup-insert}
use aderyn.Flow.Node.{CfgNodeDescriptor}
use aderyn.Flow.Cfg.{
  Cfg, M, ◌>>=◌, raw_successors, add_flow_edge, add_raw_directed_edge, add_node, with_node,
  insert_start_end, insert_start_cond, insert_start_loop_expr, insert_loop_expr_start,
  insert_cond_start, some, or_nil,
}
use aderyn.Flow.Cfg.Returns.{Returns, returns, Returns-step}
use aderyn.Flow.Cfg.Template.{
  PairMap, start_end, start_cond, start_loop, loop_start, cond_start, pairs_of, set_pairs, same_map,
  Template, with_desc, with_edge, with_pair,
}
use aderyn.Flow.Cfg.Built.{Built, Built-node, Built-edge, add_node-some, pairs_over-append}

abbrev insert_pair : PairMap → ℕ → ℕ → Cfg → Cfg
insert_pair p k v g = set_pairs p (insert k v (pairs_of p g)) g

-- what an insertion leaves alone
record Keeps (g h : Cfg) : Type 0 where
  next : h.next_available_id ≡ g.next_available_id
  nodes : h.nodes ≡ g.nodes
  queue : h.reduction_queue ≡ g.reduction_queue
  edges : h.adj_list ≡ g.adj_list

insert_pair-Keeps : (p : PairMap) (k v : ℕ) (g : Cfg) → Keeps g (insert_pair p k v g)
insert_pair-Keeps start_end k v g = record { next = refl; nodes = refl; queue = refl; edges = refl }
insert_pair-Keeps p k v g = record { next = refl; nodes = refl; queue = refl; edges = refl }

pairs_of-set_pairs :
    (q p : PairMap) (m : List (ℕ × ℕ)) (g : Cfg)
    → pairs_of p (set_pairs q m g) ≡ (if same_map q p then m else pairs_of p g)
pairs_of-set_pairs start_end start_end m g = refl
pairs_of-set_pairs start_cond start_cond m g = refl
pairs_of-set_pairs q p m g = ground arith

same_map→eq : (q p : PairMap) → same_map q p ≡ true → q ≡ p
same_map→eq start_end start_end h = refl
same_map→eq start_cond start_cond h = refl
same_map→eq q p h = ground arith

lookup-insert_pair :
    (q p : PairMap) (i j k : ℕ) (g : Cfg)
    → lookup k (pairs_of p (insert_pair q i j g))
      ≡ (if same_map q p && i == k then some j else lookup k (pairs_of p g))
lookup-insert_pair q p i j k g =
    ap (lookup k) (pairs_of-set_pairs q p (insert i j (pairs_of q g)) g)
    ∙ elim (Bool-cases (same_map q p)) [
      | inl same ↦ rw same (
          lookup-insert i k j (pairs_of q g)
          ∙ ap (λ r. if i == k then some j else lookup k (pairs_of r g)) (same_map→eq q p same))
      | inr other ↦ rw other
    ]

pub Built-pair :
    {g0 : Cfg} {t : Template} {g : Cfg}
    → Built g0 t g
    → (q : PairMap) (i j : ℕ)
    → Built g0
        (with_pair t q i j)
        (insert_pair q (g0.next_available_id + i) (g0.next_available_id + j) g)
unfolding raw_successors
Built-pair {g0} {t} {g} b q i j =
    let n = g0.next_available_id in
    let kept = insert_pair-Keeps q (n + i) (n + j) g in
    record {
      next = kept.next ∙ b.next;
      fresh = record {
        unused = λ k h. ap (lookup k) kept.nodes ∙ b.fresh.unused k (rw kept.next at h);
        keyed = rw kept.edges b.fresh.keyed;
      };
      nodes = λ k. ap (lookup k) kept.nodes ∙ b.nodes k;
      queue = kept.queue ∙ b.queue;
      edges = λ a. ap (λ m. or_nil (lookup a m)) kept.edges ∙ b.edges a;
      pairs = λ p k.
          lookup-insert_pair q p (n + i) (n + j) k g
          ∙ rw (b.pairs p k) (sym (pairs_over-append p n k t.pairs q i j _));
    }

module _ {B : Type 0} {Q : B → Cfg → Type 0} {g0 : Cfg} {t : Template} {g : Cfg}
    (b : Built g0 t g) where
  pub build_node :
      (d : CfgNodeDescriptor) (f : ℕ → M B)
      → ((h : Cfg)
          → Built g0 (with_desc t d) h
          → Returns Q (f (g0.next_available_id + length t.nodes) h))
      → Returns Q ((add_node d >>= f) g)
  build_node d f k =
      Returns-step (add_node d) f g g.next_available_id (with_node d g) (add_node-some d g b.fresh)
        (subst (λ n. Returns Q (f n (with_node d g))) (sym b.next)
          (k (with_node d g) (Built-node d g b)))

  pub build_edge :
      (i j : ℕ) (f : Unit {0} → M B)
      → ((h : Cfg) → Built g0 (with_edge t i j) h → Returns Q (f tt h))
      → Returns Q ((add_flow_edge (g0.next_available_id + i) (g0.next_available_id + j) >>= f) g)
  unfolding add_flow_edge
  build_edge i j f k =
      Returns-step (add_flow_edge (g0.next_available_id + i) (g0.next_available_id + j)) f g tt
        (add_raw_directed_edge (g0.next_available_id + i) (g0.next_available_id + j) g) refl
        (k _ (Built-edge b i j))

  pub build_start_end :
      (i j : ℕ) (f : Unit {0} → M B)
      → ((h : Cfg) → Built g0 (with_pair t start_end i j) h → Returns Q (f tt h))
      → Returns Q ((insert_start_end (g0.next_available_id + i) (g0.next_available_id + j) >>= f) g)
  unfolding insert_start_end
  build_start_end i j f k =
      Returns-step (insert_start_end _ _) f g tt _ refl (k _ (Built-pair b start_end i j))

  pub build_start_cond :
      (i j : ℕ) (f : Unit {0} → M B)
      → ((h : Cfg) → Built g0 (with_pair t start_cond i j) h → Returns Q (f tt h))
      → Returns Q
          ((insert_start_cond (g0.next_available_id + i) (g0.next_available_id + j) >>= f) g)
  unfolding insert_start_cond
  build_start_cond i j f k =
      Returns-step (insert_start_cond _ _) f g tt _ refl (k _ (Built-pair b start_cond i j))

  pub build_start_loop :
      (i j : ℕ) (f : Unit {0} → M B)
      → ((h : Cfg) → Built g0 (with_pair t start_loop i j) h → Returns Q (f tt h))
      → Returns Q
          ((insert_start_loop_expr (g0.next_available_id + i) (g0.next_available_id + j) >>= f) g)
  unfolding insert_start_loop_expr
  build_start_loop i j f k =
      Returns-step (insert_start_loop_expr _ _) f g tt _ refl (k _ (Built-pair b start_loop i j))

  pub build_loop_start :
      (i j : ℕ) (f : Unit {0} → M B)
      → ((h : Cfg) → Built g0 (with_pair t loop_start i j) h → Returns Q (f tt h))
      → Returns Q
          ((insert_loop_expr_start (g0.next_available_id + i) (g0.next_available_id + j) >>= f) g)
  unfolding insert_loop_expr_start
  build_loop_start i j f k =
      Returns-step (insert_loop_expr_start _ _) f g tt _ refl (k _ (Built-pair b loop_start i j))

  pub build_cond_start :
      (i j : ℕ) (f : Unit {0} → M B)
      → ((h : Cfg) → Built g0 (with_pair t cond_start i j) h → Returns Q (f tt h))
      → Returns Q
          ((insert_cond_start (g0.next_available_id + i) (g0.next_available_id + j) >>= f) g)
  unfolding insert_cond_start
  build_cond_start i j f k =
      Returns-step (insert_cond_start _ _) f g tt _ refl (k _ (Built-pair b cond_start i j))

pub build_edge_last :
    {g0 : Cfg} {t : Template} {g : Cfg}
    → Built g0 t g
    → (i j : ℕ)
    → Returns
        (λ _ h. Built g0 (with_edge t i j) h)
        (add_flow_edge (g0.next_available_id + i) (g0.next_available_id + j) g)
unfolding add_flow_edge
build_edge_last b i j = returns (Built-edge b i j)
