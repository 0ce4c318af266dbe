-- ===== src/Flow/Jumps/Discover.antt =====
-- `discover_jump_sources` of aderyn_core/src/context/flow/utils.rs finds each jump that the start leads to.
use aderyn.Prelude.{
  ℕ, zero, suc, ◌+◌, ◌<◌, Bool, true, false, not, ◌&&◌, ◌||◌, Option, none, some, List, [], ◌∷◌,
  ◌≡◌, refl, ap, ◌∙◌, arith, ◌==◌, Bool-cases, Option-cases, inl, inr, ==_iff, All, contains,
  length, contains-append,
}
use aderyn.Flow.Node.{
  CfgNode, CfgNodeDescriptor, continue_statement, break_statement, return_statement,
}
use aderyn.Flow.Cfg.{Cfg, raw_successors, has_node}
use aderyn.Flow.Cfg.Edges.{edge}
use aderyn.Prelude.Leads.{Leads, here, step}
use aderyn.Flow.Reduce.Invariant.{IsReducing, node_at}
use aderyn.Flow.Jumps.{Sources, note_jump, for_children, discover_jump_sources, no_sources}
use aderyn.Prelude.Unvisited.{left, left-le, left-visit, left-length, All-contains}

-- the three kinds of jumps, and their lists
pub data Jump : Type 0 where
  continues breaks returning : Jump

abbrev pub listed : Jump → Sources → List ℕ
listed continues s = s.continue_statements
listed breaks s = s.break_statements
listed returning s = s.return_statements

abbrev pub is_jump : Jump → CfgNodeDescriptor → Bool
is_jump continues (continue_statement i) = true
is_jump breaks (break_statement i) = true
is_jump returning (return_statement i) = true
is_jump _ _ = false

abbrev jump_in : Jump → Option CfgNode → Bool
jump_in j none = false
jump_in j (some node) = is_jump j node.nd

abbrev pub jump_at : Jump → Cfg → ℕ → Bool
jump_at j g k = jump_in j (node_at g k)

contains-note_jump :
    (j : Jump) (nd : CfgNodeDescriptor) (id k : ℕ) (s : Sources)
    → contains (listed j (note_jump nd id s)) k
      ≡ (contains (listed j s) k || (is_jump j nd && id == k))
contains-note_jump continues (continue_statement i) id k s =
    contains-append s.continue_statements (id ∷ []) k ∙ ground arith
contains-note_jump breaks (break_statement i) id k s =
    contains-append s.break_statements (id ∷ []) k ∙ ground arith
contains-note_jump returning (return_statement i) id k s =
    contains-append s.return_statements (id ∷ []) k ∙ ground arith
contains-note_jump j nd id k s = ground arith

-- What a search from `a` does to the visited set and the lists.
pub record Explored (g : Cfg) (a : ℕ) (s s' : Sources) : Type 0 where
  pub grows : (k : ℕ) → contains s.visited k ≡ true → contains s'.visited k ≡ true
  pub reached :
      (k : ℕ) → contains s'.visited k ≡ true → contains s.visited k ≡ false → Leads (edge g) a k
  pub closed :
      (k b : ℕ)
      → contains s'.visited k ≡ true
      → contains s.visited k ≡ false
      → edge g k b ≡ true
      → contains s'.visited b ≡ true
  pub finds :
      (j : Jump) (k : ℕ)
      → contains (listed j s') k ≡ (
          contains (listed j s) k
          || ((contains s'.visited k && not (contains s.visited k)) && jump_at j g k))

Explored-self : (g : Cfg) (a : ℕ) (s : Sources) → Explored g a s s
Explored-self g a s = record {
  grows = λ k p. p;
  reached = λ k p o. ground (arith, p, o);
  closed = λ k b p o e. ground (arith, p, o);
  finds = λ j k. ground arith;
}

-- a child of `a`, and then the other children
Explored-then :
    {g : Cfg} {a c : ℕ} {s s1 s2 : Sources}
    → edge g a c ≡ true
    → Explored g c s s1
    → Explored g a s1 s2
    → Explored g a s s2
Explored-then {s1 = s1} e x y = record {
  grows = λ k p. y.grows k (x.grows k p);
  reached = λ k p o. elim (Bool-cases (contains s1.visited k)) [
    | inl v ↦ step e (x.reached k v o)
    | inr u ↦ y.reached k p u
  ];
  closed = λ k b p o f. elim (Bool-cases (contains s1.visited k)) [
    | inl v ↦ y.grows b (x.closed k b v o f)
    | inr u ↦ y.closed k b p u f
  ];
  finds = λ j k. y.finds j k ∙ rw (x.finds j k) (ground (arith, x.grows k, y.grows k));
}

-- A visit with enough fuel for the nodes that are left returns, and has visited its node.
abbrev Visits : Cfg → ℕ → (ℕ → Sources → Option Sources) → Type 0
Visits g fuel visit =
    (c : ℕ) (s : Sources)
    → has_node g c ≡ true
    → left g.nodes s.visited < fuel
    → (s' : Sources) × (visit c s ≡ some s') × Explored g c s s' × (contains s'.visited c ≡ true)

for_children-Explored :
    (g : Cfg) (fuel : ℕ) (visit : ℕ → Sources → Option Sources)
    → Visits g fuel visit
    → (a : ℕ) (cs : List ℕ) (s : Sources)
    → All (λ c. (has_node g c ≡ true) × (edge g a c ≡ true)) cs
    → left g.nodes s.visited < fuel
    → (s' : Sources) × (for_children visit cs s ≡ some s')
      × Explored g a s s'
      × All (λ c. contains s'.visited c ≡ true) cs
unfolding for_children
for_children-Explored g fuel visit ok a [] s all l = (s, refl, Explored-self g a s, tt)
for_children-Explored g fuel visit ok a (c ∷ cs) s ((there, e), all) l =
    let (s1, run, x, seen) = ok c s there l in
    let (s2, run', y, rest) =
      for_children-Explored g fuel visit ok a cs s1 all
        (omega (arith, l, left-le g.nodes s.visited s1.visited x.grows)) in
    (s2, rw run run', Explored-then e x y, (y.grows c seen, rest))

note_jump-visited :
    (nd : CfgNodeDescriptor) (id : ℕ) (s : Sources) → (note_jump nd id s).visited ≡ s.visited
note_jump-visited (continue_statement i) id s = refl
note_jump-visited nd id s = refl

attached-All :
    (g : Cfg)
    → IsReducing g
    → (a : ℕ) (cs : List ℕ) → ((b : ℕ) → contains cs b ≡ true → edge g a b ≡ true)
    → All (λ c. (has_node g c ≡ true) × (edge g a c ≡ true)) cs
attached-All g i a [] f = tt
attached-All g i a (c ∷ cs) f =
    let e = f c (ground arith) in
    (((i.attached a c e).1, e), attached-All g i a cs (λ b h. f b (ground (arith, h))))

-- the search from a node `c` that has not been visited, once its children have been searched
module _ (g : Cfg) (c : ℕ) (nd : CfgNodeDescriptor) (s s' : Sources)
    (at : node_at g c ≡ some (record { id = c; nd = nd })) (unseen : contains s.visited c ≡ false)
    (x : Explored g c (note_jump nd c (record s { visited = c ∷ s.visited })) s')
    (all : (b : ℕ) → edge g c b ≡ true → contains s'.visited b ≡ true) where
  abbrev entered : Sources
  entered = note_jump nd c (record s { visited = c ∷ s.visited })

  entered-visited : (k : ℕ) → contains entered.visited k ≡ (c == k || contains s.visited k)
  entered-visited k =
      ap (λ v. contains v k) (note_jump-visited nd c (record s { visited = c ∷ s.visited }))

  entered-listed : (j : Jump) → listed j (record s { visited = c ∷ s.visited }) ≡ listed j s
  entered-listed continues = refl
  entered-listed breaks = refl
  entered-listed returning = refl

  node_seen : contains s'.visited c ≡ true
  node_seen = x.grows c (entered-visited c ∙ ground arith)

  -- the node itself is noted if it is a jump
  one_more :
      (j : Jump) (k : ℕ)
      → ((contains (listed j s) k || (is_jump j nd && c == k))
          || ((contains s'.visited k && not (c == k || contains s.visited k)) && jump_at j g k))
        ≡ (contains (listed j s) k
            || ((contains s'.visited k && not (contains s.visited k)) && jump_at j g k))
  one_more j k = elim (Bool-cases (c == k)) [
    | inl same ↦ rw (← (==_iff c k).0 same, node_seen, unseen, at) (ground arith)
    | inr other ↦ rw other (ground arith)
  ]

  Explored-node : Explored g c s s'
  Explored-node = record {
    grows = λ k p. x.grows k (entered-visited k ∙ ground (arith, p));
    reached = λ k p o. elim (Bool-cases (c == k)) [
      | inl same ↦ rw (← (==_iff c k).0 same) here
      | inr other ↦ x.reached k p (entered-visited k ∙ ground (arith, other, o))
    ];
    closed = λ k b p o e. elim (Bool-cases (c == k)) [
      | inl same ↦ all b (rw (← (==_iff c k).0 same) at e)
      | inr other ↦ x.closed k b p (entered-visited k ∙ ground (arith, other, o)) e
    ];
    finds = λ j k.
        x.finds j k
        ∙ rw
            (
              contains-note_jump j nd c k (record s { visited = c ∷ s.visited }),
              entered-listed j,
              entered-visited k,
            )
            (one_more j k);
  }

discover_jump_sources-Visits :
    (g : Cfg) → IsReducing g → (fuel : ℕ) → Visits g fuel (discover_jump_sources g fuel)
unfolding discover_jump_sources
discover_jump_sources-Visits g i zero c s there l = ground (arith, l)
discover_jump_sources-Visits g i (suc fuel) c s there l = elim (Bool-cases (contains s.visited c)) [
  | inl seen ↦ (s, rw seen refl, Explored-self g c s, seen)
  | inr unseen ↦ elim (Option-cases (node_at g c)) [
    | inl missing ↦ ground (arith, missing, there)
    | inr (node, at) ↦
        let own : node.id ≡ c = i.own_ids c node at in
        let at' : node_at g c ≡ some (record { id = c; nd = node.nd }) =
          at ∙ ap (λ k. some (record { id = k; nd = node.nd })) own in
        let visited = note_jump-visited node.nd c (record s { visited = c ∷ s.visited }) in
        let (s', run, x, all) =
          for_children-Explored g fuel (discover_jump_sources g fuel)
            (discover_jump_sources-Visits g i fuel) c (raw_successors g c)
            (note_jump node.nd c (record s { visited = c ∷ s.visited }))
            (attached-All g i c (raw_successors g c) (λ b h. h))
            (rw visited (omega (arith, l, left-visit g.nodes s.visited c there unseen))) in
        (
          s',
          rw (unseen, at', run) refl,
          Explored-node g c node.nd s s' at' unseen x
              (All-contains s'.visited (raw_successors g c) all),
          node_seen g c node.nd s s' at' unseen x
              (All-contains s'.visited (raw_successors g c) all),
        )
  ]
]

-- What the search from `start` finds: the nodes that it leads to are those visited, and each list holds
-- exactly the jumps of its kind among them.
pub record Discovered (g : Cfg) (start : ℕ) (s : Sources) : Type 0 where
  pub led_to : (k : ℕ) → Leads (edge g) start k → contains s.visited k ≡ true
  pub only : (k : ℕ) → contains s.visited k ≡ true → Leads (edge g) start k
  pub jumps : (j : Jump) (k : ℕ) → contains (listed j s) k ≡ (contains s.visited k && jump_at j g k)

closed-Leads :
    (g : Cfg) (v : List ℕ)
    → ((k b : ℕ) → contains v k ≡ true → edge g k b ≡ true → contains v b ≡ true)
    → {a k : ℕ} → contains v a ≡ true
    → Leads (edge g) a k
    → contains v k ≡ true
closed-Leads g v f h here = h
closed-Leads g v f h (step {a} {b} e p) = closed-Leads g v f (f a b h e) p

-- In a graph that satisfies the invariant of the reduction, from one of its nodes, and with one more
-- fuel than there are nodes, `discover_jump_sources` returns: it has visited exactly the nodes that the
-- start leads to, and has listed exactly the `continue`, `break` and `return` nodes among them.
pub discover_jump_sources-Discovered :
    (g : Cfg)
    → IsReducing g
    → (start : ℕ) → has_node g start ≡ true
    → (s : Sources) × (discover_jump_sources g (length g.nodes + 1) start no_sources ≡ some s)
      × Discovered g start s
discover_jump_sources-Discovered g i start there =
    let (s, run, x, seen) =
      discover_jump_sources-Visits g i (length g.nodes + 1) start no_sources there
        (omega (arith, left-length g.nodes [])) in
    (
      s,
      run,
      record {
        led_to = λ k p. closed-Leads g s.visited (λ k b v e. x.closed k b v refl e) seen p;
        only = λ k p. x.reached k p refl;
        jumps = λ j k. x.finds j k ∙ nothing_before j (contains s.visited k) (jump_at j g k) k;
      },
    )
  where
    nothing_before :
        (j : Jump) (v p : Bool) (k : ℕ)
        → (contains (listed j no_sources) k || ((v && not false) && p)) ≡ (v && p)
    nothing_before continues v p k = ground arith
    nothing_before breaks v p k = ground arith
    nothing_before returning v p k = ground arith
