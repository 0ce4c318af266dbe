-- ===== src/Graph/New/Stack.antt =====
-- A search with a stack: what is visited may use what is only stacked yet.
use aderyn.Prelude.{
  ℕ, Bool, true, false, ◌&&◌, ◌||◌, List, [], ◌∷◌, ◌++◌, ◌≡◌, refl, ap, ◌∙◌, sym, arith, ◌==◌,
  Bool-cases, inl, inr, ==_iff, contains, is_some,
}
use aderyn.Prelude.Leads.{Leads, here, step, Leads-append}
use aderyn.Prelude.Assoc.{lookup, lookup-insert}
use aderyn.Workspace.Context.{RawCallGraph}
use aderyn.Graph.Raw.{
  create_connection_if_not_exists, create_node_if_not_exists, connected, IsSimple,
  lookup-create_connection, connected-create_connection, create_connection-IsSimple,
  connected-create_node, create_node-IsSimple,
}
use aderyn.Graph.Search.{Search, connecting, uses_it, Done, Leads-visited}
use aderyn.Graph.New.{visiting}

abbrev pub has_key : RawCallGraph → ℕ → Bool
has_key g k = is_some (lookup k g)

has_key-create_connection :
    (from to : ℕ) (g : RawCallGraph) (k : ℕ)
    → has_key (create_connection_if_not_exists from to g) k ≡ (from == k || has_key g k)
has_key-create_connection from to g k =
    ap is_some (lookup-create_connection from to g k) ∙ ground arith

pub has_key-create_node :
    (i : ℕ) (g : RawCallGraph) (k : ℕ)
    → has_key (create_node_if_not_exists i g) k ≡ (i == k || has_key g k)
unfolding create_node_if_not_exists
has_key-create_node i g k = elim (Bool-cases (has_key g i)) [
  | inl old ↦ elim (Bool-cases (i == k)) [
    | inl same ↦ rw old (ground (arith, same, rw ((==_iff i k).0 same) at old))
    | inr other ↦ rw old (ground (arith, other))
  ]
  | inr new ↦ rw new (ap is_some (lookup-insert i k [] g) ∙ ground arith)
]

-- what the calls of a node add: its connections, and what is pushed
unfoldable pub connect_all : ℕ → List ℕ → Search → Search
connect_all c [] s = s
connect_all c (t ∷ ts) s = connect_all c ts (connecting c t s)

abbrev pub push_all : List ℕ → List ℕ → List ℕ
push_all [] current = current
push_all (t ∷ ts) current = push_all ts (t ∷ current)

pub connect_all-append :
    (c : ℕ) (ts us : List ℕ) (s : Search)
    → connect_all c us (connect_all c ts s) ≡ connect_all c (ts ++ us) s
unfolding connect_all
connect_all-append c [] us s = refl
connect_all-append c (t ∷ ts) us s = connect_all-append c ts us (connecting c t s)

pub push_all-append :
    (ts us current : List ℕ) → push_all us (push_all ts current) ≡ push_all (ts ++ us) current
push_all-append [] us current = refl
push_all-append (t ∷ ts) us current = push_all-append ts us (t ∷ current)

contains-push_all :
    (ts current : List ℕ) (k : ℕ)
    → contains (push_all ts current) k ≡ (contains ts k || contains current k)
contains-push_all [] current k = refl
contains-push_all (t ∷ ts) current k = contains-push_all ts (t ∷ current) k ∙ ground arith

pub connect_all-visited :
    (c : ℕ) (ts : List ℕ) (s : Search) → (connect_all c ts s).visited ≡ s.visited
unfolding connect_all connecting
connect_all-visited c [] s = refl
connect_all-visited c (t ∷ ts) s = connect_all-visited c ts (connecting c t s)

connected-connect_all :
    (c : ℕ) (ts : List ℕ) (s : Search) (k b : ℕ)
    → connected (connect_all c ts s).raw_callgraph k b
      ≡ (connected s.raw_callgraph k b || (c == k && contains ts b))
unfolding connect_all connecting
connected-connect_all c [] s k b = ground arith
connected-connect_all c (t ∷ ts) s k b =
    connected-connect_all c ts (connecting c t s) k b
    ∙ rw (connected-create_connection c t s.raw_callgraph k b) (ground arith)

connect_all-IsSimple :
    (c : ℕ) (ts : List ℕ) (s : Search)
    → IsSimple s.raw_callgraph
    → IsSimple (connect_all c ts s).raw_callgraph
unfolding connect_all connecting
connect_all-IsSimple c [] s h = h
connect_all-IsSimple c (t ∷ ts) s h =
    connect_all-IsSimple c ts (connecting c t s) (create_connection-IsSimple c t s.raw_callgraph h)

has_key-connect_all :
    (c : ℕ) (ts : List ℕ) (s : Search) (k : ℕ)
    → has_key s.raw_callgraph c ≡ true
    → has_key (connect_all c ts s).raw_callgraph k ≡ has_key s.raw_callgraph k
unfolding connect_all connecting
has_key-connect_all c [] s k h = refl
has_key-connect_all c (t ∷ ts) s k h =
    has_key-connect_all c ts (connecting c t s) k
      (has_key-create_connection c t s.raw_callgraph c ∙ ground (arith, h))
    ∙ has_key-create_connection c t s.raw_callgraph k
    ∙ elim (Bool-cases (c == k)) [
      | inl same ↦ ground (arith, same, rw ((==_iff c k).0 same) at h)
      | inr other ↦ ground (arith, other)
    ]

module _ (uses : ℕ → List ℕ) where
  pub record Open (roots : List ℕ) (s : Search) (current : List ℕ) : Type 0 where
    pub only :
        (k : ℕ)
        → (contains s.visited k || contains current k) ≡ true
        → (r : ℕ) × (contains roots r ≡ true) × Leads (uses_it uses) r k
    pub closed :
        (k b : ℕ)
        → contains s.visited k ≡ true
        → uses_it uses k b ≡ true
        → (contains s.visited b || contains current b) ≡ true
    pub started :
        (r : ℕ) → contains roots r ≡ true → (contains s.visited r || contains current r) ≡ true
    pub edges :
        (k b : ℕ) → connected s.raw_callgraph k b ≡ (contains s.visited k && uses_it uses k b)
    pub keys : (k : ℕ) → has_key s.raw_callgraph k ≡ contains s.visited k
    pub simple : IsSimple s.raw_callgraph

  -- a node on the top that was visited before
  pub Open-seen :
      {roots : List ℕ} {s : Search} {c : ℕ} {current : List ℕ}
      → contains s.visited c ≡ true
      → Open roots s (c ∷ current)
      → Open roots s current
  Open-seen {c = c} seen o = record {
    only = λ k h. o.only k (ground (arith, h));
    closed = λ k b v e. elim (Bool-cases (c == b)) [
      | inl same ↦ rw (← (==_iff c b).0 same, seen) refl
      | inr other ↦ ground (arith, o.closed k b v e, other)
    ];
    started = λ r h. elim (Bool-cases (c == r)) [
      | inl same ↦ rw (← (==_iff c r).0 same, seen) refl
      | inr other ↦ ground (arith, o.started r h, other)
    ];
    edges = o.edges;
    keys = o.keys;
    simple = o.simple;
  }

  module _ (roots : List ℕ) (s : Search) (c : ℕ) (current ts : List ℕ) (own : uses c ≡ ts)
      (unseen : contains s.visited c ≡ false) (o : Open roots s (c ∷ current)) where
    abbrev after : Search
    after = connect_all c ts (visiting c s)

    after-visited : (k : ℕ) → contains after.visited k ≡ (c == k || contains s.visited k)
    unfolding visiting
    after-visited k = ap (λ v. contains v k) (connect_all-visited c ts (visiting c s))

    pushed : (k : ℕ) → contains (push_all ts current) k ≡ (contains ts k || contains current k)
    pushed k = contains-push_all ts current k

    own_uses : (b : ℕ) → uses_it uses c b ≡ contains ts b
    own_uses b = ap (λ rs. contains rs b) own

    after-edges :
        (k b : ℕ)
        → connected after.raw_callgraph k b
          ≡ ((contains s.visited k && uses_it uses k b) || (c == k && contains ts b))
    unfolding visiting
    after-edges k b =
        connected-connect_all c ts (visiting c s) k b
        ∙ rw (connected-create_node c s.raw_callgraph k b, o.edges k b) refl

    after-keys : (k : ℕ) → has_key after.raw_callgraph k ≡ (c == k || contains s.visited k)
    unfolding visiting
    after-keys k =
        has_key-connect_all c ts (visiting c s) k
          (has_key-create_node c s.raw_callgraph c ∙ ground arith)
        ∙ has_key-create_node c s.raw_callgraph k
        ∙ ground (arith, o.keys k)

    after-IsSimple : IsSimple after.raw_callgraph
    unfolding visiting
    after-IsSimple =
        connect_all-IsSimple c ts (visiting c s) (create_node-IsSimple c s.raw_callgraph o.simple)

    -- a node on the top that was not visited: what it uses is connected, and pushed
    pub Open-visit : Open roots after (push_all ts current)
    Open-visit = record {
      only = λ k h. elim (Bool-cases (contains s.visited k || contains (c ∷ current) k)) [
        | inl old ↦ o.only k old
        | inr new ↦
            let (r, root, l) = o.only c (ground arith) in
            let used : contains ts k ≡ true = ground (arith, after-visited k, pushed k, h, new) in
            (r, root, Leads-append l (step (own_uses k ∙ used) here))
      ];
      closed = λ k b v e. elim (Bool-cases (c == k)) [
        | inl same ↦
            let e' = rw (← (==_iff c k).0 same) at e in ground (arith, pushed b, own_uses b, e')
        | inr other ↦
            let before = o.closed k b (ground (arith, after-visited k, v, other)) e in
            ground (arith, pushed b, after-visited b, before)
      ];
      started = λ r h. ground (arith, o.started r h, pushed r, after-visited r);
      edges = λ k b. after-edges k b ∙ elim (Bool-cases (c == k)) [
        | inl same ↦
            rw (← (==_iff c k).0 same) (ground (arith, after-visited c, own_uses b, unseen))
        | inr other ↦ ground (arith, after-visited k, other)
      ];
      keys = λ k. after-keys k ∙ sym (after-visited k);
      simple = after-IsSimple;
    }

  pub Done-Open :
      {roots : List ℕ} (r : ℕ) {s : Search}
      → Done uses roots s
      → ((k : ℕ) → has_key s.raw_callgraph k ≡ contains s.visited k)
      → Open (r ∷ roots) s (r ∷ [])
  Done-Open {roots} r {s} d keyed = record {
    only = λ k h. elim (Bool-cases (contains s.visited k)) [
      | inl old ↦ let (q, root, l) = d.only k old in (q, ground (arith, root), l)
      | inr new ↦
          let same : (r == k) ≡ true = ground (arith, h, new) in
          (r, ground arith, rw (← (==_iff r k).0 same) here)
    ];
    closed = λ k b v e. ground (arith, d.closed k b v e);
    started = λ q h. elim (Bool-cases (r == q)) [
      | inl same ↦ ground (arith, same)
      | inr other ↦ ground (arith, d.started q (ground (arith, h, other)))
    ];
    edges = d.edges;
    keys = keyed;
    simple = d.simple;
  }

  pub Open-Done : {roots : List ℕ} {s : Search} → Open roots s [] → Done uses roots s
  Open-Done o = record {
    only = λ k h. o.only k (ground (arith, h));
    closed = λ k b v e. ground (arith, o.closed k b v e);
    started = λ r h. ground (arith, o.started r h);
    edges = o.edges;
    simple = o.simple;
  }

  -- The keys of a graph are the nodes that the roots lead to.
  pub record IsKeyed (roots : List ℕ) (g : RawCallGraph) : Type 0 where
    pub only :
        (k : ℕ)
        → has_key g k ≡ true
        → (r : ℕ) × (contains roots r ≡ true) × Leads (uses_it uses) r k
    pub complete :
        (r k : ℕ) → contains roots r ≡ true → Leads (uses_it uses) r k → has_key g k ≡ true

  pub Done-IsKeyed :
      {roots : List ℕ} (s : Search)
      → Done uses roots s
      → ((k : ℕ) → has_key s.raw_callgraph k ≡ contains s.visited k)
      → IsKeyed roots s.raw_callgraph
  Done-IsKeyed s d keyed = record {
    only = λ k h. d.only k (sym (keyed k) ∙ h);
    complete = λ r k root l. keyed k ∙ Leads-visited uses s d (d.started r root) l;
  }
