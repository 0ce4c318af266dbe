-- ===== src/Flow/Jumps/Find.antt =====
-- `find_jump_dest` of aderyn_core/src/context/flow/utils.rs finds the end of a loop that it can walk to.
use aderyn.Prelude.{
  ℕ, zero, suc, ◌+◌, ◌<◌, ◌⊎◌, Bool, true, false, Option, none, some, List, [], ◌∷◌, ◌≡◌, refl, sym,
  ap, ◌∙◌, arith, ◌==◌, Bool-cases, inl, inr, ==_iff, is_some, All, contains, length,
}
use aderyn.Flow.Node.{CfgNode, CfgNodeDescriptor}
use aderyn.Flow.Cfg.{Cfg, or_nil}
use aderyn.Prelude.Leads.{Leads, here, step}
use aderyn.Flow.Reduce.Invariant.{node_at}
use aderyn.Flow.Jumps.{JumpDestination, loop_of, jump_children, first_dest, find_jump_dest}
use aderyn.Prelude.Unvisited.{left, left-le, left-visit, left-length, All-contains}

abbrev site : Cfg → Option CfgNode → Option (Option JumpDestination)
site g none = none
site g (some node) = loop_of g node.id node.nd

abbrev walk_on : Cfg → Option CfgNode → Option (Option JumpDestination) → List ℕ
walk_on g (some node) (some none) = or_nil (jump_children g node.id node.nd)
walk_on g _ _ = []

-- A step of the walk: to the end of a start node, and to the successors of any other node that is not
-- the end of a loop's condition or update.
abbrev pub hop : Cfg → ℕ → ℕ → Bool
hop g a b = contains (walk_on g (node_at g a) (site g (node_at g a))) b

abbrev loop_at : Option (Option JumpDestination) → Option JumpDestination
loop_at none = none
loop_at (some dest) = dest

-- the loop that ends at a node
abbrev pub ends_at : Cfg → ℕ → Option JumpDestination
ends_at g k = loop_at (site g (node_at g k))

-- Each node of the set bears its id, has the lookup entries that the search asks for, and leads to nodes
-- of the set.
abbrev pub IsSearchable : Cfg → (ℕ → Type 0) → Type 0
IsSearchable g S =
    (k : ℕ)
    → S k
    → (node : CfgNode) × (node_at g k ≡ some node)
      × (node.id ≡ k)
      × (((d : JumpDestination) × (loop_of g k node.nd ≡ some (some d)))
          ⊎ ((loop_of g k node.nd ≡ some none)
              × (cs : List ℕ) × (jump_children g k node.nd ≡ some cs)
              × All S cs))

-- What a search from `c` gives, and does to the visited set.
record Sought (g : Cfg) (c : ℕ) (v : List ℕ) (r : Option JumpDestination) (v' : List ℕ)
    : Type 0 where
  grows : (k : ℕ) → contains v k ≡ true → contains v' k ≡ true
  found : (d : JumpDestination) → r ≡ some d → (k : ℕ) × Leads (hop g) c k × (ends_at g k ≡ some d)
  closed :
      r ≡ none
      → (a b : ℕ) → contains v' a ≡ true
      → contains v a ≡ false
      → hop g a b ≡ true
      → contains v' b ≡ true
  quiet : r ≡ none → (a : ℕ) → contains v' a ≡ true → contains v a ≡ false → ends_at g a ≡ none

Sought-self : (g : Cfg) (c : ℕ) (v : List ℕ) → Sought g c v none v
Sought-self g c v = record {
  grows = λ k p. p;
  found = λ d e. cc;
  closed = λ e a b p o h. ground (arith, p, o);
  quiet = λ e a p o. ground (arith, p, o);
}

-- a child that finds nothing, and then the other children
Sought-then :
    {g : Cfg} {a c : ℕ} {v v1 v2 : List ℕ} {r : Option JumpDestination}
    → Sought g c v none v1
    → Sought g a v1 r v2
    → Sought g a v r v2
Sought-then {v1 = v1} x y = record {
  grows = λ k p. y.grows k (x.grows k p);
  found = y.found;
  closed = λ e k b p o h. elim (Bool-cases (contains v1 k)) [
    | inl w ↦ y.grows b (x.closed refl k b w o h)
    | inr u ↦ y.closed e k b p u h
  ];
  quiet = λ e k p o. elim (Bool-cases (contains v1 k)) [
    | inl w ↦ x.quiet refl k w o
    | inr u ↦ y.quiet e k p u
  ];
}

-- a child that finds a loop
Sought-found :
    {g : Cfg} {a c : ℕ} {v v1 : List ℕ} {d : JumpDestination}
    → hop g a c ≡ true
    → Sought g c v (some d) v1
    → Sought g a v (some d) v1
Sought-found h x = record {
  grows = x.grows;
  found = λ d e. let (k, p, q) = x.found d e in (k, step h p, q);
  closed = λ e. cc;
  quiet = λ e. cc;
}

abbrev Finds :
    Cfg → (ℕ → Type 0) → ℕ → (ℕ → List ℕ → Option (Option JumpDestination × List ℕ)) → Type 0
Finds g S fuel find =
    (c : ℕ) (v : List ℕ)
    → S c
    → left g.nodes v < fuel
    → (r : Option JumpDestination) × (v' : List ℕ) × (find c v ≡ some (r, v'))
      × Sought g c v r v'
      × (contains v' c ≡ true)

-- what the search of the children `cs` of `a` gives
abbrev FoundAmong :
    Cfg → (ℕ → List ℕ → Option (Option JumpDestination × List ℕ)) → ℕ → List ℕ → List ℕ → Type 0
FoundAmong g find a cs v =
    (r : Option JumpDestination) × (v' : List ℕ) × (first_dest find cs v ≡ some (r, v'))
    × Sought g a v r v'
    × (r ≡ none → All (λ c. contains v' c ≡ true) cs)

after_child :
    (g : Cfg) (find : ℕ → List ℕ → Option (Option JumpDestination × List ℕ)) (a c : ℕ)
    (cs v v1 : List ℕ) (r : Option JumpDestination)
    → find c v ≡ some (r, v1)
    → Sought g c v r v1
    → contains v1 c ≡ true
    → hop g a c ≡ true
    → FoundAmong g find a cs v1
    → FoundAmong g find a (c ∷ cs) v
unfolding first_dest
after_child g find a c cs v v1 (some d) run x seen h rest =
    (some d, v1, rw run refl, Sought-found h x, λ e. cc)
after_child g find a c cs v v1 none run x seen h (r, v2, run', y, rest) =
    (r, v2, rw run run', Sought-then x y, λ e. (y.grows c seen, rest e))

first_dest-Sought :
    (g : Cfg) (S : ℕ → Type 0) (fuel : ℕ)
    (find : ℕ → List ℕ → Option (Option JumpDestination × List ℕ))
    → Finds g S fuel find
    → (a : ℕ) (cs : List ℕ) (v : List ℕ) → All (λ c. S c × (hop g a c ≡ true)) cs
    → left g.nodes v < fuel
    → FoundAmong g find a cs v
unfolding first_dest
first_dest-Sought g S fuel find ok a [] v all l = (none, v, refl, Sought-self g a v, λ e. tt)
first_dest-Sought g S fuel find ok a (c ∷ cs) v ((s, h), all) l =
    let (r, v1, run, x, seen) = ok c v s l in
    after_child g find a c cs v v1 r run x seen h (
      first_dest-Sought g S fuel find ok a cs v1 all
        (omega (arith, l, left-le g.nodes v v1 x.grows)))

children-hop :
    (g : Cfg) (S : ℕ → Type 0) (a : ℕ) (all cs : List ℕ)
    → ((b : ℕ) → contains all b ≡ true → hop g a b ≡ true)
    → ((b : ℕ) → contains cs b ≡ true → contains all b ≡ true)
    → All S cs
    → All (λ c. S c × (hop g a c ≡ true)) cs
children-hop g S a all [] f m h = tt
children-hop g S a all (c ∷ cs) f m h = (
  (h.0, f c (m c (ground arith))),
  children-hop g S a all cs f (λ b p. m b (ground (arith, p))) h.1,
)

-- the search from a node that has not been visited, once its children have been searched
module _ (g : Cfg) (c : ℕ) (v v' cs : List ℕ) (r : Option JumpDestination)
    (unseen : contains v c ≡ false) (no_loop : ends_at g c ≡ none)
    (onward : (b : ℕ) → hop g c b ≡ contains cs b) (x : Sought g c (c ∷ v) r v')
    (all : r ≡ none → All (λ b. contains v' b ≡ true) cs) where
  Sought-node : Sought g c v r v'
  Sought-node = record {
    grows = λ k p. x.grows k (ground (arith, p));
    found = x.found;
    closed = λ e a b p o h. elim (Bool-cases (c == a)) [
      | inl same ↦ All-contains v' cs (all e) b (sym (onward b) ∙ rw (← (==_iff c a).0 same) at h)
      | inr other ↦ x.closed e a b p (ground (arith, other, o)) h
    ];
    quiet = λ e a p o. elim (Bool-cases (c == a)) [
      | inl same ↦ rw (← (==_iff c a).0 same) no_loop
      | inr other ↦ x.quiet e a p (ground (arith, other, o))
    ];
  }

  node_visited : contains v' c ≡ true
  node_visited = x.grows c (ground arith)

module _ (g : Cfg) (c : ℕ) (nd : CfgNodeDescriptor)
    (at : node_at g c ≡ some (record { id = c; nd = nd })) where
  pub ends_at-loop : (d : JumpDestination) → loop_of g c nd ≡ some (some d) → ends_at g c ≡ some d
  ends_at-loop d e = ap (λ o. loop_at (site g o)) at ∙ ap loop_at e

  pub ends_at-none : loop_of g c nd ≡ some none → ends_at g c ≡ none
  ends_at-none e = ap (λ o. loop_at (site g o)) at ∙ ap loop_at e

  pub hop-loop :
      (d : JumpDestination) → loop_of g c nd ≡ some (some d) → (b : ℕ) → hop g c b ≡ false
  hop-loop d e b =
      ap (λ o. contains (walk_on g o (site g o)) b) at
      ∙ ap (λ l. contains (walk_on g (some (record { id = c; nd = nd })) l) b) e

  pub hop-children :
      (cs : List ℕ)
      → loop_of g c nd ≡ some none
      → jump_children g c nd ≡ some cs
      → (b : ℕ) → hop g c b ≡ contains cs b
  hop-children cs e e' b =
      ap (λ o. contains (walk_on g o (site g o)) b) at
      ∙ ap (λ l. contains (walk_on g (some (record { id = c; nd = nd })) l) b) e
      ∙ ap (λ o. contains (or_nil o) b) e'

find_jump_dest-Finds :
    (g : Cfg) (S : ℕ → Type 0)
    → IsSearchable g S
    → (fuel : ℕ) → Finds g S fuel (find_jump_dest g fuel)
unfolding find_jump_dest
find_jump_dest-Finds g S ok zero c v s l = ground (arith, l)
find_jump_dest-Finds g S ok (suc fuel) c v s l = elim (Bool-cases (contains v c)) [
  | inl seen ↦ (none, v, rw seen refl, Sought-self g c v, seen)
  | inr unseen ↦
      let (node, at, own, w) = ok c s in
      let at' : node_at g c ≡ some (record { id = c; nd = node.nd }) =
        at ∙ ap (λ k. some (record { id = k; nd = node.nd })) own in
      elim w [
        | inl (d, e) ↦ (
          some d,
          c ∷ v,
          rw (unseen, at', e) refl,
          record {
            grows = λ k p. ground (arith, p);
            found = λ d' q. (c, here, ends_at-loop g c node.nd at' d e ∙ q);
            closed = λ q. cc;
            quiet = λ q. cc;
          },
          ground arith,
        )
        | inr (e, cs, e', all) ↦
            let onward = hop-children g c node.nd at' cs e e' in
            let there = ap is_some at' in
            let (r, v', run, x, rest) =
              first_dest-Sought g S fuel (find_jump_dest g fuel) (find_jump_dest-Finds g S ok fuel)
                c cs (c ∷ v) (children-hop g S c cs cs (λ b p. onward b ∙ p) (λ b p. p) all)
                (omega (arith, l, left-visit g.nodes v c there unseen)) in
            (
              r,
              v',
              rw (unseen, at', e, e', run) refl,
              Sought-node g c v v' cs r unseen (ends_at-none g c node.nd at' e) onward x rest,
              node_visited g c v v' cs r unseen (ends_at-none g c node.nd at' e) onward x rest,
            )
      ]
]

-- What the search from `c` gives: a loop whose end it can walk to, or nothing where it can walk to no
-- loop's end.
pub data HopFound (g : Cfg) (c : ℕ) : Option JumpDestination → Type 0 where
  a_loop :
      (d : JumpDestination) (k : ℕ)
      → Leads (hop g) c k
      → ends_at g k ≡ some d
      → HopFound g c (some d)
  no_loop : ((k : ℕ) → Leads (hop g) c k → ends_at g k ≡ none) → HopFound g c none

walked :
    {E : ℕ → ℕ → Bool} (v : List ℕ)
    → ((a b : ℕ) → contains v a ≡ true → E a b ≡ true → contains v b ≡ true)
    → {a k : ℕ} → contains v a ≡ true
    → Leads E a k
    → contains v k ≡ true
walked v f h here = h
walked v f h (step {a} {b} e p) = walked v f (f a b h e) p

Sought-HopFound :
    (g : Cfg) (c : ℕ) (r : Option JumpDestination) (v : List ℕ)
    → Sought g c [] r v
    → contains v c ≡ true
    → HopFound g c r
Sought-HopFound g c (some d) v x seen = let (k, p, e) = x.found d refl in a_loop d k p e
Sought-HopFound g c none v x seen =
    no_loop (λ k p. x.quiet refl k (walked v (λ a b w h. x.closed refl a b w refl h) seen p) refl)

-- On a set of nodes that is searchable, from one of its nodes, and with one more fuel than there are
-- nodes, `find_jump_dest` returns without a panic. It gives a loop whose end it can walk to, or nothing
-- if it can walk to no loop's end.
pub find_jump_dest-HopFound :
    (g : Cfg) (S : ℕ → Type 0)
    → IsSearchable g S
    → (c : ℕ) → S c
    → (r : Option JumpDestination) × (v : List ℕ) × (find_jump_dest g (length g.nodes + 1) c []
        ≡ some (r, v))
      × HopFound g c r
find_jump_dest-HopFound g S ok c s =
    let (r, v, run, x, seen) =
      find_jump_dest-Finds g S ok (length g.nodes + 1) c [] s
        (omega (arith, left-length g.nodes [])) in
    (r, v, run, Sought-HopFound g c r v x seen)
