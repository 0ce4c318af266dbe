-- ===== src/Flow/Jumps/Walk.antt =====
-- What `find_jump_dest` of aderyn_core/src/context/flow/utils.rs looks for: the end of a loop that a walk
-- reaches, which passes over each statement that starts on its way.
use aderyn.Prelude.{
  some_inj, ℕ, ◌+◌, true, Option, none, some, List, [], ◌∷◌, ◌≡◌, refl, sym, ap, ◌∙◌, arith, ◌==◌,
  Bool-cases, inl, inr, contains, length, ==_iff, All, All-map, ◌>>=◌, ◌⊎◌, subst, Option-cases,
}
use aderyn.Prelude.Assoc.{lookup}
use aderyn.Flow.Node.{
  CfgNode, CfgNodeDescriptor, start_node, end_node, end_while_cond, end_do_while_cond,
  end_for_loop_exp,
}
use aderyn.Flow.Cfg.{Cfg, has_node, raw_successors}
use aderyn.Flow.Cfg.Edges.{edge}
use aderyn.Flow.Reduce.Invariant.{IsReducing, node_at}
use aderyn.Prelude.Leads.{Leads, here, step, Leads-append}
use aderyn.Flow.Jumps.{
  JumpDestination, for_loop, while_loop, do_while_loop, loop_of, jump_children, find_jump_dest,
}
use aderyn.Flow.Jumps.Find.{
  hop, ends_at, IsSearchable, find_jump_dest-HopFound, hop-children, ends_at-loop, HopFound,
  hop-loop, ends_at-none, a_loop, no_loop,
}

-- what a node is on a walk
pub data Role : Type 0 where
  begins ends_while ends_do_while ends_for passes : Role

abbrev pub role : CfgNodeDescriptor → Role
role (start_node n) = begins
role (end_node end_while_cond) = ends_while
role (end_node end_do_while_cond) = ends_do_while
role (end_node end_for_loop_exp) = ends_for
role _ = passes

abbrev loop_by : Cfg → ℕ → Role → Option (Option JumpDestination)
loop_by g k ends_while = lookup k g.cond_start_pairs >>= λ l. some (some (while_loop l))
loop_by g k ends_do_while = lookup k g.cond_start_pairs >>= λ l. some (some (do_while_loop l))
loop_by g k ends_for = lookup k g.loop_expr_start >>= λ l. some (some (for_loop l))
loop_by g k _ = some none

loop_of-role : (g : Cfg) (k : ℕ) (nd : CfgNodeDescriptor) → loop_of g k nd ≡ loop_by g k (role nd)
loop_of-role g k (start_node n) = refl
loop_of-role g k (end_node end_while_cond) = refl
loop_of-role g k (end_node end_do_while_cond) = refl
loop_of-role g k (end_node end_for_loop_exp) = refl
loop_of-role g k (end_node _) = refl
loop_of-role g k _ = refl

children_by : Cfg → ℕ → Role → Option (List ℕ)
children_by g k begins = lookup k g.start_end_pairs >>= λ e. some (e ∷ [])
children_by g k _ = some (raw_successors g k)

jump_children-role :
    (g : Cfg) (k : ℕ) (nd : CfgNodeDescriptor) → jump_children g k nd ≡ children_by g k (role nd)
unfolding children_by
jump_children-role g k (start_node n) = refl
jump_children-role g k (end_node end_while_cond) = refl
jump_children-role g k (end_node end_do_while_cond) = refl
jump_children-role g k (end_node end_for_loop_exp) = refl
jump_children-role g k (end_node _) = refl
jump_children-role g k _ = refl

abbrev pub Stands : Cfg → ℕ → Role → Type 0
Stands g k r = (node : CfgNode) × (node_at g k ≡ some node) × (role node.nd ≡ r)

-- The end of the condition of a `while` or `do while`, or of the update of a `for`, ends that loop.
pub data Ends (g : Cfg) (k : ℕ) : JumpDestination → Type 0 where
  a_while :
      {l : ℕ}
      → Stands g k ends_while
      → lookup k g.cond_start_pairs ≡ some l
      → Ends g k (while_loop l)
  a_do_while :
      {l : ℕ}
      → Stands g k ends_do_while
      → lookup k g.cond_start_pairs ≡ some l
      → Ends g k (do_while_loop l)
  a_for :
      {l : ℕ} → Stands g k ends_for → lookup k g.loop_expr_start ≡ some l → Ends g k (for_loop l)

-- from a start to its end, and from any other node that ends no loop along the edges
pub data Step (g : Cfg) : ℕ → ℕ → Type 0 where
  past : {a b : ℕ} → Stands g a begins → lookup a g.start_end_pairs ≡ some b → Step g a b
  along : {a b : ℕ} → Stands g a passes → edge g a b ≡ true → Step g a b

pub data Walk (g : Cfg) (c : ℕ) : ℕ → Type 0 where
  start : Walk g c c
  further : {a b : ℕ} → Walk g c a → Step g a b → Walk g c b

-- the entries in the lookup maps that the search expects of a node
abbrev pub Filled : Cfg → ℕ → Role → Type 0
Filled g k begins = (e : ℕ) × (lookup k g.start_end_pairs ≡ some e) × (has_node g e ≡ true)
Filled g k ends_while = (l : ℕ) × (lookup k g.cond_start_pairs ≡ some l)
Filled g k ends_do_while = (l : ℕ) × (lookup k g.cond_start_pairs ≡ some l)
Filled g k ends_for = (l : ℕ) × (lookup k g.loop_expr_start ≡ some l)
Filled g k passes = Unit

All-of {κ} : (P : ℕ → Type κ) (xs : List ℕ) → ((b : ℕ) → contains xs b ≡ true → P b) → All P xs
All-of P [] f = tt
All-of P (x ∷ xs) f = (f x (ground arith), All-of P xs (λ b h. f b (ground (arith, h))))

All-at {κ} : (P : ℕ → Type κ) (xs : List ℕ) (b : ℕ) → All P xs → contains xs b ≡ true → P b
All-at P [] b h e = cc
All-at P (x ∷ xs) b (p, h) e = elim (Bool-cases (x == b)) [
  | inl same ↦ subst P ((==_iff x b).0 same) p
  | inr other ↦ All-at P xs b h (ground (arith, other, e))
]

module _ (g : Cfg) (i : IsReducing g) where
  own :
      (k : ℕ) (node : CfgNode)
      → node_at g k ≡ some node
      → node_at g k ≡ some (record { id = k; nd = node.nd })
  own k node at = at ∙ ap (λ j. some (record { id = j; nd = node.nd })) (i.own_ids k node at)

  Step-hop : {a b : ℕ} → Step g a b → hop g a b ≡ true
  Step-hop {a} {b} (past (node, at, r) e) =
      hop-children g a node.nd (own a node at) (b ∷ [])
        (loop_of-role g a node.nd ∙ ap (loop_by g a) r)
        (jump_children-role g a node.nd ∙ ap (children_by g a) r ∙ unfold children_by in rw e refl)
        b
      ∙ ground arith
  Step-hop {a} {b} (along (node, at, r) e) =
      hop-children g a node.nd (own a node at) (raw_successors g a)
        (loop_of-role g a node.nd ∙ ap (loop_by g a) r)
        (jump_children-role g a node.nd ∙ ap (children_by g a) r ∙ unfold children_by in refl) b
      ∙ e

  loop_at-role :
      (k : ℕ) (node : CfgNode) (r : Role) (d : JumpDestination)
      → node_at g k ≡ some node
      → role node.nd ≡ r
      → loop_by g k r ≡ some (some d)
      → ends_at g k ≡ some d
  loop_at-role k node r d at e h =
      ends_at-loop g k node.nd (own k node at) d (loop_of-role g k node.nd ∙ ap (loop_by g k) e ∙ h)

  Ends-ends_at : (k : ℕ) (d : JumpDestination) → Ends g k d → ends_at g k ≡ some d
  Ends-ends_at k d (a_while (node, at, r) e) = loop_at-role k node ends_while d at r (rw e refl)
  Ends-ends_at k d (a_do_while (node, at, r) e) =
      loop_at-role k node ends_do_while d at r (rw e refl)
  Ends-ends_at k d (a_for (node, at, r) e) = loop_at-role k node ends_for d at r (rw e refl)

  -- the nodes of a search from `c`
  abbrev Reached : ℕ → ℕ → Type 0
  Reached c k = Walk g c k × (has_node g k ≡ true)

  abbrev WalkFilled : ℕ → Type 0
  WalkFilled c =
      (k : ℕ) → Walk g c k → (node : CfgNode) → node_at g k ≡ some node → Filled g k (role node.nd)

  -- a node that the search reaches: what it ends, or what it leads to
  record View (c k : ℕ) : Type 0 where
    node : CfgNode
    at : node_at g k ≡ some node
    own_id : node.id ≡ k
    turns :
        ((d : JumpDestination) × Ends g k d × (loop_of g k node.nd ≡ some (some d)))
        ⊎ ((loop_of g k node.nd ≡ some none)
            × (cs : List ℕ) × (jump_children g k node.nd ≡ some cs)
            × All (λ b. Step g k b × Reached c b) cs)

  view : (c : ℕ) → WalkFilled c → (k : ℕ) → Reached c k → View c k
  view c filled k (w, there) = elim (Option-cases (node_at g k)) [
    | inl gone ↦ absurd (ground (arith, gone, there))
    | inr (node, at) ↦ record {
      node = node;
      at = at;
      own_id = i.own_ids k node at;
      turns = by_role node at (role node.nd) refl (filled k w node at);
    }
  ]
    where
      by_role :
          (node : CfgNode)
          → node_at g k ≡ some node
          → (r : Role) → role node.nd ≡ r
          → Filled g k r
          → ((d : JumpDestination) × Ends g k d × (loop_of g k node.nd ≡ some (some d)))
            ⊎ ((loop_of g k node.nd ≡ some none)
                × (cs : List ℕ) × (jump_children g k node.nd ≡ some cs)
                × All (λ b. Step g k b × Reached c b) cs)
      by_role node at begins e (b, l, held) = inr (
        loop_of-role g k node.nd ∙ ap (loop_by g k) e,
        b ∷ [],
        jump_children-role g k node.nd ∙ ap (children_by g k) e ∙ unfold children_by in rw l refl,
        ((past (node, at, e) l, (further w (past (node, at, e) l), held)), tt),
      )
      by_role node at passes e f = inr (
        loop_of-role g k node.nd ∙ ap (loop_by g k) e,
        raw_successors g k,
        jump_children-role g k node.nd ∙ ap (children_by g k) e ∙ unfold children_by in refl,
        All-of (λ b. Step g k b × Reached c b) (raw_successors g k)
            (λ b h.
              (along (node, at, e) h, (further w (along (node, at, e) h), (i.attached k b h).1))),
      )
      by_role node at ends_while e (l, h) = inl (
        while_loop l,
        a_while (node, at, e) h,
        loop_of-role g k node.nd ∙ ap (loop_by g k) e ∙ rw h refl,
      )
      by_role node at ends_do_while e (l, h) = inl (
        do_while_loop l,
        a_do_while (node, at, e) h,
        loop_of-role g k node.nd ∙ ap (loop_by g k) e ∙ rw h refl,
      )
      by_role node at ends_for e (l, h) = inl (
        for_loop l,
        a_for (node, at, e) h,
        loop_of-role g k node.nd ∙ ap (loop_by g k) e ∙ rw h refl,
      )

  searchable : (c : ℕ) → WalkFilled c → IsSearchable g (Reached c)
  searchable c filled k s =
      let v = view c filled k s in
      (
        v.node,
        v.at,
        v.own_id,
        elim v.turns [
          | inl (d, ends, e) ↦ inl (d, e)
          | inr (e, cs, e', all) ↦ inr (e, cs, e', All-map (λ b p. p.1) cs all)
        ],
      )

  hop-Step :
      (c : ℕ) → WalkFilled c → (k b : ℕ) → Reached c k → hop g k b ≡ true → Step g k b × Reached c b
  hop-Step c filled k b s h =
      let v = view c filled k s in
      elim v.turns [
        | inl (d, ends, e) ↦ cc (h, hop-loop g k v.node.nd (own k v.node v.at) d e b)
        | inr (e, cs, e', all) ↦
            All-at (λ b. Step g k b × Reached c b) cs b all
              (sym (hop-children g k v.node.nd (own k v.node v.at) cs e e' b) ∙ h)
      ]

  ends_at-Ends :
      (c : ℕ)
      → WalkFilled c
      → (k : ℕ) (d : JumpDestination) → Reached c k
      → ends_at g k ≡ some d
      → Ends g k d
  ends_at-Ends c filled k d s h =
      let v = view c filled k s in
      elim v.turns [
        | inl (d', ends, e) ↦
            subst (Ends g k)
              (some_inj (sym (ends_at-loop g k v.node.nd (own k v.node v.at) d' e) ∙ h)) ends
        | inr (e, cs, e', all) ↦ cc (h, ends_at-none g k v.node.nd (own k v.node v.at) e)
      ]

  Walk-Leads : (c k : ℕ) → Walk g c k → Leads (hop g) c k
  Walk-Leads c k start = here
  Walk-Leads c k (further {a} w s) = Leads-append (Walk-Leads c a w) (step (Step-hop s) here)

  Leads-Reached : (c : ℕ) → WalkFilled c → {a k : ℕ} → Reached c a → Leads (hop g) a k → Reached c k
  Leads-Reached c filled s here = s
  Leads-Reached c filled s (step {a} {b} h p) =
      Leads-Reached c filled (hop-Step c filled a b s h).1 p

-- What the search from `c` gives: a loop whose end a walk reaches, or nothing where no walk reaches the end
-- of a loop.
pub data JumpFound (g : Cfg) (c : ℕ) : Option JumpDestination → Type 0 where
  found : {d : JumpDestination} {k : ℕ} → Walk g c k → Ends g k d → JumpFound g c (some d)
  outside : ((k : ℕ) (d : JumpDestination) → Walk g c k → Ends g k d → ⊥) → JumpFound g c none

-- In a graph that satisfies the invariant of the reduction, from one of its nodes `c`, where each node that a
-- walk from `c` reaches has its entry in the lookup maps (the end of a start, the loop of the end of a loop's
-- condition or update), and with one more fuel than there are nodes: `find_jump_dest` returns. It gives a
-- loop of the kind that the node ends which a walk reaches, or nothing if no walk reaches the end of a loop.
pub find_jump_dest-JumpFound :
    (g : Cfg) (c : ℕ)
    → IsReducing g
    → has_node g c ≡ true
    → ((k : ℕ)
        → Walk g c k
        → (node : CfgNode) → node_at g k ≡ some node
        → Filled g k (role node.nd))
    → (r : Option JumpDestination) × (v : List ℕ) × (find_jump_dest g (length g.nodes + 1) c []
        ≡ some (r, v))
      × JumpFound g c r
find_jump_dest-JumpFound g c i there filled =
    let (r, v, run, f) =
      find_jump_dest-HopFound g (Reached g i c) (searchable g i c filled) c (start, there) in
    (r, v, run, by_hops r f)
  where
    by_hops : (r : Option JumpDestination) → HopFound g c r → JumpFound g c r
    by_hops r (a_loop d k p e) =
        let s = Leads-Reached g i c filled (start, there) p in
        found s.0 (ends_at-Ends g i c filled k d s e)
    by_hops r (no_loop f) =
        outside (λ k d w e. cc (f k (Walk-Leads g i c k w), Ends-ends_at g i k d e))
