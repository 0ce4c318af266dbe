-- ===== src/Flow/Reduce/Queue.antt =====
-- The queue of the nodes to be reduced, against the nodes of the graph.
use aderyn.Prelude.{
  ℕ, suc, ◌+◌, ◌<◌, ◌≤◌, ◌⊎◌, inl, inr, true, false, Option, none, some, List, [], ◌∷◌, ◌++◌, ◌≡◌,
  refl, ◌∙◌, arith, ◌==◌, if◌then◌else◌, length, is_some, contains, Bool-cases,
}
use aderyn.Flow.Ast.{Context}
use aderyn.Flow.Node
use aderyn.Flow.Node.{CfgNode, CfgNodeDescriptor, is_reducible}
use aderyn.Flow.Cfg.Template.{nodes_over, queue_of}
use aderyn.Flow.Reduce.Work.{work, works}

-- Ascending ids from `lo` below `hi`, each of a reducible node that bears it.
abbrev pub IsQueue : (ℕ → Option CfgNode) → ℕ → ℕ → List ℕ → Type 0
IsQueue look lo hi [] = lo ≤ hi
IsQueue look lo hi (c ∷ q) =
    lo ≤ c
    × ((d : CfgNodeDescriptor) × (look c ≡ some (record { id = c; nd = d }))
        × (is_reducible d ≡ true))
    × IsQueue look (suc c) hi q

abbrev node_work : Context → Option CfgNode → ℕ
node_work nodes none = 0
node_work nodes (some node) = work nodes node.nd

-- the reductions that the queue takes
abbrev pub queue_work : Context → (ℕ → Option CfgNode) → List ℕ → ℕ
queue_work nodes look [] = 0
queue_work nodes look (c ∷ q) = node_work nodes (look c) + queue_work nodes look q

pub IsQueue-bounds :
    (look : ℕ → Option CfgNode) (lo hi : ℕ) (q : List ℕ) → IsQueue look lo hi q → lo ≤ hi
IsQueue-bounds look lo hi [] h = h
IsQueue-bounds look lo hi (c ∷ q) (a, b, h) = omega (arith, a, IsQueue-bounds look (suc c) hi q h)

pub IsQueue-append :
    (look : ℕ → Option CfgNode) (lo mid hi : ℕ) (q r : List ℕ)
    → IsQueue look lo mid q
    → IsQueue look mid hi r
    → IsQueue look lo hi (q ++ r)
IsQueue-append look lo mid hi [] [] h k = omega (arith, h, k)
IsQueue-append look lo mid hi [] (c ∷ r) h (a, b, k) = (omega (arith, h, a), b, k)
IsQueue-append look lo mid hi (c ∷ q) r (a, b, h) k =
    (a, b, IsQueue-append look (suc c) mid hi q r h k)

pub queue_work-append :
    (nodes : Context) (look : ℕ → Option CfgNode) (q r : List ℕ)
    → queue_work nodes look (q ++ r) ≡ queue_work nodes look q + queue_work nodes look r
queue_work-append nodes look [] r = omega arith
queue_work-append nodes look (c ∷ q) r = omega (arith, queue_work-append nodes look q r)

-- Only the nodes within the bounds matter.
module _ (look look' : ℕ → Option CfgNode) (hi : ℕ) where
  pub IsQueue-map :
      (lo : ℕ) (q : List ℕ)
      → ((k : ℕ) → lo ≤ k → k < hi → look' k ≡ look k)
      → IsQueue look lo hi q
      → IsQueue look' lo hi q
  IsQueue-map lo [] f h = h
  IsQueue-map lo (c ∷ q) f (a, (d, e, r), h) =
      let b = IsQueue-bounds look (suc c) hi q h in
      (
        a,
        (d, f c a (omega (arith, b)) ∙ e, r),
        IsQueue-map (suc c) q (λ k l. f k (omega (arith, a, l))) h,
      )

  pub queue_work-map :
      (nodes : Context) (lo : ℕ) (q : List ℕ)
      → ((k : ℕ) → lo ≤ k → k < hi → look' k ≡ look k)
      → IsQueue look lo hi q
      → queue_work nodes look' q ≡ queue_work nodes look q
  queue_work-map nodes lo [] f h = refl
  queue_work-map nodes lo (c ∷ q) f (a, (d, e, r), h) =
      let b = IsQueue-bounds look (suc c) hi q h in
      rw
        (
          f c a (omega (arith, b)),
          queue_work-map nodes (suc c) q (λ k l. f k (omega (arith, a, l))) h,
        )
        refl

pub nodes_over-before :
    (n k : ℕ) (ds : List CfgNodeDescriptor) (old : Option CfgNode)
    → k < n
    → nodes_over n k ds old ≡ old
nodes_over-before n k [] old h = refl
nodes_over-before n k (d ∷ ds) old h =
    nodes_over-before (suc n) k ds _ (omega (arith, h)) ∙ ground arith

pub nodes_over-kept :
    (n k : ℕ) (ds : List CfgNodeDescriptor) (old : Option CfgNode)
    → is_some old ≡ true
    → is_some (nodes_over n k ds old) ≡ true
nodes_over-kept n k [] old h = h
nodes_over-kept n k (d ∷ ds) old h = nodes_over-kept (suc n) k ds _ (ground (arith, h))

pub nodes_over-inside :
    (n k : ℕ) (ds : List CfgNodeDescriptor) (old : Option CfgNode)
    → n ≤ k
    → k < n + length ds
    → is_some (nodes_over n k ds old) ≡ true
nodes_over-inside n k [] old h l = ground (arith, h, l)
nodes_over-inside n k (d ∷ ds) old h l = elim (Bool-cases (n == k)) [
  | inl same ↦ rw same (nodes_over-kept (suc n) k ds _ refl)
  | inr other ↦ nodes_over-inside (suc n) k ds _ (ground (arith, other, h)) (omega (arith, l))
]

-- A node afterwards is an old one, or is new, bears its id, and is queued if it is reducible.
pub nodes_over-cases :
    (n k : ℕ) (ds : List CfgNodeDescriptor) (old : Option CfgNode) (node : CfgNode)
    → nodes_over n k ds old ≡ some node
    → (old ≡ some node)
      ⊎ ((node.id ≡ k) × (is_reducible node.nd ≡ true → contains (queue_of n ds) k ≡ true))
nodes_over-cases n k [] old node h = inl h
nodes_over-cases n k (d ∷ ds) old node h = elim (nodes_over-cases (suc n) k ds _ node h) [
  | inr (i, f) ↦ inr (i, λ r. ground (arith, f r))
  | inl e ↦ elim (Bool-cases (n == k)) [
    | inl same ↦
        let found : some (record { id = n; nd = d }) ≡ some node = rw same at e in
        inr (ground (arith, found), λ r. ground (arith, found))
    | inr other ↦ inl (rw other at e)
  ]
]

nodes_over-first :
    (n : ℕ) (d : CfgNodeDescriptor) (ds : List CfgNodeDescriptor) (old : Option CfgNode)
    → nodes_over n n (d ∷ ds) old ≡ some (record { id = n; nd = d })
nodes_over-first n d ds old = nodes_over-before (suc n) n ds _ (omega arith) ∙ ground arith

pub IsQueue-lower :
    (look : ℕ → Option CfgNode) (lo lo' hi : ℕ) (q : List ℕ)
    → lo' ≤ lo
    → IsQueue look lo hi q
    → IsQueue look lo' hi q
IsQueue-lower look lo lo' hi [] l h = omega (arith, h, l)
IsQueue-lower look lo lo' hi (c ∷ q) l (a, b, h) = (omega (arith, a, l), b, h)

work-none : (nodes : Context) (d : CfgNodeDescriptor) → is_reducible d ≡ false → work nodes d ≡ 0
work-none nodes (Node.block i) h = cc
work-none nodes (Node.unchecked_block i) h = cc
work-none nodes (Node.if_statement i) h = cc
work-none nodes (Node.while_statement i) h = cc
work-none nodes (Node.for_statement i) h = cc
work-none nodes (Node.do_while_statement i) h = cc
work-none nodes d h = refl

pub nodes_over-IsQueue :
    (n : ℕ) (ds : List CfgNodeDescriptor) (old : ℕ → Option CfgNode)
    → IsQueue (λ k. nodes_over n k ds (old k)) n (n + length ds) (queue_of n ds)
nodes_over-IsQueue n [] old = omega arith
nodes_over-IsQueue n (d ∷ ds) old =
    let rest =
      nodes_over-IsQueue (suc n) ds
        (λ k. if n == k then some (record { id = n; nd = d }) else old k) in
    let bound : n + suc (length ds) ≡ suc n + length ds = omega arith in
    elim (Bool-cases (is_reducible d)) [
      | inl r ↦ rw (r, bound) (omega arith, (d, nodes_over-first n d ds (old n), r), rest)
      | inr v ↦ rw (v, bound) (IsQueue-lower _ (suc n) n _ _ (omega arith) rest)
    ]

pub nodes_over-queue_work :
    (nodes : Context) (n : ℕ) (ds : List CfgNodeDescriptor) (old : ℕ → Option CfgNode)
    → queue_work nodes (λ k. nodes_over n k ds (old k)) (queue_of n ds) ≡ works nodes ds
nodes_over-queue_work nodes n [] old = refl
nodes_over-queue_work nodes n (d ∷ ds) old =
    let rest =
      nodes_over-queue_work nodes (suc n) ds
        (λ k. if n == k then some (record { id = n; nd = d }) else old k) in
    elim (Bool-cases (is_reducible d)) [
      | inl r ↦ rw (r, rest, nodes_over-first n d ds (old n)) refl
      | inr v ↦ rw (v, rest, work-none nodes d v) (omega arith)
    ]
