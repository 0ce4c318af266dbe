-- ===== src/Workspace/Siblings/Back.antt =====
-- The previous sibling of the next sibling of a node is the node.
use mathlib.Core.List.{reverse, reverse-cons, reverse-append, append_assoc}
use aderyn.Prelude.{
  some_inj, ℕ, ◌+◌, ◌≤◌, false, some, List, [], ◌∷◌, ◌++◌, ◌≡◌, refl, arith, All, All-append,
  All-map, Option-cases, Bool-cases, inl, inr, ◌==◌, ==_iff, ==_refl, ap, ◌∙◌, subst,
}
use aderyn.Workspace.Ast.{AstNode, node_id}
use aderyn.Workspace.Siblings.{next_to, previous_to}
use aderyn.Workspace.Siblings.Kept.{count_id}

-- a node that does not have the id has another
abbrev OtherId : ℕ → AstNode → Type 0
OtherId j n = (i : ℕ) × (node_id n ≡ some i) × ((i == j) ≡ false)

All-reverse {ℓ κ} : {A : Type ℓ} (P : A → Type κ) (xs : List A) → All P xs → All P (reverse xs)
All-reverse P [] h = tt
All-reverse P (x ∷ xs) h =
    rw (reverse-cons x xs) (All-append P (reverse xs) (x ∷ []) (All-reverse P xs h.1) (h.0, tt))

-- where the search stops
next_to-split :
    (i : ℕ) (s : AstNode) (ns : List AstNode)
    → next_to i ns ≡ some s
    → (before : List AstNode) × (n : AstNode) × (behind : List AstNode) × (ns
        ≡ before ++ n ∷ s ∷ behind)
      × (node_id n ≡ some i)
unfolding next_to
next_to-split i s [] h = cc
next_to-split i s (n ∷ []) h = cc
next_to-split i s (n ∷ m ∷ ns) h = elim (Option-cases (node_id n)) [
  | inl e ↦ cc (rw (e, next_to) at h)
  | inr (j, e) ↦ elim (Bool-cases (j == i)) [
    | inl here ↦ (
      [],
      n,
      ns,
      ap (λ x. n ∷ x ∷ ns) (some_inj (rw (e, here, next_to) at h)),
      e ∙ ap some ((==_iff j i).0 here),
    )
    | inr away ↦
        let (before, a, behind, at, id) = next_to-split i s (m ∷ ns) (rw (e, away, next_to) at h) in
        (n ∷ before, a, behind, ap (λ x. n ∷ x) at, id)
  ]
]

-- the search passes nodes of other ids
next_to-passes :
    (j : ℕ) (s n : AstNode) (us vs : List AstNode)
    → node_id s ≡ some j
    → All (OtherId j) us
    → next_to j (us ++ s ∷ n ∷ vs) ≡ some n
unfolding next_to
next_to-passes j s n [] vs e h = rw (e, ==_refl j, next_to) refl
next_to-passes j s n (u ∷ []) vs e ((i, at, away), h) =
    rw (at, away, next_to) (next_to-passes j s n [] vs e h)
next_to-passes j s n (u ∷ w ∷ us) vs e ((i, at, away), h) =
    rw (at, away, next_to) (next_to-passes j s n (w ∷ us) vs e h)

reverse-around :
    (before : List AstNode) (n s : AstNode) (behind : List AstNode)
    → reverse (before ++ n ∷ s ∷ behind) ≡ reverse behind ++ s ∷ n ∷ reverse before
reverse-around before n s behind =
    rw
      (
        reverse-append before (n ∷ s ∷ behind),
        reverse-cons n (s ∷ behind),
        reverse-cons s behind,
        append_assoc (reverse behind ++ s ∷ []) (n ∷ []) (reverse before),
        append_assoc (reverse behind) (s ∷ []) (n ∷ reverse before),
      )
      refl

count_id-append :
    (j : ℕ) (xs ys : List AstNode) → count_id j (xs ++ ys) ≡ count_id j xs + count_id j ys
count_id-append j [] ys = omega arith
count_id-append j (x ∷ xs) ys = omega (arith, count_id-append j xs ys)

abbrev HasId : AstNode → Type 0
HasId n = (i : ℕ) × (node_id n ≡ some i)

count_id-OtherId :
    (j : ℕ) (ns : List AstNode) → All HasId ns → count_id j ns ≡ 0 → All (OtherId j) ns
count_id-OtherId j [] h c = tt
count_id-OtherId j (n ∷ ns) ((i, e), h) c = elim (Bool-cases (i == j)) [
  | inl same ↦ absurd (omega (arith, rw (e, same) at c))
  | inr other ↦ ((i, e, other), count_id-OtherId j ns h (omega (arith, rw (e, other) at c)))
]

count_id_self :
    (j : ℕ) (s : AstNode) (ns : List AstNode)
    → node_id s ≡ some j
    → count_id j (s ∷ ns) ≡ 1 + count_id j ns
count_id_self j s ns at = rw (at, ==_refl j) refl

All-behind {ℓ κ} : {A : Type ℓ} (P : A → Type κ) (xs ys : List A) → All P (xs ++ ys) → All P ys
All-behind P [] ys h = h
All-behind P (x ∷ xs) ys h = All-behind P xs ys h.1

count_id-behind :
    (j : ℕ) (n s : AstNode) (before behind : List AstNode)
    → node_id s ≡ some j
    → count_id j (before ++ n ∷ s ∷ behind) ≤ 1
    → count_id j behind ≡ 0
count_id-behind j n s before behind at once = omega (
  arith,
  once,
  count_id-append j before (n ∷ s ∷ behind),
  count_id-append j (n ∷ []) (s ∷ behind),
  count_id_self j s behind at,
)

-- the node before the one that the search finds
pub previous_to-next_to {κ} :
    (P : AstNode → Type κ) (has : (n : AstNode) → P n → HasId n) (i : ℕ) (s : AstNode)
    (ns : List AstNode)
    → All P ns
    → ((j : ℕ) → count_id j ns ≤ 1)
    → next_to i ns ≡ some s
    → P s
      × (n : AstNode) × P n
      × (node_id n ≡ some i)
      × ((j : ℕ) → node_id s ≡ some j → previous_to j ns ≡ some n)
unfolding previous_to
previous_to-next_to P has i s ns all once found =
    let (before, n, behind, e, id) = next_to-split i s ns found in
    let around = All-behind P before (n ∷ s ∷ behind) (subst (All P) e all) in
    (
      around.1.0,
      n,
      around.0,
      id,
      λ j at.
          ap (λ l. next_to j (reverse l)) e
          ∙ rw (reverse-around before n s behind) (
              next_to-passes j s n (reverse behind) (reverse before) at (
                All-reverse (OtherId j) behind (
                  count_id-OtherId j behind (All-map has behind around.1.1) (
                    count_id-behind j n s before behind at
                      (subst (λ l. count_id j l ≤ 1) e (once j)))))),
    )
