-- ===== src/Prelude/Unvisited.antt =====
-- The nodes that a search has not visited: each visit leaves fewer, so a search ends.
use Prim.Native.Nat.{ℕ, ◌+◌, ◌<◌, ◌≤◌}
use mathlib.Core.Path.{◌≡◌}
use mathlib.Core.Bool.{true, false}
use mathlib.Core.Logic.{inl, inr}
use mathlib.Core.List.{List, [], ◌∷◌}
use native.Mathlib.Omega.{arith}
use aderyn.Prelude.Tests.{◌==◌, if◌then◌else◌, is_some, Bool-cases, ==_iff}
use aderyn.Prelude.Lists.{All, contains, length}
use aderyn.Prelude.Assoc.{lookup}

module _ {ℓ} {V : Type ℓ} where
  -- the nodes that have not been visited
  abbrev pub left : List (ℕ × V) → List ℕ → ℕ
  left [] v = 0
  left ((k, node) ∷ m) v = (if contains v k then 0 else 1) + left m v

  pub left-le :
      (m : List (ℕ × V)) (v v' : List ℕ)
      → ((k : ℕ) → contains v k ≡ true → contains v' k ≡ true)
      → left m v' ≤ left m v
  left-le [] v v' f = omega arith
  left-le ((k, node) ∷ m) v v' f = ground (arith, left-le m v v' f, f k)

  pub left-visit :
      (m : List (ℕ × V)) (v : List ℕ) (c : ℕ)
      → is_some (lookup c m) ≡ true
      → contains v c ≡ false
      → left m (c ∷ v) < left m v
  unfolding lookup
  left-visit [] v c h o = ground (arith, h)
  left-visit ((k, node) ∷ m) v c h o =
      let tail = left-le m v (c ∷ v) (λ j p. ground (arith, p)) in
      elim (Bool-cases (k == c)) [
        | inl same ↦ ground (arith, same, o, tail)
        | inr other ↦ ground (arith, other, left-visit m v c (rw other at h) o)
      ]

  pub left-length : (m : List (ℕ × V)) (v : List ℕ) → left m v ≤ length m
  left-length [] v = omega arith
  left-length ((k, node) ∷ m) v = ground (arith, left-length m v)

pub All-contains :
    (v cs : List ℕ)
    → All (λ c. contains v c ≡ true) cs
    → (b : ℕ) → contains cs b ≡ true
    → contains v b ≡ true
All-contains v [] all b h = ground (arith, h)
All-contains v (c ∷ cs) all b h = elim (Bool-cases (c == b)) [
  | inl same ↦ rw (← (==_iff c b).0 same) (all.0)
  | inr other ↦ All-contains v cs all.1 b (ground (arith, other, h))
]
