-- ===== src/Prelude/Assoc.antt =====
-- A `HashMap` with keys that are numbers: an association list with one entry for a key.
use Prim.Native.Nat.{ℕ}
use mathlib.Core.Path.{◌≡◌, refl, ◌∙◌}
use mathlib.Core.Bool.{false, ◌||◌}
use mathlib.Core.Logic.{inl, inr}
use aderyn.Prelude.Tests.{Bool-cases, is_some, ==_iff, ◌==◌, if◌then◌else◌}
use mathlib.Core.List.{List, [], ◌∷◌}
use mathlib.Core.Option.{Option, none, some}
use native.Mathlib.Omega.{arith}

module _ {ℓ} {V : Type ℓ} where
  unfoldable pub lookup : ℕ → List (ℕ × V) → Option V
  lookup k [] = none
  lookup k ((j, v) ∷ m) = if j == k then some v else lookup k m

  unfoldable pub insert : ℕ → V → List (ℕ × V) → List (ℕ × V)
  insert k v [] = (k, v) ∷ []
  insert k v ((j, w) ∷ m) = if j == k then (k, v) ∷ m else (j, w) ∷ insert k v m

  -- removes each entry of the key; a map has one at most
  unfoldable pub remove : ℕ → List (ℕ × V) → List (ℕ × V)
  remove k [] = []
  remove k ((j, w) ∷ m) = if j == k then remove k m else (j, w) ∷ remove k m

  pub lookup-insert :
      (key at : ℕ) (new : V) (entries : List (ℕ × V))
      → lookup at (insert key new entries) ≡ (if key == at then some new else lookup at entries)
  unfolding lookup insert
  lookup-insert key at new [] = refl
  lookup-insert key at new ((other, old) ∷ entries) =
      ground (arith, lookup-insert key at new entries)

  pub lookup-remove :
      (k j : ℕ) (m : List (ℕ × V)) → lookup j (remove k m) ≡ (if k == j then none else lookup j m)
  unfolding lookup remove
  lookup-remove k j [] = ground arith
  lookup-remove k j ((i, w) ∷ m) = ground (arith, lookup-remove k j m)

  -- each key has one entry
  abbrev pub IsMap : List (ℕ × V) → Type 0
  IsMap [] = Unit
  IsMap ((k, v) ∷ m) = (is_some (lookup k m) ≡ false) × IsMap m

  is_some-insert :
      (k j : ℕ) (v : V) (m : List (ℕ × V))
      → is_some (lookup j (insert k v m)) ≡ (k == j || is_some (lookup j m))
  is_some-insert k j v m = ground (arith, lookup-insert k j v m)

  pub insert-IsMap : (k : ℕ) (v : V) (m : List (ℕ × V)) → IsMap m → IsMap (insert k v m)
  unfolding insert
  insert-IsMap k v [] h = (unfold lookup in refl, tt)
  insert-IsMap k v ((j, w) ∷ m) h = elim (Bool-cases (j == k)) [
    | inl same ↦ rw (same, insert) (rw ((==_iff j k).0 same) at h)
    | inr other ↦ rw (other, insert) (is_some-insert k j v m ∙ ground arith, insert-IsMap k v m h.1)
  ]

  is_some-remove :
      (k j : ℕ) (m : List (ℕ × V))
      → is_some (lookup j m) ≡ false
      → is_some (lookup j (remove k m)) ≡ false
  is_some-remove k j m h = ground (arith, lookup-remove k j m)

  pub remove-IsMap : (k : ℕ) (m : List (ℕ × V)) → IsMap m → IsMap (remove k m)
  unfolding remove
  remove-IsMap k [] h = tt
  remove-IsMap k ((j, w) ∷ m) h = elim (Bool-cases (j == k)) [
    | inl same ↦ rw (same, remove) (remove-IsMap k m h.1)
    | inr other ↦ rw (other, remove) (is_some-remove k j m h.0, remove-IsMap k m h.1)
  ]
