-- ===== src/Workspace/Location/Flip.antt =====
-- Two keys compared the other way round.
use Prim.Native.Nat.{Ordering, compare}
use aderyn.Prelude.{◌<◌, ◌⊎◌, ◌≢◌, inl, inr, ℕ, some, [], ◌∷◌, ◌≡◌, refl, arith}
use aderyn.Stats.Text.{Text}
use aderyn.Workspace.TextMap.{text_eq, text_eq_refl}
use aderyn.Workspace.Location.{compare_text, compare_keys, compare_offsets, split_once}

pub Ordering-cases : (o : Ordering) → (o ≡ Ordering.lt) ⊎ (o ≡ Ordering.eq) ⊎ (o ≡ Ordering.gt)
Ordering-cases Ordering.lt = inl refl
Ordering-cases Ordering.eq = inr (inl refl)
Ordering-cases Ordering.gt = inr (inr refl)

abbrev pub flip : Ordering → Ordering
flip Ordering.lt = Ordering.gt
flip Ordering.eq = Ordering.eq
flip Ordering.gt = Ordering.lt

pub compare-flip : (a b : ℕ) → compare b a ≡ flip (compare a b)
compare-flip a b = ground arith

pub compare_text-flip : (s t : Text) → compare_text t s ≡ flip (compare_text s t)
compare_text-flip [] [] = refl
compare_text-flip [] (d ∷ t) = refl
compare_text-flip (c ∷ s) [] = refl
compare_text-flip (c ∷ s) (d ∷ t) = ground (arith, compare_text-flip s t, compare-flip c d)

pub text_eq_comm : (s t : Text) → text_eq s t ≡ text_eq t s
unfolding text_eq
text_eq_comm [] [] = refl
text_eq_comm [] (d ∷ t) = refl
text_eq_comm (c ∷ s) [] = refl
text_eq_comm (c ∷ s) (d ∷ t) = ground (arith, text_eq_comm s t)

-- the keys of nodes in one file, where both locations have a colon
pub ordered : ℕ → Text → ℕ → Text → Ordering
ordered l o m p = elim (compare l m) [
  | Ordering.lt ↦ Ordering.lt
  | Ordering.eq ↦ compare_text o p
  | Ordering.gt ↦ Ordering.gt
]

pub ordered-flip : (l m : ℕ) (o p : Text) → ordered m p l o ≡ flip (ordered l o m p)
unfolding ordered
ordered-flip l m o p = ground (arith, compare_text-flip o p, compare-flip l m)

pub compare_keys-same :
    (path : Text) (l m : ℕ) (f s o r p q : Text)
    → split_once f ≡ some (o, r)
    → split_once s ≡ some (p, q)
    → compare_keys (path, l, f) (path, m, s) ≡ some (some (ordered l o m p))
unfolding compare_keys compare_offsets ordered
compare_keys-same path l m f s o r p q hf hs = ground (arith, hf, hs, text_eq_refl path)

-- one text is not behind the other in the order of a dictionary
abbrev pub TextLe : Text → Text → Type 0
TextLe [] t = Unit
TextLe (c ∷ s) [] = ⊥
TextLe (c ∷ s) (d ∷ t) = (c < d) ⊎ ((c ≡ d) × TextLe s t)

pub compare_text-TextLe : (s t : Text) → compare_text s t ≢ Ordering.gt → TextLe s t
compare_text-TextLe [] t h = tt
compare_text-TextLe (c ∷ s) [] h = h refl
compare_text-TextLe (c ∷ s) (d ∷ t) h = elim (Ordering-cases (compare c d)) [
  | inl e ↦ inl (ground (arith, e))
  | inr (inl e) ↦
      inr ((ground (arith, e)), compare_text-TextLe s t (λ g. h (rw (e, g, compare_text) refl)))
  | inr (inr e) ↦ absurd (h (rw (e, compare_text) refl))
]

-- A place is not behind another: on an earlier line, or on the same one with an offset whose text is not
-- behind.
abbrev pub NotBehind : ℕ → Text → ℕ → Text → Type 0
NotBehind l o m p = (l < m) ⊎ ((l ≡ m) × TextLe o p)

pub ordered-NotBehind : (l m : ℕ) (o p : Text) → ordered l o m p ≢ Ordering.gt → NotBehind l o m p
unfolding ordered
ordered-NotBehind l m o p h = elim (Ordering-cases (compare l m)) [
  | inl e ↦ inl (ground (arith, e))
  | inr (inl e) ↦
      inr ((ground (arith, e)), compare_text-TextLe o p (λ g. h (rw (e, g, ordered) refl)))
  | inr (inr e) ↦ absurd (h (rw (e, ordered) refl))
]
