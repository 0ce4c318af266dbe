-- ===== src/Workspace/TextMap.antt =====
-- A `HashMap` with keys that are texts, filled where an entry is vacant.
use aderyn.Prelude.{
  Bool, true, false, ◌&&◌, Option, none, some, List, [], ◌∷◌, ◌≡◌, refl, arith, ◌==◌, if◌then◌else◌,
  is_some, Bool-cases, inl, inr,
}
use aderyn.Stats.Text.{Text}

unfoldable pub text_eq : Text → Text → Bool
text_eq [] [] = true
text_eq (c ∷ s) (d ∷ t) = c == d && text_eq s t
text_eq _ _ = false

pub text_eq_refl : (s : Text) → text_eq s s ≡ true
unfolding text_eq
text_eq_refl [] = refl
text_eq_refl (c ∷ s) = ground (arith, text_eq_refl s)

pub text_eq_sound : (s t : Text) → text_eq s t ≡ true → s ≡ t
unfolding text_eq
text_eq_sound [] [] h = refl
text_eq_sound (c ∷ s) (d ∷ t) h = ground (arith, text_eq_sound s t, h)
text_eq_sound [] (d ∷ t) h = ground (arith, h)
text_eq_sound (c ∷ s) [] h = ground (arith, h)

module _ {ℓ} {V : Type ℓ} where
  unfoldable pub lookup_text : Text → List (Text × V) → Option V
  lookup_text k [] = none
  lookup_text k ((j, v) ∷ m) = if text_eq j k then some v else lookup_text k m

  append_entry : Text → V → List (Text × V) → List (Text × V)
  append_entry k v [] = (k, v) ∷ []
  append_entry k v (e ∷ m) = e ∷ append_entry k v m

  -- `if let Entry::Vacant(e) = routes.entry(k) { e.insert(v); }`
  unfoldable pub insert_vacant : Text → V → List (Text × V) → List (Text × V)
  unfolding append_entry
  insert_vacant k v m = if is_some (lookup_text k m) then m else append_entry k v m

  -- `Option::or`
  abbrev pub or : Option V → Option V → Option V
  or none o = o
  or (some v) o = some v

  abbrev pub at_key : Text → V → Text → Option V
  at_key k v j = if text_eq k j then some v else none

  lookup_text-append_entry :
      (k j : Text) (v : V) (m : List (Text × V))
      → lookup_text j (append_entry k v m) ≡ or (lookup_text j m) (at_key k v j)
  unfolding lookup_text append_entry
  lookup_text-append_entry k j v [] = ground arith
  lookup_text-append_entry k j v ((i, w) ∷ m) = ground (arith, lookup_text-append_entry k j v m)

  -- The first entry of a key stays.
  pub lookup_text-insert_vacant :
      (k j : Text) (v : V) (m : List (Text × V))
      → lookup_text j (insert_vacant k v m) ≡ or (lookup_text j m) (at_key k v j)
  unfolding insert_vacant
  lookup_text-insert_vacant k j v m = elim (Bool-cases (is_some (lookup_text k m))) [
    | inl old ↦ elim (Bool-cases (text_eq k j)) [
      | inl same ↦ rw old (ground (arith, rw (text_eq_sound k j same) at old, same))
      | inr other ↦ ground (arith, old, other)
    ]
    | inr new ↦ rw new (lookup_text-append_entry k j v m)
  ]

  pub or_assoc : (a b c : Option V) → or (or a b) c ≡ or a (or b c)
  or_assoc none b c = refl
  or_assoc (some v) b c = refl

  pub or-none : (a : Option V) → or a none ≡ a
  or-none none = refl
  or-none (some v) = refl
