-- ===== src/Prelude/Leads.antt =====
-- Paths in a graph that a Boolean test of its edges gives.
use Prim.Native.Nat.{ℕ}
use mathlib.Core.Path.{◌≡◌}
use mathlib.Core.Bool.{Bool, true}

-- A path of none or more edges.
pub data Leads (E : ℕ → ℕ → Bool) : ℕ → ℕ → Type 0 where
  here : {a : ℕ} → Leads E a a
  step : {a b c : ℕ} → E a b ≡ true → Leads E b c → Leads E a c

pub Leads-map :
    {E F : ℕ → ℕ → Bool} {a b : ℕ}
    → ((i j : ℕ) → E i j ≡ true → F i j ≡ true)
    → Leads E a b
    → Leads F a b
Leads-map f here = here
Leads-map f (step {a} {b} e p) = step (f a b e) (Leads-map f p)

-- The path of the images under `f`.
pub Leads-along :
    {E F : ℕ → ℕ → Bool} {a b : ℕ} (f : ℕ → ℕ)
    → ((i j : ℕ) → E i j ≡ true → F (f i) (f j) ≡ true)
    → Leads E a b
    → Leads F (f a) (f b)
Leads-along f g here = here
Leads-along f g (step {a} {b} e p) = step (g a b e) (Leads-along f g p)

pub Leads-append : {E : ℕ → ℕ → Bool} {a b c : ℕ} → Leads E a b → Leads E b c → Leads E a c
Leads-append here q = q
Leads-append (step e p) q = step e (Leads-append p q)
