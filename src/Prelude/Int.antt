-- ===== src/Prelude/Int.antt =====
-- The machine's `isize`, as an integer: `negsuc n` is -(n + 1).
use aderyn.Prelude.{ℕ, Bool, false, ◌==◌}

pub data ℤ : Type 0 where
  pos : ℕ → ℤ
  negsuc : ℕ → ℤ

infix 50 ◌==ℤ◌
abbrev pub ◌==ℤ◌ : ℤ → ℤ → Bool
pos m ==ℤ pos n = m == n
negsuc m ==ℤ negsuc n = m == n
_ ==ℤ _ = false
