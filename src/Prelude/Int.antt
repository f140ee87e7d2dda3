-- ===== src/Prelude/Int.antt =====
-- Go's `int`: the program only compares it with constants, negates nothing and reads it as a bound.
use Prim.Native.Nat.{ℕ, ◌≤◌, ◌+◌, ◌-◌, ◌*◌, ◌%◌, ◌^◌}
use mathlib.Core.Bool.{Bool, true, false}
use web_gobbler.Prelude.Tests.{ltb, if◌then◌else◌}

-- `negsuc n` is -(n + 1).
pub data ℤ : Type 0 where
  pos : ℕ → ℤ
  negsuc : ℕ → ℤ

-- a < b
abbrev pub int_ltb : ℤ → ℤ → Bool
int_ltb (pos a) (pos b) = ltb a b
int_ltb (pos a) (negsuc b) = false
int_ltb (negsuc a) (pos b) = true
int_ltb (negsuc a) (negsuc b) = ltb b a

-- The order itself, as a statement.
abbrev pub ◌≤ℤ◌ : ℤ → ℤ → Type 0
◌≤ℤ◌ (pos a) (pos b) = a ≤ b
◌≤ℤ◌ (pos a) (negsuc b) = ⊥
◌≤ℤ◌ (negsuc a) (pos b) = Unit
◌≤ℤ◌ (negsuc a) (negsuc b) = b ≤ a

infix 50 ◌≤ℤ◌
-- The value of a non-negative `int`; the program reads only such values as bounds.
abbrev pub to_ℕ : ℤ → ℕ
to_ℕ (pos n) = n
to_ℕ (negsuc n) = 0

-- Arithmetic of `int` and `int64` keeps the low 64 bits.
abbrev pub wrap64 : ℤ → ℤ
wrap64 (pos n) = let r : ℕ = n % 2 ^ 64 in if ltb r (2 ^ 63) then pos r else negsuc (2 ^ 64 - r - 1)
wrap64 (negsuc n) =
    let r : ℕ = n % 2 ^ 64 in if ltb r (2 ^ 63) then negsuc r else pos (2 ^ 64 - 1 - r)

-- k * a
abbrev pub int_scale : ℕ → ℤ → ℤ
int_scale k (pos n) = pos (k * n)
int_scale k (negsuc n) = if ltb 0 k then negsuc (k * (n + 1) - 1) else pos 0
