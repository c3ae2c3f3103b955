-- ===== src/Base/Int.antt =====
-- Go's int64 where its sign matters, on values that do not overflow: `negsuc n` is -(n + 1).
use Prim.Native.Nat.{ℕ, zero, suc, ◌-◌, ◌/◌}
use mathlib.Core.Bool.{Bool, true, false}
use mathlib.Core.Option.{Option, none, some}
use kstone.Base.Tests.{ltb}

pub data ℤ : Type 0 where
  pos : ℕ → ℤ
  negsuc : ℕ → ℤ

abbrev pub negated : ℕ → ℤ
negated zero = pos zero
negated (suc n) = negsuc n

-- The quotient of a number by an int, towards zero; division by zero panics.
unfoldable pub quotient : ℕ → ℤ → Option ℤ
quotient n (pos zero) = none
quotient n (pos (suc d)) = some (pos (n / suc d))
quotient n (negsuc d) = some (negated (n / suc d))

-- a > b
unfoldable pub greater : ℤ → ℤ → Bool
greater (pos a) (pos b) = ltb b a
greater (pos a) (negsuc b) = true
greater (negsuc a) (pos b) = false
greater (negsuc a) (negsuc b) = ltb a b

-- a - n, raised to zero where it is below.
unfoldable pub minus_floor : ℤ → ℕ → ℕ
minus_floor (pos a) n = a - n
minus_floor (negsuc a) n = 0
