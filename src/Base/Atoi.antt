-- ===== src/Base/Atoi.antt =====
-- strconv.Atoi and the conversions of an int: integers in two's complement, as numbers below 2 ^ 64.
use Prim.Native.Nat.{ℕ, ◌-◌, ◌%◌}
use mathlib.Core.Bool.{Bool, true, false}
use mathlib.Core.List.{[], ◌∷◌}
use kstone.Base.Tests.{leb, ◌==◌, if◌then◌else◌}
use kstone.Base.Lists.{all}
use kstone.Base.Text.{Text, text, cat}
use kstone.Base.Decimal.{decimal, is_digit}

-- The value, and whether the text was a number in range.
pub record Atoi : Type 0 where
  pub value : ℕ
  pub parsed : Bool

abbrev pub max_int : ℕ
max_int = 9_223_372_036_854_775_807

abbrev pub min_int : ℕ
min_int = 9_223_372_036_854_775_808

abbrev two_64 : ℕ
two_64 = 18_446_744_073_709_551_616

abbrev pub two_32 : ℕ
two_32 = 4_294_967_296

unfoldable pub magnitude : Bool → ℕ → Atoi
magnitude false n =
    if leb n max_int
    then record { value = n; parsed = true }
    else record { value = max_int; parsed = false }
magnitude true n =
    if leb n min_int
    then record { value = (two_64 - n) % two_64; parsed = true }
    else record { value = min_int; parsed = false }

unfoldable pub digits : Bool → Text → Atoi
unfolding magnitude
digits negative [] = record { value = 0; parsed = false }
digits negative (d ∷ ds) =
    if all is_digit (d ∷ ds)
    then magnitude negative (decimal 0 (d ∷ ds))
    else record { value = 0; parsed = false }

unfoldable pub atoi : Text → Atoi
unfolding digits
atoi [] = record { value = 0; parsed = false }
atoi (c ∷ s) =
    if c == b'-' then digits true s else if c == b'+' then digits false s else digits false (c ∷ s)

-- int32(n)
abbrev pub int32 : ℕ → ℕ
int32 n = n % two_32

-- The message of its error, for a printable text: a syntax error has the value 0.
abbrev pub atoi_message : Text → Atoi → Text
atoi_message s n = cat (
    text "strconv.Atoi: parsing "
    ∷ (34 ∷ [])
    ∷ s
    ∷ (34 ∷ [])
    ∷ text ": "
    ∷ (if n.value == 0 then text "invalid syntax" else text "value out of range")
    ∷ [])
