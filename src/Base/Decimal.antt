-- ===== src/Base/Decimal.antt =====
-- strconv.Itoa and the verb %d on numbers that are not negative.
use Prim.Native.Nat.{ℕ, zero, suc, ◌+◌, ◌-◌, ◌*◌, ◌/◌, ◌%◌, ◌<◌}
use mathlib.Core.Path.{◌≡◌, refl, ap, sym, ◌∙◌}
use mathlib.Core.Bool.{Bool, true, false, ◌&&◌}
use mathlib.Core.List.{[], ◌∷◌}
use mathlib.Core.Logic.{inl, inr}
use native.Mathlib.Omega.{arith}
use kstone.Base.Tests.{ltb, leb, if◌then◌else◌, Bool-cases}
use kstone.Base.Lists.{all}
use kstone.Base.Text.{Text}
use kstone.Base.Split.{is_free}

-- On fuel, the last digit first.
unfoldable pub digits_before : ℕ → ℕ → Text → Text
digits_before zero n rest = rest
digits_before (suc f) n rest =
    let more = digits_before f (n / 10) ((48 + n % 10) ∷ rest) in
    if ltb n 10 then (48 + n) ∷ rest else more

unfoldable pub itoa : ℕ → Text
unfolding digits_before
itoa n = digits_before (suc n) n []

-- The number that a decimal text stands for, behind the digits of `v`.
unfoldable pub decimal : ℕ → Text → ℕ
decimal v [] = v
decimal v (d ∷ ds) = decimal (v * 10 + (d - 48)) ds

abbrev pub is_digit : ℕ → Bool
is_digit d = leb 48 d && leb d 57

decimal-digits_before :
    (f n : ℕ) (rest : Text) → n < f → decimal 0 (digits_before f n rest) ≡ decimal n rest
unfolding decimal digits_before
decimal-digits_before zero n rest h = absurd (omega arith)
decimal-digits_before (suc f) n rest h = elim (Bool-cases (ltb n 10)) [
  | inl small ↦ rw small (ap (λ v. decimal v rest) (omega arith))
  | inr big ↦ rw big (
      decimal-digits_before f (n / 10) ((48 + n % 10) ∷ rest) (ground arith)
      ∙ ap (λ v. decimal v rest) (omega arith))
]

-- The fuel of `itoa` is enough: reading the digits gives the number back.
pub decimal-itoa : (n : ℕ) → decimal 0 (itoa n) ≡ n
unfolding itoa
decimal-itoa n = decimal-digits_before (suc n) n [] (omega arith) ∙ unfold decimal in refl

pub itoa-injective : (m n : ℕ) → itoa m ≡ itoa n → m ≡ n
itoa-injective m n e = sym (decimal-itoa m) ∙ (ap (decimal 0) e ∙ decimal-itoa n)

digits_before-digits :
    (f n : ℕ) (rest : Text)
    → all is_digit rest ≡ true
    → all is_digit (digits_before f n rest) ≡ true
unfolding digits_before
digits_before-digits zero n rest h = h
digits_before-digits (suc f) n rest h =
    ground (arith, digits_before-digits f (n / 10) ((48 + n % 10) ∷ rest))

pub itoa-digits : (n : ℕ) → all is_digit (itoa n) ≡ true
unfolding itoa
itoa-digits n = digits_before-digits (suc n) n [] refl

-- A byte that is no digit does not stand in a number.
pub digits-free :
    (c : ℕ) (s : Text) → is_digit c ≡ false → all is_digit s ≡ true → is_free c s ≡ true
unfolding is_free
digits-free c [] h k = refl
digits-free c (a ∷ s) h k = ground (arith, digits-free c s h)
