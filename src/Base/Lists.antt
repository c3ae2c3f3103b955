-- ===== src/Base/Lists.antt =====
-- Lists measured by native numbers, and predicates on all or some elements, by recursion.
use Prim.Native.Nat.{ℕ, zero, suc, ◌+◌}
use mathlib.Core.Path.{◌≡◌, refl, ap}
use mathlib.Core.Bool.{Bool, true, false, ◌&&◌, ◌||◌}
use mathlib.Core.List.{List, [], ◌∷◌, ◌++◌, map}
use mathlib.Core.Option.{Option, none, some}
use native.Mathlib.Omega.{arith}

module _ {ℓ} {A : Type ℓ} where
  abbrev pub length : List A → ℕ
  length [] = 0
  length (x ∷ xs) = suc (length xs)

  abbrev pub get_elem? : List A → ℕ → Option A
  get_elem? [] i = none
  get_elem? (x ∷ xs) zero = some x
  get_elem? (x ∷ xs) (suc i) = get_elem? xs i

  abbrev pub last? : List A → Option A
  last? [] = none
  last? (x ∷ []) = some x
  last? (x ∷ y ∷ xs) = last? (y ∷ xs)

  -- All but the last element.
  abbrev pub init : List A → List A
  init [] = []
  init (x ∷ []) = []
  init (x ∷ y ∷ xs) = x ∷ init (y ∷ xs)

  abbrev pub modify_last : (A → A) → List A → List A
  modify_last f [] = []
  modify_last f (x ∷ []) = f x ∷ []
  modify_last f (x ∷ y ∷ xs) = x ∷ modify_last f (y ∷ xs)

  abbrev pub all : (A → Bool) → List A → Bool
  all p [] = true
  all p (x ∷ xs) = p x && all p xs

  abbrev pub any : (A → Bool) → List A → Bool
  any p [] = false
  any p (x ∷ xs) = p x || any p xs

  pub length-append : (xs ys : List A) → length (xs ++ ys) ≡ length xs + length ys
  length-append [] ys = omega arith
  length-append (x ∷ xs) ys = omega (arith, length-append xs ys)

  pub last?-append : (xs : List A) (x : A) → last? (xs ++ x ∷ []) ≡ some x
  last?-append [] x = refl
  last?-append (y ∷ []) x = refl
  last?-append (y ∷ z ∷ xs) x = last?-append (z ∷ xs) x

  pub init-append : (xs : List A) (x : A) → init (xs ++ x ∷ []) ≡ xs
  init-append [] x = refl
  init-append (y ∷ []) x = refl
  init-append (y ∷ z ∷ xs) x = ap (λ l. y ∷ l) (init-append (z ∷ xs) x)

  pub init-modify_last : (f : A → A) (xs : List A) → init (modify_last f xs) ≡ init xs
  init-modify_last f [] = refl
  init-modify_last f (x ∷ []) = refl
  init-modify_last f (x ∷ y ∷ []) = refl
  init-modify_last f (x ∷ y ∷ z ∷ xs) = ap (λ l. x ∷ l) (init-modify_last f (y ∷ z ∷ xs))

  pub modify_last-eq :
      (f : A → A) (xs : List A) (x : A) → last? xs ≡ some x → modify_last f xs ≡ init xs ++ f x ∷ []
  modify_last-eq f [] x h = ground arith
  modify_last-eq f (y ∷ []) x h = ground arith
  modify_last-eq f (y ∷ z ∷ xs) x h = ap (λ l. y ∷ l) (modify_last-eq f (z ∷ xs) x h)

pub length-map {ℓ κ} :
    {A : Type ℓ} {B : Type κ} (f : A → B) (xs : List A) → length (map f xs) ≡ length xs
length-map f [] = refl
length-map f (x ∷ xs) = ap suc (length-map f xs)
