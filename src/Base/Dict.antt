-- ===== src/Base/Dict.antt =====
-- Go maps with string keys, as association lists. A nil map is `none` where the code can tell.
use mathlib.Core.Path.{◌≡◌, refl, sym, ap, ◌∙◌, subst}
use mathlib.Core.Bool.{Bool, true, false, ◌&&◌}
use mathlib.Core.List.{List, [], ◌∷◌}
use mathlib.Core.Option.{Option, none, some}
use mathlib.Core.Logic.{◌⊎◌, inl, inr}
use native.Mathlib.Omega.{arith}
use kstone.Base.Tests.{if◌then◌else◌, Bool-cases, &&-true}
use kstone.Base.Text.{Text, text_eq, text_eq_iff, text_eq_refl, text_eq_sound}

abbrev pub Dict {ℓ} : Type ℓ → Type ℓ
Dict V = List (Text × V)

module _ {ℓ} {V : Type ℓ} where
  unfoldable pub lookup : Text → Dict V → Option V
  lookup k [] = none
  lookup k ((j, v) ∷ m) = if text_eq j k then some v else lookup k m

  unfoldable pub insert : Text → V → Dict V → Dict V
  insert k v [] = (k, v) ∷ []
  insert k v ((j, w) ∷ m) = if text_eq j k then (k, v) ∷ m else (j, w) ∷ insert k v m

  unfoldable pub delete : Text → Dict V → Dict V
  delete k [] = []
  delete k ((j, w) ∷ m) = let rest = delete k m in if text_eq j k then rest else (j, w) ∷ rest

  pub lookup-insert :
      (k j : Text) (v : V) (m : Dict V)
      → lookup j (insert k v m) ≡ (if text_eq k j then some v else lookup j m)
  unfolding lookup insert
  lookup-insert k j v [] = refl
  lookup-insert k j v ((i, w) ∷ m) =
      ground (arith, text_eq_iff k j, text_eq_iff i k, text_eq_iff i j, lookup-insert k j v m)

  pub lookup-insert_self : (k : Text) (v : V) (m : Dict V) → lookup k (insert k v m) ≡ some v
  lookup-insert_self k v m = simp (lookup-insert, text_eq_refl)

  pub lookup-delete :
      (k j : Text) (m : Dict V) → lookup j (delete k m) ≡ (if text_eq k j then none else lookup j m)
  unfolding lookup delete
  lookup-delete k j [] = ground arith
  lookup-delete k j ((i, w) ∷ m) =
      ground (arith, text_eq_iff k j, text_eq_iff i k, text_eq_iff i j, lookup-delete k j m)

-- Reading a nil map finds nothing.
abbrev pub find {ℓ} : {V : Type ℓ} → Text → Option (Dict V) → Option V
find k none = none
find k (some m) = lookup k m

text_option_eq : Option Text → Option Text → Bool
text_option_eq none none = true
text_option_eq none (some t) = false
text_option_eq (some s) none = false
text_option_eq (some s) (some t) = text_eq s t

text_option_eq_refl : (o : Option Text) → text_option_eq o o ≡ true
unfolding text_option_eq
text_option_eq_refl none = refl
text_option_eq_refl (some s) = text_eq_refl s

agree_on : Dict Text → Dict Text → Dict Text → Bool
unfolding text_option_eq
agree_on m n [] = true
agree_on m n ((k, v) ∷ keys) = text_option_eq (lookup k m) (lookup k n) && agree_on m n keys

agree_on_self : (m keys : Dict Text) → agree_on m m keys ≡ true
unfolding agree_on
agree_on_self m [] = refl
agree_on_self m ((k, v) ∷ keys) = rw (text_option_eq_refl (lookup k m)) (agree_on_self m keys)

-- reflect.DeepEqual on two maps that are not nil: the same keys with the same values.
unfoldable pub dict_eq : Dict Text → Dict Text → Bool
unfolding agree_on
dict_eq m n = agree_on m n m && agree_on m n n

pub dict_eq_refl : (m : Dict Text) → dict_eq m m ≡ true
unfolding dict_eq
dict_eq_refl m = rw (agree_on_self m m)

pub dict_eq-nil : (k v : Text) (m : Dict Text) → dict_eq [] ((k, v) ∷ m) ≡ false
unfolding dict_eq agree_on lookup text_option_eq
dict_eq-nil k v m = rw (text_eq_refl k) refl

text_option_eq_sound : (o p : Option Text) → text_option_eq o p ≡ true → o ≡ p
unfolding text_option_eq
text_option_eq_sound none none h = refl
text_option_eq_sound none (some t) h = absurd (cc)
text_option_eq_sound (some s) none h = absurd (cc)
text_option_eq_sound (some s) (some t) h = ap some (text_eq_sound s t h)

agree_on-lookup :
    (m n keys : Dict Text) (k : Text)
    → agree_on m n keys ≡ true
    → (lookup k m ≡ lookup k n) ⊎ (lookup k keys ≡ none)
unfolding agree_on lookup
agree_on-lookup m n [] k h = inr refl
agree_on-lookup m n ((j, v) ∷ keys) k h =
    let (a, b) = &&-true (text_option_eq (lookup j m) (lookup j n)) (agree_on m n keys) h in
    elim (Bool-cases (text_eq j k)) [
      | inl e ↦ inl (
          subst (λ i. lookup i m ≡ lookup i n) (text_eq_sound j k e)
            (text_option_eq_sound (lookup j m) (lookup j n) a))
      | inr e ↦ rw e (agree_on-lookup m n keys k b)
    ]

pub dict_eq-lookup : (m n : Dict Text) → dict_eq m n ≡ true → (k : Text) → lookup k m ≡ lookup k n
unfolding dict_eq
dict_eq-lookup m n h k =
    let (a, b) = &&-true (agree_on m n m) (agree_on m n n) h in
    elim (agree_on-lookup m n m k a) [
      | inl e ↦ e
      | inr e ↦ elim (agree_on-lookup m n n k b) [ inl d ↦ d | inr d ↦ e ∙ sym d ]
    ]
