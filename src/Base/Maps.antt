-- ===== src/Base/Maps.antt =====
-- The association lists that stand for Go maps: no key twice, and what the writes keep of that.
use Prim.Native.Nat.{suc}
use mathlib.Core.Path.{◌≡◌, refl, ap, sym, ◌∙◌, subst}
use mathlib.Core.Logic.{◌≢◌, inl, inr}
use mathlib.Core.List.{[], ◌∷◌}
use mathlib.Core.Option.{none}
use native.Mathlib.Omega.{arith}
use kstone.Base.Tests.{if◌then◌else◌, Bool-cases}
use kstone.Base.Lists.{length}
use kstone.Base.Text.{Text, text_eq, text_eq_iff, text_eq_sound}
use kstone.Base.Dict.{Dict, lookup, insert, delete, lookup-insert, lookup-delete}

module _ {V : Type 0} where
  -- No key stands twice.
  abbrev pub IsMap : Dict V → Type 0
  IsMap [] = Unit {0}
  IsMap ((k, v) ∷ m) = (lookup k m ≡ none) × IsMap m

  pub insert-IsMap : (k : Text) (v : V) (m : Dict V) → IsMap m → IsMap (insert k v m)
  unfolding lookup insert
  insert-IsMap k v [] h = (refl, tt)
  insert-IsMap k v ((j, w) ∷ m) (a, h) = elim (Bool-cases (text_eq j k)) [
    | inl e ↦ rw e (subst (λ i. lookup i m ≡ none) (text_eq_sound j k e) a, h)
    | inr e ↦ rw e (
      ground (arith, lookup-insert k j v m, text_eq_iff k j, text_eq_iff j k),
      insert-IsMap k v m h,
    )
  ]

  delete-absent : (k : Text) (m : Dict V) → lookup k m ≡ none → delete k m ≡ m
  unfolding lookup delete
  delete-absent k [] h = refl
  delete-absent k ((j, w) ∷ m) h = ground (arith, delete-absent k m)

  pub delete-IsMap : (k : Text) (m : Dict V) → IsMap m → IsMap (delete k m)
  unfolding delete
  delete-IsMap k [] h = tt
  delete-IsMap k ((j, w) ∷ m) (a, h) = elim (Bool-cases (text_eq j k)) [
    | inl e ↦ rw e (delete-IsMap k m h)
    | inr e ↦
        rw e (
          ground (arith, lookup-delete k j m, text_eq_iff k j, text_eq_iff j k),
          delete-IsMap k m h,
        )
  ]

  -- Deleting a key of a map that has another one leaves a map with a key.
  pub delete-ne-nil :
      (k : Text) (m : Dict V) → IsMap m → lookup k m ≢ none → length m ≢ 1 → delete k m ≢ []
  unfolding lookup delete
  delete-ne-nil k [] h f l e = f refl
  delete-ne-nil k ((j, w) ∷ m) (a, h) f l e = elim (Bool-cases (text_eq j k)) [
    | inl t ↦
        let b = delete-absent k m (subst (λ i. lookup i m ≡ none) (text_eq_sound j k t) a) in
        l (ap (λ (n : Dict V). suc (length n)) (sym b ∙ rw t at e))
    | inr t ↦
        let c : (if text_eq j k then delete k m else (j, w) ∷ delete k m) ≡ [] = e in cc (rw t at c)
  ]

  pub insert-ne-nil : (k : Text) (v : V) (m : Dict V) → insert k v m ≢ []
  unfolding insert
  insert-ne-nil k v [] e = cc
  insert-ne-nil k v ((j, w) ∷ m) e = elim (Bool-cases (text_eq j k)) [
    | inl t ↦
        let c : (if text_eq j k then (k, v) ∷ m else (j, w) ∷ insert k v m) ≡ [] = e in
        cc (rw t at c)
    | inr t ↦
        let c : (if text_eq j k then (k, v) ∷ m else (j, w) ∷ insert k v m) ≡ [] = e in
        cc (rw t at c)
  ]
