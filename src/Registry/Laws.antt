-- ===== src/Registry/Laws.antt =====
-- What a registry answers after a registration.
use kstone.Base.{◌≡◌, refl, ap, ◌∙◌, Bool, true, false, some, if◌then◌else◌}
use kstone.Base.Text.{Text, text_eq}
use kstone.Base.Dict.{lookup, lookup-insert}
use kstone.Base.Effect.{Go}
use kstone.Interfaces.{Result}
use kstone.Registry.{Factories, register, make, get_provider}

module _ {W C P : Type 0} where
  -- After a registration the name is answered by the new factory, also if it was registered before,
  -- and every other name as before.
  pub get_provider-register :
      (missing name other : Text) (factory : C → Go W (Result P)) (providers : Factories W C P)
      (context : C) (w : W)
      → get_provider missing (register name factory providers) other context w ≡ (
          if text_eq name other
          then factory context w
          else get_provider missing providers other context w)
  unfolding get_provider register make
  get_provider-register missing name other factory providers context w =
      ap (λ o. make missing o context w) (lookup-insert name other factory providers)
      ∙ split (text_eq name other)
    where
      split :
          (b : Bool)
          → make missing (if b then some factory else lookup other providers) context w
            ≡ (if b then factory context w else make missing (lookup other providers) context w)
      split true = refl
      split false = refl
