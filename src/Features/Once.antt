-- ===== src/Features/Once.antt =====
-- The shared instance of a feature provider under pkg/featureprovider/providers.
use kstone.Base.{◌≡◌, refl, subst, Option, none, some}
use kstone.Base.Effect.{Go, Error, pure, >>=-eq-some}
use kstone.Interfaces.{Result, ok, err}
use kstone.Features.{Shared, Instance, no_instance, kept, init_feature_instance}

module _ {W S : Type 0} where
  -- After the first call of a provider's init function every other call, whatever could be made
  -- then, answers the same instance with no error and changes nothing. If the first call could not
  -- make the server, this instance has none for ever.
  pub init_feature_instance_again :
      (make again : Go W (Result S)) (shared : Shared S) (i : Option (Option S)) (e : Option Error)
      (w w' v : W)
      → init_feature_instance make no_instance w ≡ some ((shared, (i, e)), w')
      → (init_feature_instance again shared v ≡ some ((shared, (i, none)), v))
        × ((x : Error) → e ≡ some x → i ≡ some none)
  unfolding init_feature_instance
  init_feature_instance_again make again shared i e w w' v h =
      let (r, w₁, p, q) = >>=-eq-some (λ s. pure (kept s)) make w h in of r q
    where
      Again : Instance S → Type 0
      Again z =
          (init_feature_instance again z.0 v ≡ some ((z.0, (z.1.0, none)), v))
          × ((x : Error) → z.1.1 ≡ some x → z.1.0 ≡ some none)

      of :
          {w₁ : W} (r : Result S)
          → ◌≡◌ {A = Option (Instance S × W)} (some (kept r, w₁)) (some ((shared, (i, e)), w'))
          → (init_feature_instance again shared v ≡ some ((shared, (i, none)), v))
            × ((x : Error) → e ≡ some x → i ≡ some none)
      of (ok s) q =
          let k : kept (ok s) ≡ (shared, (i, e)) = cc in subst Again k (refl, λ x n. absurd (cc))
      of (err x) q =
          let k : kept (err x) ≡ (shared, (i, e)) = cc in subst Again k (refl, λ y n. refl)
