-- ===== src/Base/Effect.antt =====
-- Go functions with effects: state passing over a world `W`, where `none` is a run-time panic.
use mathlib.Core.Path.{◌≡◌, refl, ap, subst}
use mathlib.Core.Option.{Option, none, some}
use kstone.Base.Text.{Text}

-- What a Kubernetes API error says of itself: apierrors.IsNotFound and IsAlreadyExists test this.
pub data Reason : Type 0 where
  not_found already_exists other : Reason

pub record Error : Type 0 where
  pub reason : Reason
  pub message : Text

-- errors.New and fmt.Errorf
abbrev pub new_error : Text → Error
new_error s = record { reason = other; message = s }

abbrev pub Go : Type 0 → Type 0 → Type 0
Go W A = W → Option (A × W)

abbrev pub pure : {W A : Type 0} → A → Go W A
pure a w = some (a, w)

abbrev pub panic : {W A : Type 0} → Go W A
panic w = none

infixl 5 ◌>>=◌ ◌>>◌
abbrev pub ◌>>=◌ : {W A B : Type 0} → Go W A → (A → Go W B) → Go W B
◌>>=◌ m f w = elim (m w) [ none ↦ none | some (a, w') ↦ f a w' ]

abbrev pub ◌>>◌ : {W A B : Type 0} → Go W A → Go W B → Go W B
m >> k = m >>= λ _. k

-- Inversion of a bind that returns.
module _ {W A B : Type 0} (f : A → Go W B) {r : B × W} where
  Option-bind :
      (o : Option (A × W))
      → elim o [ none ↦ none | some (a, v) ↦ f a v ] ≡ some r
      → (a : A) × (v : W) × (o ≡ some (a, v)) × (f a v ≡ some r)
  Option-bind none h = cc
  Option-bind (some (a, v)) h = (a, v, refl, h)

  pub >>=-eq-some :
      (m : Go W A) (w : W)
      → ◌>>=◌ m f w ≡ some r
      → (a : A) × (v : W) × (m w ≡ some (a, v)) × (f a v ≡ some r)
  >>=-eq-some m w h = Option-bind (m w) h

-- A bind of a computation that returns.
pub >>=-some :
    {W A B : Type 0} (f : A → Go W B) (m : Go W A) {a : A} {w v : W}
    → m w ≡ some (a, v)
    → ◌>>=◌ m f w ≡ f a v
>>=-some f m h = ap (λ o. elim o [ none ↦ none | some (a, v) ↦ f a v ]) h

-- A computation whose result is paired with a value.
pub paired-eq-some :
    {W A B : Type 0} (m : Go W B) (a : A) (p : A × B) (w w' : W)
    → (m >>= λ b. pure (a, b)) w ≡ some (p, w')
    → (m w ≡ some (p.1, w')) × (a ≡ p.0)
paired-eq-some {W} {A} {B} m a p w w' h =
    let (b, w₁, q, r) = >>=-eq-some (λ b. pure (a, b)) m w h in of b w₁ q r
  where
    of :
        (b : B) (w₁ : W)
        → m w ≡ some (b, w₁)
        → ◌≡◌ {A = Option ((A × B) × W)} (some ((a, b), w₁)) (some (p, w'))
        → (m w ≡ some (p.1, w')) × (a ≡ p.0)
    of b w₁ q r =
        let k : (a, b) ≡ p = cc in
        let v : w₁ ≡ w' = cc in
        (
          subst (λ v. m w ≡ some (p.1, v)) v (subst (λ z. m w ≡ some (z.1, w₁)) k q),
          ap (λ z. z.0) k,
        )
