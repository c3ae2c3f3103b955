-- ===== src/Interfaces/Results.antt =====
-- Chains of calls that answer (T, error): an error ends the chain.
use kstone.Base.{◌≡◌, refl}
use kstone.Base.Effect.{Error}
use kstone.Interfaces.{Result, ok, err}

infixl 5 ◌>>=◌
abbrev pub ◌>>=◌ : {S T : Type 0} → Result S → (S → Result T) → Result T
err e >>= next = err e
ok s >>= next = next s

-- The error of a call, wrapped by fmt.Errorf.
abbrev pub wrap_error : {A : Type 0} → (Error → Error) → Result A → Result A
wrap_error f (ok a) = ok a
wrap_error f (err e) = err (f e)

pub >>=-eq-ok :
    {S T : Type 0} (call : Result S) (next : S → Result T) {t : T}
    → (call >>= next) ≡ ok t
    → (s : S) × (call ≡ ok s) × (next s ≡ ok t)
>>=-eq-ok (err e) next p = cc
>>=-eq-ok (ok s) next p = (s, refl, p)

pub wrap_error-eq-ok :
    {A : Type 0} (f : Error → Error) (m : Result A) {a : A} → wrap_error f m ≡ ok a → m ≡ ok a
wrap_error-eq-ok f (ok a) h = h
wrap_error-eq-ok f (err e) h = cc
