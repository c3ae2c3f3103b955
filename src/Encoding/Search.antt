-- ===== src/Encoding/Search.antt =====
-- bytes.Index and bytes.IndexAny, slices of bytes, and what they find.
use kstone.Base.{
  ℕ, zero, suc, ◌<◌, ◌≡◌, refl, ap, sym, Bool, true, false, Option, none, some, [], ◌∷◌, ◌++◌,
  length, arith, ◌==◌, if◌then◌else◌, any, subst,
}
use mathlib.Core.List.{append_assoc}
use kstone.Base.Text.{Text, has_prefix}

-- s[i:] and s[:i], for `i` up to the length.
unfoldable pub drop : ℕ → Text → Text
drop zero s = s
drop (suc i) [] = []
drop (suc i) (a ∷ s) = drop i s

unfoldable pub take : ℕ → Text → Text
take zero s = []
take (suc i) [] = []
take (suc i) (a ∷ s) = a ∷ take i s

unfoldable pub later : Option ℕ → Option ℕ
later none = none
later (some i) = some (suc i)

-- The first position at which a test of the rest succeeds, of those before the end.
unfoldable pub first_at : (Text → Bool) → Text → Option ℕ
unfolding later
first_at p [] = none
first_at p (a ∷ s) = let rest = later (first_at p s) in if p (a ∷ s) then some zero else rest

-- bytes.Index with a separator that is not empty.
unfoldable pub index : Text → Text → Option ℕ
unfolding first_at
index s sep = first_at (λ t. has_prefix t sep) s

abbrev pub starts_with_any : Text → Text → Bool
starts_with_any chars [] = false
starts_with_any chars (a ∷ s) = any (λ c. c == a) chars

-- bytes.IndexAny
unfoldable pub index_any : Text → Text → Option ℕ
unfolding first_at
index_any s chars = first_at (starts_with_any chars) s

-- The test fails at every position of `pre`, a part before `t`.
abbrev pub Fails : (Text → Bool) → Text → Text → Type 0
Fails p [] t = Unit
Fails p (a ∷ pre) t = (p (a ∷ (pre ++ t)) ≡ false) × Fails p pre t

-- The test fails at every position.
abbrev pub Never : (Text → Bool) → Text → Type 0
Never p [] = Unit
Never p (a ∷ s) = (p (a ∷ s) ≡ false) × Never p s

-- What first_at answers: the place of the first success, or that there is none.
pub data FirstAt (p : Text → Bool) (s : Text) : Option ℕ → Type 0 where
  nowhere : Never p s → FirstAt p s none
  somewhere :
      (pre t : Text) (i : ℕ)
      → s ≡ pre ++ t
      → drop i s ≡ t
      → i < length s
      → p t ≡ true
      → Fails p pre t
      → FirstAt p s (some i)

pub first_at-FirstAt : (p : Text → Bool) (s : Text) → FirstAt p s (first_at p s)
unfolding first_at later drop
first_at-FirstAt p [] = nowhere tt
first_at-FirstAt p (a ∷ s) = split (first_at-FirstAt p s) (p (a ∷ s)) refl
  where
    skipped : p (a ∷ s) ≡ false → (o : Option ℕ) → FirstAt p s o → FirstAt p (a ∷ s) (later o)
    skipped h none (nowhere n) = nowhere (h, n)
    skipped h (some _) (somewhere pre t i e d l q n) =
        somewhere (a ∷ pre) t (suc i) (ap (λ z. a ∷ z) e) d (omega arith) q
          (subst (λ z. p (a ∷ z) ≡ false) e h, n)

    split :
        FirstAt p s (first_at p s)
        → (b : Bool) → p (a ∷ s) ≡ b
        → FirstAt p (a ∷ s) (if b then some zero else later (first_at p s))
    split ih true h = somewhere [] (a ∷ s) zero refl refl (omega arith) h tt
    split ih false h = skipped h (first_at p s) ih

-- A test that implies another fails wherever that fails.
pub Never-imp :
    (p q : Text → Bool)
    → ((t : Text) → p t ≡ false → q t ≡ false)
    → (s : Text) → Never p s
    → Never q s
Never-imp p q k [] n = tt
Never-imp p q k (a ∷ s) (h, n) = (k (a ∷ s) h, Never-imp p q k s n)

pub Fails-imp :
    (p q : Text → Bool)
    → ((t : Text) → p t ≡ false → q t ≡ false)
    → (pre t : Text) → Fails p pre t
    → Fails q pre t
Fails-imp p q k [] t n = tt
Fails-imp p q k (a ∷ pre) t (h, n) = (k (a ∷ (pre ++ t)) h, Fails-imp p q k pre t n)

pub Never-append : (p : Text → Bool) (pre t : Text) → Fails p pre t → Never p t → Never p (pre ++ t)
Never-append p [] t f n = n
Never-append p (a ∷ pre) t (h, f) n = (h, Never-append p pre t f n)

pub Fails-append :
    (p : Text → Bool) (pre mid t : Text)
    → Fails p pre (mid ++ t)
    → Fails p mid t
    → Fails p (pre ++ mid) t
Fails-append p [] mid t f g = g
Fails-append p (a ∷ pre) mid t (h, f) g =
    (subst (λ z. p (a ∷ z) ≡ false) (sym (append_assoc pre mid t)) h, Fails-append p pre mid t f g)
