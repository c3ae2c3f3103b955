-- ===== src/Base/Split.antt =====
-- Laws of strings.Split and strings.Join, and of the trims, as Base.Text models them.
use Prim.Native.Nat.{ℕ}
use mathlib.Core.Path.{◌≡◌, refl, ap, ◌∙◌}
use mathlib.Core.Bool.{Bool, true, ◌&&◌, not}
use mathlib.Core.List.{List, [], ◌∷◌, ◌++◌}
use native.Mathlib.Omega.{arith}
use kstone.Base.Tests.{◌==◌, if◌then◌else◌}
use kstone.Base.Lists.{all}
use kstone.Base.Text.{Text, split, join}

-- No byte of the text is `c`.
unfoldable pub is_free : ℕ → Text → Bool
is_free c [] = true
is_free c (a ∷ s) = not (a == c) && is_free c s

split-cons : (c : ℕ) (s : Text) → (w : Text) × (ws : List Text) × (split c s ≡ w ∷ ws)
unfolding split
split-cons c [] = ([], [], refl)
split-cons c (a ∷ s) = step a (split-cons c s)
  where
    step :
        (a : ℕ)
        → (w : Text) × (ws : List Text) × (split c s ≡ w ∷ ws)
        → (w : Text) × (ws : List Text) × (split c (a ∷ s) ≡ w ∷ ws)
    step a (w, ws, e) =
        (if a == c then [] else a ∷ w, if a == c then w ∷ ws else ws, ground (arith, e))

pub split-free : (c : ℕ) (w : Text) → is_free c w ≡ true → split c w ≡ w ∷ []
unfolding split is_free
split-free c [] h = refl
split-free c (a ∷ s) h = ground (arith, split-free c s)

pub split-append : (c : ℕ) (w s : Text) → is_free c w ≡ true → split c (w ++ c ∷ s) ≡ w ∷ split c s
unfolding split is_free
split-append c [] s h = let (w, ws, e) = split-cons c s in ground (arith, e)
split-append c (a ∷ w) s h = ground (arith, split-append c w s)

pub is_free-append :
    (c : ℕ) (s t : Text) → is_free c s ≡ true → is_free c t ≡ true → is_free c (s ++ t) ≡ true
unfolding is_free
is_free-append c [] t h k = k
is_free-append c (a ∷ s) t h k = ground (arith, is_free-append c s t)

-- Splitting what was joined gives the parts back.
pub split-join :
    (c : ℕ) (w : Text) (ws : List Text)
    → all (is_free c) (w ∷ ws) ≡ true
    → split c (join (c ∷ []) (w ∷ ws)) ≡ w ∷ ws
unfolding join
split-join c w [] h = split-free c w (ground arith)
split-join c w (v ∷ ws) h =
    split-append c w (join (c ∷ []) (v ∷ ws)) (ground arith)
    ∙ ap (λ l. w ∷ l) (split-join c v ws (ground arith))
