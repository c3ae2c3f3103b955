-- ===== src/Base/Text.antt =====
-- Go strings: lists of bytes, and the functions of package strings and strconv that kstone uses.
use Prim.Native.Nat.{ℕ}
use Prim.Native.Char.{code}
use Prim.Native.String.{String}
use mathlib.Core.Path.{◌≡◌, refl, ap, sym, ◌∙◌}
use mathlib.Core.Logic.{◌↔◌, ◌≢◌, inl, inr}
use mathlib.Core.Bool.{Bool, true, false, ◌&&◌, ◌||◌}
use mathlib.Core.List.{List, [], ◌∷◌, ◌++◌, reverse}
use mathlib.Core.Option.{Option, none, some}
use native.Mathlib.Omega.{arith}
use kstone.Base.Tests.{◌==◌, if◌then◌else◌, Bool-cases, leb}

abbrev pub Text : Type 0
Text = List ℕ

-- The bytes of an ASCII literal.
abbrev pub text : String → Text
text String.[] = []
text (String.◌∷◌ c s) = code c ∷ text s

unfoldable pub text_eq : Text → Text → Bool
text_eq [] [] = true
text_eq [] (b ∷ t) = false
text_eq (a ∷ s) [] = false
text_eq (a ∷ s) (b ∷ t) = (a == b) && text_eq s t

pub text_eq_refl : (s : Text) → text_eq s s ≡ true
unfolding text_eq
text_eq_refl [] = refl
text_eq_refl (a ∷ s) = ground (arith, text_eq_refl s)

pub text_eq_sound : (s t : Text) → text_eq s t ≡ true → s ≡ t
unfolding text_eq
text_eq_sound [] [] h = refl
text_eq_sound [] (b ∷ t) h = ground arith
text_eq_sound (a ∷ s) [] h = ground arith
text_eq_sound (a ∷ s) (b ∷ t) h = ground (arith, text_eq_sound s t)

pub text_eq_iff : (s t : Text) → (text_eq s t ≡ true) ↔ (s ≡ t)
text_eq_iff s t = (text_eq_sound s t, λ e. ap (text_eq s) (sym e) ∙ text_eq_refl s)

pub text_eq_ne : (s t : Text) → s ≢ t → text_eq s t ≡ false
text_eq_ne s t h = elim (Bool-cases (text_eq s t)) [
  | inl e ↦ absurd (h (text_eq_sound s t e))
  | inr e ↦ e
]

-- strings.HasPrefix
unfoldable pub has_prefix : Text → Text → Bool
has_prefix s [] = true
has_prefix [] (b ∷ p) = false
has_prefix (a ∷ s) (b ∷ p) = (a == b) && has_prefix s p

-- What is left of `s` behind the prefix `p`, if it has it.
unfoldable pub strip_prefix : Text → Text → Option Text
strip_prefix s [] = some s
strip_prefix [] (b ∷ p) = none
strip_prefix (a ∷ s) (b ∷ p) = if a == b then strip_prefix s p else none

-- strings.TrimPrefix
unfoldable pub trim_prefix : Text → Text → Text
unfolding strip_prefix
trim_prefix s p = elim (strip_prefix s p) [ none ↦ s | some r ↦ r ]

-- strings.TrimLeft with a cutset of one byte.
unfoldable pub trim_left : ℕ → Text → Text
trim_left c [] = []
trim_left c (a ∷ s) = if a == c then trim_left c s else a ∷ s

-- strings.TrimRight with the cutset "Gi": a suffix of bytes of the cutset is dropped.
unfoldable pub trim_right2 : ℕ → ℕ → Text → Text
trim_right2 c d [] = []
trim_right2 c d (a ∷ s) = elim (trim_right2 c d s) [
  | [] ↦ if (a == c) || (a == d) then [] else a ∷ []
  | b ∷ t ↦ a ∷ b ∷ t
]

-- strings.Split with a separator of one byte. The result is never empty.
unfoldable pub split : ℕ → Text → List Text
split c [] = [] ∷ []
split c (a ∷ s) = elim (split c s) [
  | [] ↦ (a ∷ []) ∷ []
  | w ∷ ws ↦ if a == c then [] ∷ w ∷ ws else (a ∷ w) ∷ ws
]

-- strings.Split with the separator of two bytes `c`, `d`, scanned from the left.
unfoldable pub split2 : ℕ → ℕ → Text → List Text
split2 c d [] = [] ∷ []
split2 c d (a ∷ []) = (a ∷ []) ∷ []
split2 c d (a ∷ b ∷ s) =
    let skip = split2 c d s in
    let next = split2 c d (b ∷ s) in
    if (a == c) && (b == d)
    then [] ∷ skip
    else elim next [ [] ↦ (a ∷ []) ∷ [] | w ∷ ws ↦ (a ∷ w) ∷ ws ]

unfoldable pub join : Text → List Text → Text
join sep [] = []
join sep (w ∷ []) = w
join sep (w ∷ v ∷ ws) = w ++ (sep ++ join sep (v ∷ ws))

-- fmt.Sprintf with verbs %s only, as the list of its parts.
abbrev pub cat : List Text → Text
cat [] = []
cat (w ∷ ws) = w ++ cat ws

-- strings.TrimSpace on ASCII white space.
abbrev is_space : ℕ → Bool
is_space c = (c == 32) || (leb 9 c && leb c 13)

unfoldable pub skip_spaces : Text → Text
skip_spaces [] = []
skip_spaces (a ∷ s) = if is_space a then skip_spaces s else a ∷ s

unfoldable pub trim_space : Text → Text
unfolding skip_spaces
trim_space s = reverse (skip_spaces (reverse (skip_spaces s)))
