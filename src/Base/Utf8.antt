-- ===== src/Base/Utf8.antt =====
-- utf8.ValidString of Go, over the bytes of a string.
use kstone.Base.Tests.{if◌then◌else◌, leb}
use kstone.Base.Text.{Text}
use Prim.Native.Nat.{ℕ, zero, suc}
use mathlib.Core.Bool.{Bool, true, false, ◌&&◌}
use mathlib.Core.List.{[], ◌∷◌}
use mathlib.Core.Option.{Option, none, some}

abbrev within : ℕ → ℕ → ℕ → Bool
within lo hi b = leb lo b && leb b hi

-- What a first byte wants: so many further bytes, the first of them between two bounds.
abbrev lead : ℕ → Option (ℕ × ℕ × ℕ)
lead b =
    if leb b 127
    then some (0, 128, 191)
    else if within 194 223 b
    then some (1, 128, 191)
    else if within 224 224 b
    then some (2, 160, 191)
    else if within 237 237 b
    then some (2, 128, 159)
    else if within 225 239 b
    then some (2, 128, 191)
    else if within 240 240 b
    then some (3, 144, 191)
    else if within 241 243 b
    then some (3, 128, 191)
    else if within 244 244 b
    then some (3, 128, 143)
    else none

-- So many further bytes are wanted, the first of them between the bounds, and then a string.
unfoldable pub is_utf8_from : ℕ → ℕ → ℕ → Text → Bool
is_utf8_from zero lo hi [] = true
is_utf8_from (suc n) lo hi [] = false
is_utf8_from zero lo hi (b ∷ s) = elim (lead b) [
  | none ↦ false
  | some (n, l, h) ↦ is_utf8_from n l h s
]
is_utf8_from (suc n) lo hi (b ∷ s) = within lo hi b && is_utf8_from n 128 191 s

unfoldable pub is_utf8 : Text → Bool
unfolding is_utf8_from
is_utf8 s = is_utf8_from 0 128 191 s
