-- ===== src/Inspection/Consistency.antt =====
-- pkg/inspection/consistency.go, CollectClusterConsistentData: the difference between the members of
-- a cluster in one of their counters.
use kstone.Base.{
  ℕ, ◌+◌, ◌-◌, ◌≡◌, refl, sym, ap, ◌∙◌, subst, Bool, true, false, ◌&&◌, ◌||◌, Option, none, some,
  List, [], ◌∷◌, all, any, arith, if◌then◌else◌, leb, ◌==◌, ==_refl, &&-true,
}

-- sort.Slice with `<`.
unfoldable pub insert_value : ℕ → List ℕ → List ℕ
insert_value x [] = x ∷ []
insert_value x (y ∷ ys) = let rest = insert_value x ys in if leb x y then x ∷ y ∷ ys else y ∷ rest

unfoldable pub sort_values : List ℕ → List ℕ
unfolding insert_value
sort_values [] = []
sort_values (x ∷ xs) = insert_value x (sort_values xs)

abbrev pub last_value : ℕ → List ℕ → ℕ
last_value x [] = x
last_value x (y ∷ ys) = last_value y ys

-- values[len(values)-1] - values[0] panics on an empty slice.
unfoldable pub spread_sorted : List ℕ → Option ℕ
spread_sorted [] = none
spread_sorted (x ∷ xs) = some (last_value x xs - x)

unfoldable pub spread : List ℕ → Option ℕ
unfolding sort_values spread_sorted
spread values = spread_sorted (sort_values values)

abbrev pub between : ℕ → ℕ → ℕ → Bool
between lo hi x = leb lo x && leb x hi

ascending : ℕ → List ℕ → Bool
ascending x [] = true
ascending x (y ∷ ys) = leb x y && ascending y ys

is_ascending : List ℕ → Bool
unfolding ascending
is_ascending [] = true
is_ascending (x ∷ xs) = ascending x xs

all-lower :
    (x y hi : ℕ) (ys : List ℕ)
    → leb x y ≡ true
    → all (between y hi) ys ≡ true
    → all (between x hi) ys ≡ true
all-lower x y hi [] h a = refl
all-lower x y hi (z ∷ zs) h a = ground (arith, all-lower x y hi zs)

ascending-last : (x : ℕ) (xs : List ℕ) → ascending x xs ≡ true → leb x (last_value x xs) ≡ true
unfolding ascending
ascending-last x [] h = ground arith
ascending-last x (y ∷ ys) h = ground (arith, ascending-last y ys)

ascending-between :
    (x : ℕ) (xs : List ℕ)
    → ascending x xs ≡ true
    → all (between x (last_value x xs)) (x ∷ xs) ≡ true
unfolding ascending
ascending-between x [] h = ground arith
ascending-between x (y ∷ ys) h =
    let (p, q) = &&-true (leb x y) (ascending y ys) h in
    let l = ascending-last y ys q in
    let a = all-lower x y (last_value y ys) (y ∷ ys) p (ascending-between y ys q) in
    ground (arith, a, l)

insert-is_ascending :
    (x : ℕ) (ys : List ℕ) → is_ascending ys ≡ true → is_ascending (insert_value x ys) ≡ true
unfolding insert_value is_ascending
insert-is_ascending x [] h = refl
insert-is_ascending x (y ∷ []) h = ground arith
insert-is_ascending x (y ∷ z ∷ zs) h = ground (arith, insert-is_ascending x (z ∷ zs))

sort-is_ascending : (xs : List ℕ) → is_ascending (sort_values xs) ≡ true
unfolding sort_values is_ascending
sort-is_ascending [] = refl
sort-is_ascending (x ∷ xs) = insert-is_ascending x (sort_values xs) (sort-is_ascending xs)

all-insert_value :
    (p : ℕ → Bool) (x : ℕ) (ys : List ℕ) → all p (insert_value x ys) ≡ (p x && all p ys)
unfolding insert_value
all-insert_value p x [] = refl
all-insert_value p x (y ∷ ys) = ground (arith, all-insert_value p x ys)

all-sort_values : (p : ℕ → Bool) (xs : List ℕ) → all p (sort_values xs) ≡ all p xs
unfolding sort_values
all-sort_values p [] = refl
all-sort_values p (x ∷ xs) =
    all-insert_value p x (sort_values xs) ∙ ap (λ b. p x && b) (all-sort_values p xs)

any-insert_value :
    (p : ℕ → Bool) (x : ℕ) (ys : List ℕ) → any p (insert_value x ys) ≡ (p x || any p ys)
unfolding insert_value
any-insert_value p x [] = refl
any-insert_value p x (y ∷ ys) = ground (arith, any-insert_value p x ys)

any-sort_values : (p : ℕ → Bool) (xs : List ℕ) → any p (sort_values xs) ≡ any p xs
unfolding sort_values
any-sort_values p [] = refl
any-sort_values p (x ∷ xs) =
    any-insert_value p x (sort_values xs) ∙ ap (λ b. p x || b) (any-sort_values p xs)

last_value-any : (x : ℕ) (xs : List ℕ) → any (λ z. z == last_value x xs) (x ∷ xs) ≡ true
last_value-any x [] = ground arith
last_value-any x (y ∷ ys) = ground (arith, last_value-any y ys)

insert-cons : (x : ℕ) (ys : List ℕ) → (z : ℕ) × (zs : List ℕ) × (insert_value x ys ≡ z ∷ zs)
unfolding insert_value
insert-cons x [] = (x, [], refl)
insert-cons x (y ∷ ys) = split (leb x y)
  where
    split :
        (b : Bool)
        → (z : ℕ) × (zs : List ℕ) × ((if b then x ∷ y ∷ ys else y ∷ insert_value x ys) ≡ z ∷ zs)
    split true = (x, y ∷ ys, refl)
    split false = (y, insert_value x ys, refl)

-- The difference of a counter that at least one member has is that of two of the values, and no two
-- values differ by more: all lie between the smaller and the larger of these two.
pub spread-bounds :
    (v : ℕ) (vs : List ℕ)
    → (d lo : ℕ) × (spread (v ∷ vs) ≡ some d)
      × (all (between lo (lo + d)) (v ∷ vs) ≡ true)
      × (any (λ z. z == lo) (v ∷ vs) ≡ true)
      × (any (λ z. z == (lo + d)) (v ∷ vs) ≡ true)
unfolding spread sort_values spread_sorted is_ascending
spread-bounds v vs =
    let (z, zs, e) = insert-cons v (sort_values vs) in
    let hi = last_value z zs in
    let up : ascending z zs ≡ true =
      subst (λ l. is_ascending l ≡ true) e (sort-is_ascending (v ∷ vs)) in
    let sum : hi ≡ z + (hi - z) = ground (arith, ascending-last z zs up) in
    let within = λ (p : ℕ → Bool). sym (all-sort_values p (v ∷ vs)) ∙ ap (all p) e in
    let among = λ (p : ℕ → Bool). sym (any-sort_values p (v ∷ vs)) ∙ ap (any p) e in
    let first : any (λ y. y == z) (z ∷ zs) ≡ true = ground (arith, ==_refl z) in
    let bounds : all (between z (z + (hi - z))) (z ∷ zs) ≡ true =
      subst (λ h. all (between z h) (z ∷ zs) ≡ true) sum (ascending-between z zs up) in
    let last : any (λ y. y == (z + (hi - z))) (z ∷ zs) ≡ true =
      subst (λ h. any (λ y. y == h) (z ∷ zs) ≡ true) sum (last_value-any z zs) in
    (
      hi - z,
      z,
      ap spread_sorted e,
      within (between z (z + (hi - z))) ∙ bounds,
      among (λ y. y == z) ∙ first,
      among (λ y. y == (z + (hi - z))) ∙ last,
    )
