-- ===== src/BackupCheck/Counts.antt =====
-- What pkg/inspection/backupcheck.go and the storages under pkg/backup/providers count.
use mathlib.Core.List.{reverse, reverse-cons, map-append}
use kstone.Base.{
  ℕ, zero, suc, ◌+◌, ◌≤◌, ◌≡◌, refl, ap, sym, ◌∙◌, subst, Bool, true, false, some, List, [], ◌∷◌,
  ◌++◌, map, arith, if◌then◌else◌,
}
use kstone.Interfaces.{Result, ok}
use kstone.BackupCheck.{later, is_old, counted_one, count_parsed, stat_cos, count_recent, stat_s3}

abbrev All : (ℕ → Type 0) → List ℕ → Type 0
All P [] = Unit
All P (x ∷ xs) = P x × All P xs

-- The times ascend.
abbrev pub Ascends : List ℕ → Type 0
Ascends [] = Unit
Ascends (x ∷ xs) = All (λ y. x ≤ y) xs × Ascends xs

abbrev Descends : List ℕ → Type 0
Descends [] = Unit
Descends (x ∷ xs) = All (λ y. y ≤ x) xs × Descends xs

-- How many objects, from the newest on, are of the day before the reading of the clock for them.
abbrev pub recent : (ℕ → ℕ) → List ℕ → ℕ
recent clock [] = 0
recent clock (t ∷ objects) = (if is_old (clock 0) t then 0 else 1) + recent (later clock) objects

is_old-older :
    (now after s t : ℕ) → now ≤ after → s ≤ t → is_old now t ≡ true → is_old after s ≡ true
is_old-older now after s t n h o = ground arith

from_first : (clock : ℕ → ℕ) → ((n : ℕ) → clock n ≤ clock (suc n)) → (n : ℕ) → clock 0 ≤ clock n
from_first clock m zero = omega arith
from_first clock m (suc n) = let k = from_first clock m n in let l = m n in omega arith

recent-zero :
    (clock : ℕ → ℕ) (now t : ℕ) (xs : List ℕ)
    → ((n : ℕ) → now ≤ clock n)
    → is_old now t ≡ true
    → All (λ y. y ≤ t) xs
    → recent clock xs ≡ 0
recent-zero clock now t [] n o a = refl
recent-zero clock now t (x ∷ xs) n o (h, a) =
    rw (is_old-older now (clock 0) x t (n 0) h o)
      (ground (arith, recent-zero (later clock) now t xs (λ i. n (suc i)) o a))

count_recent-recent :
    (clock : ℕ → ℕ) (xs : List ℕ)
    → ((n : ℕ) → clock n ≤ clock (suc n))
    → Descends xs
    → count_recent clock xs ≡ recent clock xs
unfolding count_recent
count_recent-recent clock [] m d = refl
count_recent-recent clock (x ∷ xs) m (a, d) =
    of (count_recent-recent (later clock) xs (λ n. m (suc n)) d) (is_old (clock 0) x) refl
  where
    of :
        count_recent (later clock) xs ≡ recent (later clock) xs
        → (b : Bool) → is_old (clock 0) x ≡ b
        → (if b then 0 else suc (count_recent (later clock) xs))
          ≡ (if b then 0 else 1) + recent (later clock) xs
    of ih true o =
        let z = recent-zero (later clock) (clock 0) x xs (λ n. from_first clock m (suc n)) o a in
        ground (arith, z)
    of ih false o = ground (arith, ih)

All-snoc : (P : ℕ → Type 0) (xs : List ℕ) (x : ℕ) → All P xs → P x → All P (xs ++ x ∷ [])
All-snoc P [] x a p = (p, tt)
All-snoc P (y ∷ ys) x (q, a) p = (q, All-snoc P ys x a p)

Descends-snoc : (xs : List ℕ) (x : ℕ) → Descends xs → All (λ y. x ≤ y) xs → Descends (xs ++ x ∷ [])
Descends-snoc [] x d a = (tt, tt)
Descends-snoc (y ∷ ys) x (b, d) (h, a) = (All-snoc (λ z. z ≤ y) ys x b h, Descends-snoc ys x d a)

All-reverse : (P : ℕ → Type 0) (xs : List ℕ) → All P xs → All P (reverse xs)
All-reverse P [] a = tt
All-reverse P (x ∷ xs) (p, a) =
    subst (All P) (sym (reverse-cons x xs)) (All-snoc P (reverse xs) x (All-reverse P xs a) p)

Descends-reverse : (xs : List ℕ) → Ascends xs → Descends (reverse xs)
Descends-reverse [] h = tt
Descends-reverse (x ∷ xs) (a, h) =
    subst Descends (sym (reverse-cons x xs))
      (Descends-snoc (reverse xs) x (Descends-reverse xs h) (All-reverse (λ y. x ≤ y) xs a))

count_parsed-some :
    (clock : ℕ → ℕ) (xs : List ℕ) → count_parsed clock (map some xs) ≡ ok (count_recent clock xs)
unfolding count_parsed counted_one count_recent
count_parsed-some clock [] = refl
count_parsed-some clock (x ∷ xs) = rw (count_parsed-some (later clock) xs) (of (is_old (clock 0) x))
  where
    of :
        (b : Bool)
        → (if b then ok 0 else ok (suc (count_recent (later clock) xs)))
          ≡ ok (if b then 0 else suc (count_recent (later clock) xs))
    of true = refl
    of false = refl

map-reverse : (xs : List ℕ) → reverse (map some xs) ≡ map some (reverse xs)
map-reverse [] = refl
map-reverse (x ∷ xs) =
    reverse-cons (some x) (map some xs)
    ∙ ap (λ l. l ++ some x ∷ []) (map-reverse xs)
    ∙ sym (map-append some (reverse xs) (x ∷ []))
    ∙ ap (map some) (sym (reverse-cons x xs))

-- When a storage lists its objects from the oldest to the newest, the Stat of both storages is the
-- number of the objects of the last day, for COS if each time can be parsed; the loop that stops at
-- the first old object misses none. The clock does not go back, and each object, from the newest on,
-- is measured against the reading of the clock that is for it.
pub stat-recent :
    (clock : ℕ → ℕ) (objects : List ℕ)
    → ((n : ℕ) → clock n ≤ clock (suc n))
    → Ascends objects
    → (stat_s3 clock (some objects) ≡ ok (recent clock (reverse objects)))
      × (stat_cos clock (some (map some objects)) ≡ ok (recent clock (reverse objects)))
unfolding stat_s3 stat_cos
stat-recent clock objects m h =
    let e = count_recent-recent clock (reverse objects) m (Descends-reverse objects h) in
    (
      ap Result.ok e,
      rw (map-reverse objects) (count_parsed-some clock (reverse objects) ∙ ap Result.ok e),
    )
