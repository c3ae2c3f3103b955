-- ===== src/Inspection/Order.antt =====
-- The order in which the goroutines of pkg/inspection/consistency.go end does not matter.
use mathlib.Core.List.{Perm, Permᴰ}
use mathlib.Core.Logic.{∥∥₁_elim}
use kstone.Base.{ℕ, ◌≡◌, refl, ap, sym, ◌∙◌, Option, none, some, List, [], ◌∷◌, ◌++◌, arith}
use kstone.Base.Text.{Text}
use kstone.Base.Effect.{◌>>=◌}
use kstone.EtcdClient.{EtcdLibrary}
use kstone.EtcdStats.{ConsistencyType, Metadata, StatCalls}
use kstone.Inspection.Collect.{Server}
use kstone.Inspection.Consistency.{insert_value, sort_values, spread_sorted, spread}
use kstone.Inspection.Difference.{
  member_values, endpoint_values, report_difference, report_differences,
}

insert_value_comm :
    (x y : ℕ) (l : List ℕ) → insert_value x (insert_value y l) ≡ insert_value y (insert_value x l)
unfolding insert_value
insert_value_comm x y [] = ground arith
insert_value_comm x y (z ∷ l) = ground (arith, insert_value_comm x y l)

-- A block of values may be sorted in before or after another.
abbrev insert_all : List ℕ → List ℕ → List ℕ
insert_all [] l = l
insert_all (x ∷ xs) l = insert_value x (insert_all xs l)

sort_values-append : (xs ys : List ℕ) → sort_values (xs ++ ys) ≡ insert_all xs (sort_values ys)
unfolding sort_values
sort_values-append [] ys = refl
sort_values-append (x ∷ xs) ys = ap (insert_value x) (sort_values-append xs ys)

insert_all-value :
    (xs l : List ℕ) (x : ℕ) → insert_all xs (insert_value x l) ≡ insert_value x (insert_all xs l)
insert_all-value [] l x = refl
insert_all-value (y ∷ ys) l x =
    ap (insert_value y) (insert_all-value ys l x) ∙ insert_value_comm y x (insert_all ys l)

insert_all_comm :
    (xs ys l : List ℕ) → insert_all xs (insert_all ys l) ≡ insert_all ys (insert_all xs l)
insert_all_comm [] ys l = refl
insert_all_comm (x ∷ xs) ys l =
    ap (insert_value x) (insert_all_comm xs ys l) ∙ sym (insert_all-value ys (insert_all xs l) x)

sort_two :
    (xs ys zs : List ℕ)
    → sort_values (xs ++ (ys ++ zs)) ≡ insert_all xs (insert_all ys (sort_values zs))
sort_two xs ys zs = sort_values-append xs (ys ++ zs) ∙ ap (insert_all xs) (sort_values-append ys zs)

swapped : (xs ys zs : List ℕ) → sort_values (xs ++ (ys ++ zs)) ≡ sort_values (ys ++ (xs ++ zs))
swapped xs ys zs =
    sort_two xs ys zs ∙ insert_all_comm xs ys (sort_values zs) ∙ sym (sort_two ys xs zs)

sort-endpoint_values :
    (t : ConsistencyType) {ms ns : List Metadata}
    → Permᴰ ms ns
    → sort_values (endpoint_values t ms) ≡ sort_values (endpoint_values t ns)
unfolding endpoint_values
sort-endpoint_values t Permᴰ.nil = refl
sort-endpoint_values t (Permᴰ.cons {a} {b} {l₁} {l₂} e p) =
    sort_values-append (member_values t a) (endpoint_values t l₁)
    ∙ ap (insert_all (member_values t a)) (sort-endpoint_values t p)
    ∙ ap (λ m. insert_all (member_values t m) (sort_values (endpoint_values t l₂))) e
    ∙ sym (sort_values-append (member_values t b) (endpoint_values t l₂))
sort-endpoint_values t (Permᴰ.swap {a} {b} {a'} {b'} {l} e f) =
    swapped (member_values t a) (member_values t b) (endpoint_values t l)
    ∙ ap (λ m. sort_values (member_values t m ++ (member_values t a ++ endpoint_values t l))) f
    ∙ ap (λ m. sort_values (member_values t a' ++ (member_values t m ++ endpoint_values t l))) e
sort-endpoint_values t (Permᴰ.trans p q) = sort-endpoint_values t p ∙ sort-endpoint_values t q

-- The difference of each type is the same in whatever order the members answer.
pub spread-Perm :
    (t : ConsistencyType) {ms ns : List Metadata}
    → Perm ms ns
    → spread (endpoint_values t ms) ≡ spread (endpoint_values t ns)
unfolding spread
spread-Perm t {ms} {ns} p = ∥∥₁_elim p (hlevel) (λ d. ap spread_sorted (sort-endpoint_values t d))

module _ {W X K Client2 Client : Type 0} (lib : EtcdLibrary W K Client2 Client)
    (calls : StatCalls W Client2 Client) (server : Server W X Client) (cluster : Text) where
  -- CollectClusterConsistentData does the same to the metrics in whatever order the goroutines of
  -- the members end: the metadata of the members may be permuted.
  pub report_differences-Perm :
      (ts : List ConsistencyType) {ms ns : List Metadata}
      → Perm ms ns
      → (w : W)
      → report_differences lib calls server cluster ms ts w
        ≡ report_differences lib calls server cluster ns ts w
  unfolding report_differences
  report_differences-Perm [] p w = refl
  report_differences-Perm (t ∷ ts) {ms} {ns} p w =
      ap
        (λ o.
          (report_difference lib calls server cluster t o >>= λ u.
          report_differences lib calls server cluster ms ts)
            w)
        (spread-Perm t p)
      ∙ after (report_difference lib calls server cluster t (spread (endpoint_values t ns)) w)
          (report_differences-Perm ts p)
    where
      after :
          (o : Option (Unit {0} × W))
          → ((v : W)
              → report_differences lib calls server cluster ms ts v
                ≡ report_differences lib calls server cluster ns ts v)
          → elim o [
            | none ↦ none
            | some (u, v) ↦ report_differences lib calls server cluster ms ts v
          ]
            ≡ elim o [
              | none ↦ none
              | some (u, v) ↦ report_differences lib calls server cluster ns ts v
            ]
      after none h = refl
      after (some (u, v)) h = h v
