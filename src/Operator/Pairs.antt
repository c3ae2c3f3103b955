-- ===== src/Operator/Pairs.antt =====
-- The text that the loop of AfterCreate builds, as a list of pairs.
use kstone.Base.{
  ℕ, zero, suc, ◌+◌, ◌-◌, ◌<◌, ◌≡◌, refl, sym, ap, ◌∙◌, subst, Bool, true, false, ◌&&◌, none, some,
  List, [], ◌∷◌, ◌++◌, map, all, arith, if◌then◌else◌, ltb, &&-true,
}
use mathlib.Core.List.{append-nil, append_assoc}
use kstone.Base.Text.{Text, text, join, cat, split, text_eq_ne}
use kstone.Base.Split.{is_free, is_free-append, split-append}
use kstone.Base.Decimal.{itoa, itoa-injective, is_digit, itoa-digits, digits-free}
use kstone.Base.Dict.{Dict, lookup, lookup-insert, lookup-insert_self}
use kstone.Members.{populate_extension_client_url_map}
use kstone.Members.Urls.{render, is_plain, entries, populate-join}
use kstone.Operator.{url_key, url_value, arrow, url_loop}

-- The pairs of members `i`, `i + 1`, …
abbrev pub pairs : Text → Text → ℕ → ℕ → List (Text × Text)
pairs name namespace zero i = []
pairs name namespace (suc left) i =
    (url_key name i, url_value name namespace i) ∷ pairs name namespace left (i + 1)

arrow-render :
    (name namespace : Text) (i : ℕ)
    → arrow name namespace i ≡ render (url_key name i, url_value name namespace i)
unfolding arrow
arrow-render name namespace i =
    ap (λ t. url_key name i ++ b'-' ∷ b'>' ∷ t) (append-nil (url_value name namespace i))

url_loop-step :
    (name namespace : Text) (left i size : ℕ) (urls : Text)
    → url_loop name namespace size (suc left) i urls
      ≡ url_loop name namespace size left (i + 1) (
          urls
          ++ (if ltb i (size - 1)
              then arrow name namespace i ++ text ","
              else arrow name namespace i))
unfolding url_loop
url_loop-step name namespace left i size urls = refl

-- The loop puts commas between the pairs.
url_loop-join :
    (name namespace : Text) (left i size : ℕ) (urls : Text)
    → i + suc left ≡ size
    → url_loop name namespace size (suc left) i urls
      ≡ urls ++ join (text ",") (map render (pairs name namespace (suc left) i))
unfolding join url_loop
url_loop-join name namespace zero i size urls h =
    let last : ltb i (size - 1) ≡ false = ground arith in
    rw (last, arrow-render name namespace i) refl
url_loop-join name namespace (suc left) i size urls h =
    let more : ltb i (size - 1) ≡ true = ground arith in
    url_loop-step name namespace (suc left) i size urls
    ∙ (url_loop-join name namespace left (i + 1) size _ (omega arith)
        ∙ rw (more, arrow-render name namespace i, append_assoc, append_assoc) refl)

cat-free : (c : ℕ) (ws : List Text) → all (is_free c) ws ≡ true → is_free c (cat ws) ≡ true
unfolding is_free
cat-free c [] h = refl
cat-free c (w ∷ ws) h =
    let (p, q) = &&-true (is_free c w) (all (is_free c) ws) h in
    is_free-append c w (cat ws) p (cat-free c ws q)

module _ (c : ℕ) (name namespace : Text) (d : is_digit c ≡ false) (n : is_free c name ≡ true)
    (s : is_free c namespace ≡ true) where
  key-free :
      (i : ℕ)
      → all (is_free c) (text "-etcd-" ∷ text ":2379" ∷ []) ≡ true
      → is_free c (url_key name i) ≡ true
  unfolding url_key
  key-free i h =
      let e = digits-free c (itoa i) d (itoa-digits i) in
      let (p, q) = &&-true (is_free c (text "-etcd-")) _ h in
      cat-free c (name ∷ text "-etcd-" ∷ itoa i ∷ text ":2379" ∷ []) (rw (n, p, e, q) refl)

  value-free :
      (i : ℕ)
      → all
          (is_free c)
          (text "-etcd-" ∷ text "." ∷ text "-etcd-headless." ∷ text ".svc.cluster.local:2379" ∷ [])
        ≡ true
      → is_free c (url_value name namespace i) ≡ true
  unfolding url_value
  value-free i h =
      let e = digits-free c (itoa i) d (itoa-digits i) in
      let (p₁, h₁) = &&-true (is_free c (text "-etcd-")) _ h in
      let (p₂, h₂) = &&-true (is_free c (text ".")) _ h₁ in
      let (p₃, h₃) = &&-true (is_free c (text "-etcd-headless.")) _ h₂ in
      cat-free c
        (name
          ∷ text "-etcd-"
          ∷ itoa i
          ∷ text "."
          ∷ name
          ∷ text "-etcd-headless."
          ∷ namespace
          ∷ text ".svc.cluster.local:2379"
          ∷ [])
        (rw (n, p₁, e, p₂, p₃, s, h₃) refl)

-- Neither the separator of pairs nor the end of the arrow.
abbrev pub is_name : Text → Bool
is_name s = is_free b'>' s && is_free b',' s

module _ (name namespace : Text) (n : is_name name ≡ true) (s : is_name namespace ≡ true) where
  pair-is_plain : (i : ℕ) → is_plain (url_key name i, url_value name namespace i) ≡ true
  unfolding is_free
  pair-is_plain i =
      let (n₁, n₂) = &&-true (is_free b'>' name) _ n in
      let (s₁, s₂) = &&-true (is_free b'>' namespace) _ s in
      rw
        (
          key-free b'>' name namespace refl n₁ s₁ i refl,
          value-free b'>' name namespace refl n₁ s₁ i refl,
          key-free b',' name namespace refl n₂ s₂ i refl,
          value-free b',' name namespace refl n₂ s₂ i refl,
        )
        refl

  pairs-plain : (left i : ℕ) → all is_plain (pairs name namespace left i) ≡ true
  pairs-plain zero i = refl
  pairs-plain (suc left) i = rw (pair-is_plain i) (pairs-plain left (i + 1))

  -- The loop's text reads back as the map of its pairs.
  pub loop_read :
      (n : ℕ)
      → 0 < n
      → populate_extension_client_url_map (url_loop name namespace n n 0 [])
        ≡ (some (entries (pairs name namespace n 0) []), none)
  loop_read zero h = absurd (omega arith)
  loop_read (suc k) h =
      ap populate_extension_client_url_map
        (url_loop-join name namespace k 0 (suc k) [] (omega arith))
      ∙ populate-join _ _ (pairs-plain (suc k) 0)

append-cancel : (s t u : Text) → s ++ t ≡ s ++ u → t ≡ u
append-cancel [] t u h = h
append-cancel (a ∷ s) t u h = append-cancel s t u cc

url_key-injective : (name : Text) (i j : ℕ) → url_key name i ≡ url_key name j → i ≡ j
unfolding url_key
url_key-injective name i j h =
    let e =
      append-cancel (text "-etcd-") (itoa i ++ text ":2379") (itoa j ++ text ":2379")
        (append-cancel name _ _ h) in
    let f = λ (k : ℕ).
      split-append b':' (itoa k) (text "2379") (digits-free b':' (itoa k) refl (itoa-digits k)) in
    itoa-injective i j (head_eq (sym (f i) ∙ ap (split b':') e ∙ f j))
  where
    head_eq : {v w : Text} {vs ws : List Text} → (v ∷ vs) ≡ (w ∷ ws) → v ≡ w
    head_eq h = cc

module _ (name namespace : Text) where
  lookup_earlier :
      (left i j : ℕ) (urls : Dict Text)
      → j < i
      → lookup (url_key name j) (entries (pairs name namespace left i) urls)
        ≡ lookup (url_key name j) urls
  lookup_earlier zero i j urls h = refl
  lookup_earlier (suc left) i j urls h =
      let e =
        text_eq_ne (url_key name i) (url_key name j)
          (λ k. let d = url_key-injective name i j k in omega arith) in
      lookup_earlier left (i + 1) j _ (omega arith)
      ∙ rw (lookup-insert (url_key name i) (url_key name j), e) refl

  lookup_pair :
      (left i d : ℕ) (urls : Dict Text)
      → d < left
      → lookup (url_key name (i + d)) (entries (pairs name namespace left i) urls)
        ≡ some (url_value name namespace (i + d))
  lookup_pair zero i d urls h = absurd (omega arith)
  lookup_pair (suc left) i zero urls h =
      let e : i + 0 ≡ i = omega arith in
      rw e
        (lookup_earlier left (i + 1) i _ (omega arith) ∙ lookup-insert_self (url_key name i) _ urls)
  lookup_pair (suc left) i (suc d) urls h =
      let e : i + suc d ≡ (i + 1) + d = omega arith in
      rw e (lookup_pair left (i + 1) d _ (omega arith))

pub lookup_first :
    (name namespace : Text) (n i : ℕ)
    → i < n
    → lookup (url_key name i) (entries (pairs name namespace n 0) [])
      ≡ some (url_value name namespace i)
lookup_first name namespace n i h =
    let z : 0 + i ≡ i = omega arith in
    subst
      (λ j.
        lookup (url_key name j) (entries (pairs name namespace n 0) [])
        ≡ some (url_value name namespace j))
      z (lookup_pair name namespace n 0 i [] h)
