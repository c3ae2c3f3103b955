-- ===== src/Auth/Users.antt =====
-- pkg/authentication/store.go as a transition system: what the operations do to the stored users,
-- over a ConfigMap that stores what it is given or fails.
use kstone.Base.{
  ◌≡◌, ◌≢◌, refl, sym, ap, ◌∙◌, subst, ◌⊎◌, inl, inr, Option, none, some, [], arith, length, ==_iff,
}
use kstone.Base.Text.{Text}
use kstone.Base.Dict.{Dict, lookup, insert, delete}
use kstone.Base.Maps.{IsMap, insert-IsMap, insert-ne-nil, delete-IsMap, delete-ne-nil}
use kstone.Base.Effect.{Go, Error, >>=-eq-some}
use kstone.Interfaces.{Result, ok, err}
use kstone.Auth.{
  ConfigMap, User, Change, refuse, store, crash, apply, change, change_read, added, deleted, remove,
  write, password_changed, user_add, user_delete, user_change_password,
}

-- `users` is the data in the API server. Get reads it, and Update replaces it or fails.
pub record StoreLaws {W : Type 0} (cm : ConfigMap W) (users : W → Option (Dict Text)) : Type 0 where
  pub get :
      (r : Result (Option (Dict Text))) (w w' : W)
      → cm.get w ≡ some (r, w')
      → (users w' ≡ users w) × ((u : Option (Dict Text)) → r ≡ ok u → u ≡ users w)
  pub update :
      (u : Option (Dict Text)) (e : Option Error) (w w' : W)
      → cm.update u w ≡ some (e, w')
      → ((e ≡ none) × (users w' ≡ u)) ⊎ ((e ≢ none) × (users w' ≡ users w))

-- A call of an operation that writes.
pub data Operation : Type 0 where
  add : User → Operation
  remove_user : Text → Operation
  change_password : Text → Text → Operation

abbrev pub run : {W : Type 0} → ConfigMap W → Operation → Go W (Option Error)
run cm (add user) = user_add cm user
run cm (remove_user name) = user_delete cm name
run cm (change_password name hash) = user_change_password cm name hash

pub data Reachable {W : Type 0} (cm : ConfigMap W) : W → W → Type 0 where
  start : {w : W} → Reachable cm w w
  next :
      {w w₁ w₂ : W}
      → Reachable cm w w₁
      → (op : Operation) (e : Option Error) → run cm op w₁ ≡ some (e, w₂)
      → Reachable cm w w₂

-- There is a user, and none twice.
abbrev pub Populated : Option (Dict Text) → Type 0
Populated none = ⊥
Populated (some m) = IsMap m × (m ≢ [])

-- What a change by `f` does to the users: nothing, with an error, or what `f` says.
abbrev pub Effect :
    (Option (Dict Text) → Change) → Option (Dict Text) → Option (Dict Text) → Option Error → Type 0
Effect f before after e =
    ((e ≢ none) × (after ≡ before))
    ⊎ ((m : Dict Text) × (f before ≡ store m) × (e ≡ none) × (after ≡ some m))

module _ {W : Type 0} {cm : ConfigMap W} {users : W → Option (Dict Text)}
    (laws : StoreLaws cm users) where
  apply-Effect :
      (f : Option (Dict Text) → Change) (c : Change) (e : Option Error) (w w' : W)
      → f (users w) ≡ c
      → apply cm c w ≡ some (e, w')
      → Effect f (users w) (users w') e
  unfolding apply
  apply-Effect f (refuse x) e w w' h r =
      let a : w ≡ w' = ground arith in
      let b : e ≡ some x = ground arith in inl (λ n. ground arith, ap users (sym a))
  apply-Effect f (store m) e w w' h r = elim (laws.update (some m) e w w' r) [
    | inl (a, b) ↦ inr (m, h, a, b)
    | inr (a, b) ↦ inl (a, b)
  ]
  apply-Effect f crash e w w' h r = absurd (ground arith)

  pub change-Effect :
      (f : Option (Dict Text) → Change) (e : Option Error) (w w' : W)
      → change cm f w ≡ some (e, w')
      → Effect f (users w) (users w') e
  unfolding change change_read
  change-Effect f e w w' r =
      let (g, w₁, p, q) = >>=-eq-some (change_read cm f) cm.get w r in read g w₁ p q
    where
      read :
          (g : Result (Option (Dict Text))) (w₁ : W)
          → cm.get w ≡ some (g, w₁)
          → change_read cm f g w₁ ≡ some (e, w')
          → Effect f (users w) (users w') e
      read (err x) w₁ p q =
          let a : w₁ ≡ w' = ground arith in
          inl (λ n. ground arith, ap users (sym a) ∙ (laws.get (err x) w w₁ p).0)
      read (ok u) w₁ p q =
          let (same, value) = laws.get (ok u) w w₁ p in
          let h = value u refl in
          subst (λ b. Effect f b (users w') e) same
            (apply-Effect f (f u) e w₁ w' (ap f (same ∙ sym h)) q)

added-Populated :
    (user : User) (m m' : Dict Text)
    → added user (some m) ≡ store m'
    → Populated (some m)
    → Populated (some m')
unfolding added write
added-Populated user m m' h (d, n) =
    let k : m' ≡ insert user.name user.hashed_password m = ground arith in
    rw k (
      insert-IsMap user.name user.hashed_password m d,
      insert-ne-nil user.name user.hashed_password m,
    )

changed-Populated :
    (name hash : Text) (m m' : Dict Text)
    → password_changed name hash (some m) ≡ store m'
    → Populated (some m)
    → Populated (some m')
unfolding password_changed write
changed-Populated name hash m m' h (d, n) =
    let k : m' ≡ insert name hash m = ground arith in
    rw k (insert-IsMap name hash m d, insert-ne-nil name hash m)

deleted-Populated :
    (name : Text) (m m' : Dict Text)
    → deleted name (some m) ≡ store m'
    → Populated (some m)
    → Populated (some m')
unfolding deleted remove
deleted-Populated name m m' h (d, n) =
    let k : m' ≡ delete name m = ground arith in
    let f : lookup name m ≢ none = λ z. ground arith in
    let l : length m ≢ 1 = λ z. ground (arith, ==_iff (length m) 1) in
    rw k (delete-IsMap name m d, delete-ne-nil name m d f l)

Effect-Populated :
    (f : Option (Dict Text) → Change) (before after : Option (Dict Text)) (e : Option Error)
    → ((m m' : Dict Text) → f (some m) ≡ store m' → Populated (some m) → Populated (some m'))
    → Effect f before after e
    → Populated before
    → Populated after
Effect-Populated f before after e h (inl (x, same)) p = subst Populated (sym same) p
Effect-Populated f none after e h (inr (m, a, b, c)) p = absurd p
Effect-Populated f (some n) after e h (inr (m, a, b, c)) p = subst Populated (sym c) (h n m a p)

module _ {W : Type 0} {cm : ConfigMap W} {users : W → Option (Dict Text)}
    (laws : StoreLaws cm users) where
  step-Populated :
      (op : Operation) (e : Option Error) (w w' : W)
      → run cm op w ≡ some (e, w')
      → Populated (users w)
      → Populated (users w')
  unfolding user_add user_delete user_change_password
  step-Populated (add user) e w w' r p =
      Effect-Populated (added user) (users w) (users w') e (added-Populated user)
        (change-Effect laws (added user) e w w' r) p
  step-Populated (remove_user name) e w w' r p =
      Effect-Populated (deleted name) (users w) (users w') e (deleted-Populated name)
        (change-Effect laws (deleted name) e w w' r) p
  step-Populated (change_password name hash) e w w' r p =
      Effect-Populated (password_changed name hash) (users w) (users w') e
        (changed-Populated name hash) (change-Effect laws (password_changed name hash) e w w' r) p

  -- However users are added and deleted and passwords changed, errors of the API server included,
  -- the store never loses its last user, and holds no name twice. The ConfigMap stores what it is
  -- given or fails.
  pub Reachable-Populated :
      (w w' : W) → Reachable cm w w' → Populated (users w) → Populated (users w')
  Reachable-Populated w w' start p = p
  Reachable-Populated w w' (next {w₁ = w₁} s op e r) p =
      step-Populated op e w₁ w' r (Reachable-Populated w w₁ s p)
