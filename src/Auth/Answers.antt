-- ===== src/Auth/Answers.antt =====
-- pkg/authentication/store.go: what each operation that returns has done to the users.
use kstone.Base.{◌≡◌, ◌≢◌, ap, ◌∙◌, ◌⊎◌, inl, inr, Option, none, some, arith, if◌then◌else◌}
use kstone.Base.Text.{Text, text_eq}
use kstone.Base.Dict.{Dict, find, lookup, insert, delete, lookup-insert, lookup-delete}
use kstone.Base.Effect.{Error}
use kstone.Auth.{
  ConfigMap, User, Change, store, added, deleted, remove, write, password_changed, user_add,
  user_delete, user_change_password,
}
use kstone.Auth.Users.{
  StoreLaws, Operation, add, remove_user, change_password, run, Effect, change-Effect,
}

-- What is found under a name after an operation that succeeded.
abbrev pub expected : Operation → Text → Option (Dict Text) → Option Text
expected (add user) k before =
    if text_eq user.name k then some user.hashed_password else find k before
expected (remove_user name) k before = if text_eq name k then none else find k before
expected (change_password name hash) k before = if text_eq name k then some hash else find k before

abbrev Finds : (Option (Dict Text) → Change) → (Text → Option (Dict Text) → Option Text) → Type 0
Finds f expect =
    (before : Option (Dict Text)) (m : Dict Text) (k : Text)
    → f before ≡ store m
    → lookup k m ≡ expect k before

added-Finds : (user : User) → Finds (added user) (expected (add user))
unfolding added write
added-Finds user none m k h = absurd (ground arith)
added-Finds user (some n) m k h =
    let e : m ≡ insert user.name user.hashed_password n = ground arith in
    rw e (lookup-insert user.name k user.hashed_password n)

deleted-Finds : (name : Text) → Finds (deleted name) (expected (remove_user name))
unfolding deleted remove
deleted-Finds name none m k h = absurd (ground arith)
deleted-Finds name (some n) m k h =
    let e : m ≡ delete name n = ground arith in rw e (lookup-delete name k n)

changed-Finds :
    (name hash : Text) → Finds (password_changed name hash) (expected (change_password name hash))
unfolding password_changed write
changed-Finds name hash none m k h = absurd (ground arith)
changed-Finds name hash (some n) m k h =
    let e : m ≡ insert name hash n = ground arith in rw e (lookup-insert name k hash n)

-- An operation without an error has changed one name, and one with an error nothing.
abbrev pub Answered :
    (Text → Option (Dict Text) → Option Text)
    → Option (Dict Text)
    → Option (Dict Text)
    → Option Error
    → Type 0
Answered expect before after e =
    ((e ≡ none) × ((k : Text) → find k after ≡ expect k before)) ⊎ ((e ≢ none) × (after ≡ before))

Effect-Answered :
    (f : Option (Dict Text) → Change) (expect : Text → Option (Dict Text) → Option Text)
    (before after : Option (Dict Text)) (e : Option Error)
    → Finds f expect
    → Effect f before after e
    → Answered expect before after e
Effect-Answered f expect before after e h (inl (x, same)) = inr (x, same)
Effect-Answered f expect before after e h (inr (m, a, b, c)) =
    inl (b, λ k. ap (find k) c ∙ h before m k a)

module _ {W : Type 0} {cm : ConfigMap W} {users : W → Option (Dict Text)}
    (laws : StoreLaws cm users) where
  -- UserAdd, UserDelete and UserChangePassword without an error have set, removed or changed the
  -- user of that name and no other; with an error the users are as before. The ConfigMap stores what
  -- it is given or fails.
  pub run-Answered :
      (op : Operation) (e : Option Error) (w w' : W)
      → run cm op w ≡ some (e, w')
      → Answered (expected op) (users w) (users w') e
  unfolding user_add user_delete user_change_password
  run-Answered (add user) e w w' r =
      Effect-Answered (added user) _ _ _ e (added-Finds user)
        (change-Effect laws (added user) e w w' r)
  run-Answered (remove_user name) e w w' r =
      Effect-Answered (deleted name) _ _ _ e (deleted-Finds name)
        (change-Effect laws (deleted name) e w w' r)
  run-Answered (change_password name hash) e w w' r =
      Effect-Answered (password_changed name hash) _ _ _ e (changed-Finds name hash)
        (change-Effect laws (password_changed name hash) e w w' r)
