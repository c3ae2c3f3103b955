-- ===== src/Auth.antt =====
-- pkg/authentication/store.go: the users of the API, as the data of one ConfigMap, a user name to
-- the hash of the password. The ConfigMaps of the API server are a parameter.
pub mod Token
pub mod Request
pub mod Users
pub mod Answers
pub mod Access
pub mod Login
use kstone.Base.{
  ℕ, Bool, true, false, Option, none, some, List, [], ◌∷◌, ◌++◌, map, if◌then◌else◌, ◌==◌, length,
}
use kstone.Base.Text.{Text, text}
use kstone.Base.Dict.{Dict, find, insert, delete}
use kstone.Base.Effect.{Go, Error, new_error, pure, panic, ◌>>=◌}
use kstone.Interfaces.{Result, ok, err}

-- User, without ExtraInfo, which nothing reads.
pub record User : Type 0 where
  pub name : Text
  pub hashed_password : Text

-- `Get` and `Update` on the ConfigMap of the users: its field Data, a map that may be nil.
pub record ConfigMap (W : Type 0) : Type 0 where
  pub get : Go W (Result (Option (Dict Text)))
  pub update : Option (Dict Text) → Go W (Option Error)

-- fmt.Errorf("failed to … user %s, …", name)
unfoldable pub user_error : Text → Text → Text → Error
user_error before name after = new_error (before ++ (name ++ after))

unfoldable pub found_user : Text → Option (Dict Text) → Result User
unfolding user_error
found_user username users = elim (find username users) [
  | none ↦ err (user_error (text "failed to get user ") username (text ", user not exists"))
  | some hash ↦ ok (record { name = username; hashed_password = hash })
]

-- What an operation makes of the data it read: an error, a map to store, or a panic, which is the
-- write to a nil map.
pub data Change : Type 0 where
  refuse : Error → Change
  store : Dict Text → Change
  crash : Change

unfoldable pub write : Text → Text → Option (Dict Text) → Change
write k v none = crash
write k v (some users) = store (insert k v users)

unfoldable pub added : User → Option (Dict Text) → Change
unfolding user_error write
added user users = elim (find user.name users) [
  | some hash ↦
      refuse (user_error (text "failed to add user ") user.name (text ", user already exists"))
  | none ↦ write user.name user.hashed_password users
]

-- A nil map has no user to delete.
unfoldable pub remove : Text → Option (Dict Text) → Change
unfolding user_error
remove username none = crash
remove username (some users) =
    if length users == 1
    then refuse
        (user_error (text "failed to delete user ") username (text ", only one user remains"))
    else store (delete username users)

unfoldable pub deleted : Text → Option (Dict Text) → Change
unfolding user_error remove
deleted username users = elim (find username users) [
  | none ↦ refuse (user_error (text "failed to delete user ") username (text ", user not exists"))
  | some hash ↦ remove username users
]

unfoldable pub password_changed : Text → Text → Option (Dict Text) → Change
unfolding user_error write
password_changed username password users = elim (find username users) [
  | none ↦
      refuse (
        user_error (text "failed to change password for user ") username (text ", user not exists"))
  | some hash ↦ write username password users
]

abbrev pub users_of : Dict Text → List User
users_of users = map (λ (name, hash). record { name = name; hashed_password = hash }) users

unfoldable pub listed : Option (Dict Text) → List User
listed none = []
listed (some users) = users_of users

unfoldable pub got_user : Text → Result (Option (Dict Text)) → Result User
unfolding found_user
got_user username (err e) = err e
got_user username (ok users) = found_user username users

unfoldable pub got_list : Result (Option (Dict Text)) → Result (List User)
unfolding listed
got_list (err e) = err e
got_list (ok users) = ok (listed users)

module _ {W : Type 0} (cm : ConfigMap W) where
  unfoldable pub apply : Change → Go W (Option Error)
  apply (refuse e) = pure (some e)
  apply (store users) = cm.update (some users)
  apply crash = panic

  unfoldable pub change_read :
      (Option (Dict Text) → Change) → Result (Option (Dict Text)) → Go W (Option Error)
  unfolding apply
  change_read f (err e) = pure (some e)
  change_read f (ok users) = apply (f users)

  unfoldable pub change : (Option (Dict Text) → Change) → Go W (Option Error)
  unfolding change_read
  change f = do r ← cm.get; change_read f r

  unfoldable pub user_add : User → Go W (Option Error)
  unfolding change added
  user_add user = change (added user)

  unfoldable pub user_delete : Text → Go W (Option Error)
  unfolding change deleted
  user_delete username = change (deleted username)

  unfoldable pub user_change_password : Text → Text → Go W (Option Error)
  unfolding change password_changed
  user_change_password username password = change (password_changed username password)

  unfoldable pub user_get : Text → Go W (Result User)
  unfolding got_user
  user_get username = do r ← cm.get; pure (got_user username r)

  unfoldable pub user_list : Go W (Result (List User))
  unfolding got_list
  user_list = do r ← cm.get; pure (got_list r)
