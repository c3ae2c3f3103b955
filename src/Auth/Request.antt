-- ===== src/Auth/Request.antt =====
-- pkg/authentication/request/request.go: the login and the requests on users. Reading the body, its
-- JSON and bcrypt are parameters.
use kstone.Base.{Bool, true, false, ◌&&◌, Option, none, some, List, [], map, if◌then◌else◌, get_or}
use kstone.Base.Text.{Text, text, text_eq, join}
use kstone.Base.Dict.{Dict, lookup}
use kstone.Base.Effect.{Go, Error, new_error, pure, ◌>>=◌}
use kstone.Interfaces.{Result, ok, err}
use kstone.Auth.{ConfigMap, User, user_get, user_add, user_delete, user_list, user_change_password}
use kstone.Auth.Token.{
  Response, Jwt, data_success, data_unauthorized, success_response, success_token_response,
  success_reset_password_response, unauthenticated_response, internal_server_error_response,
}

-- json.Unmarshal into a map of strings, and bcrypt: the hash of a password, which is salted, and
-- the comparison of a hash with a password.
pub record Crypto (W : Type 0) : Type 0 where
  pub unmarshal : Text → Result (Dict Text)
  pub generate_password_hash : Text → Go W (Result Text)
  pub check_password : Text → Text → Option Error

pub record Credentials : Type 0 where
  pub username : Text
  pub password : Text

abbrev value : Text → Dict Text → Text
value k m = get_or (lookup k m) []

unfoldable pub named : Dict Text → Result Credentials
named m =
    if text_eq (value (text "username") m) []
    then err (new_error (text "username is empty"))
    else ok (record { username = value (text "username") m; password = value (text "password") m })

unfoldable pub named_in : Result (Dict Text) → Result Credentials
unfolding named
named_in (err e) = err e
named_in (ok m) = named m

-- The user names of error responses, which are empty when the body names no user.
unfoldable pub is_default_user : Text → Text → Bool
is_default_user username password =
    text_eq username (text "admin") && text_eq password (text "adm1n@kstone.io")

unfoldable pub login_response : Credentials → Text → Response
unfolding is_default_user success_reset_password_response success_token_response
login_response c token =
    if is_default_user c.username c.password
    then success_reset_password_response c.username token
    else success_token_response c.username token

unfoldable pub done : Text → Option Error → Response × Option Error
unfolding success_response internal_server_error_response
done username none = (success_response username data_success, none)
done username (some e) = (internal_server_error_response username e.message, some e)

module _ {W : Type 0} (cm : ConfigMap W) (jwt : Jwt W) (crypto : Crypto W) where
  unfoldable pub get_user : Result Text → Result Credentials
  unfolding named_in
  get_user (err e) = err e
  get_user (ok body) = named_in (crypto.unmarshal body)

  unfoldable pub token_response :
      Credentials → Result Text → Go W (Option Response × Bool × Option Error)
  unfolding login_response
  token_response c (err e) = pure (none, false, some e)
  token_response c (ok token) = pure (some (login_response c token), true, none)

  unfoldable pub log_in_checked :
      Credentials → User → Option Error → Go W (Option Response × Bool × Option Error)
  unfolding token_response unauthenticated_response
  log_in_checked c user (some e) =
      pure (some unauthenticated_response, false, some (new_error data_unauthorized))
  log_in_checked c user none = do
    r ← jwt.generate_token c.username user.hashed_password
    token_response c r

  unfoldable pub log_in_user :
      Credentials → Result User → Go W (Option Response × Bool × Option Error)
  unfolding log_in_checked unauthenticated_response
  log_in_user c (err e) = pure (some unauthenticated_response, false, some e)
  log_in_user c (ok user) =
      log_in_checked c user (crypto.check_password user.hashed_password c.password)

  unfoldable pub log_in : Result Credentials → Go W (Option Response × Bool × Option Error)
  unfolding log_in_user unauthenticated_response user_get
  log_in (err e) = pure (some unauthenticated_response, false, some e)
  log_in (ok c) = do r ← user_get cm c.username; log_in_user c r

  unfoldable pub login_request : Result Text → Go W (Option Response × Bool × Option Error)
  unfolding log_in get_user
  login_request body = log_in (get_user body)

  unfoldable pub list_response : Result (List User) → Response × Option Error
  unfolding success_response unauthenticated_response
  list_response (err e) = (unauthenticated_response, some e)
  list_response (ok users) = (success_response [] (join (text ",") (map (λ u. u.name) users)), none)

  unfoldable pub user_list_request : Go W (Response × Option Error)
  unfolding list_response user_list
  user_list_request = do r ← user_list cm; pure (list_response r)

  -- With the hash of the password, an operation on the store.
  unfoldable pub with_hash :
      Text → (Text → Go W (Option Error)) → Result Text → Go W (Response × Option Error)
  unfolding done
  with_hash username operation (err e) = pure (done username (some e))
  with_hash username operation (ok hash) = do e ← operation hash; pure (done username e)

  unfoldable pub update_user : Result Credentials → Go W (Response × Option Error)
  unfolding with_hash user_change_password
  update_user (err e) = pure (done [] (some e))
  update_user (ok c) = do
    hash ← crypto.generate_password_hash c.password
    with_hash c.username (user_change_password cm c.username) hash

  unfoldable pub user_update_request : Result Text → Go W (Response × Option Error)
  unfolding update_user get_user
  user_update_request body = update_user (get_user body)

  unfoldable pub add_user : Result Credentials → Go W (Response × Option Error)
  unfolding with_hash user_add
  add_user (err e) = pure (done [] (some e))
  add_user (ok c) = do
    hash ← crypto.generate_password_hash c.password
    with_hash c.username (λ h. user_add cm (record { name = c.username; hashed_password = h })) hash

  unfoldable pub user_add_request : Result Text → Go W (Response × Option Error)
  unfolding add_user get_user
  user_add_request body = add_user (get_user body)

  unfoldable pub delete_user : Result Credentials → Go W (Response × Option Error)
  unfolding done user_delete
  delete_user (err e) = pure (done [] (some e))
  delete_user (ok c) = do e ← user_delete cm c.username; pure (done c.username e)

  unfoldable pub user_delete_request : Result Text → Go W (Response × Option Error)
  unfolding delete_user get_user
  user_delete_request body = delete_user (get_user body)
