-- ===== src/Auth/Token.antt =====
-- pkg/authentication/token/jwt: the tokens that name a user and the hash of the password, and the
-- answers of pkg/authentication/helper.go. Signing and parsing a JWT are parameters.
use kstone.Base.{Bool, true, false, not, ◌||◌, Option, none, some, [], ◌++◌, if◌then◌else◌}
use kstone.Base.Text.{Text, text, text_eq}
use kstone.Base.Effect.{Go, Error, new_error, pure, panic, ◌>>=◌}
use kstone.Interfaces.{Result, ok, err}
use kstone.Unstructured.{Value, null, str}
use kstone.Auth.{ConfigMap, User, user_get}

pub record Response : Type 0 where
  pub username : Text
  pub reset_password : Bool
  pub token : Text
  pub message : Text

abbrev pub data_success : Text
data_success = text "success"

abbrev pub data_unauthorized : Text
data_unauthorized = text "failed to authenticate user"

unfoldable pub success_response : Text → Text → Response
success_response username message = record {
  username = username;
  reset_password = false;
  token = [];
  message = message;
}

unfoldable pub success_token_response : Text → Text → Response
success_token_response username token = record {
  username = username;
  reset_password = false;
  token = token;
  message = [];
}

unfoldable pub success_reset_password_response : Text → Text → Response
success_reset_password_response username token = record {
  username = username;
  reset_password = true;
  token = token;
  message = [];
}

unfoldable pub unauthenticated_response : Response
unauthenticated_response = record {
  username = text "unknown";
  reset_password = false;
  token = [];
  message = data_unauthorized;
}

unfoldable pub internal_server_error_response : Text → Text → Response
internal_server_error_response username message = record {
  username = username;
  reset_password = false;
  token = [];
  message = message;
}

-- What jwt.Parse answers: whether the token is valid, and two of its claims.
pub record Claims : Type 0 where
  pub valid : Bool
  pub username : Option Value
  pub password : Option Value

-- GenerateToken, and jwt.Parse with the public key and the test of the signing method.
pub record Jwt (W : Type 0) : Type 0 where
  pub generate_token : Text → Text → Go W (Result Text)
  pub parse : Text → Go W (Result Claims)

pub record AuthInfo : Type 0 where
  pub username : Text
  pub password : Text

-- A claim that is missing or null is nil.
unfoldable pub is_nil : Option Value → Bool
is_nil none = true
is_nil (some null) = true
is_nil (some _) = false

-- The assertion `.(string)` panics on another type.
unfoldable pub string_claim : {W : Type 0} → Option Value → Go W Text
string_claim (some (str s)) = pure s
string_claim _ = panic

abbrev invalid : Claims → Bool
invalid c = not c.valid || (is_nil c.username || is_nil c.password)

unfoldable pub claimed : {W : Type 0} → Claims → Go W (Result AuthInfo)
unfolding string_claim
claimed c = do
  username ← string_claim c.username
  password ← string_claim c.password
  pure (ok (record { username = username; password = password }))

unfoldable pub info_of : {W : Type 0} → Text → Result Claims → Go W (Result AuthInfo)
unfolding claimed is_nil
info_of token (err e) = pure (err e)
info_of token (ok c) =
    if invalid c then pure (err (new_error (text "invalid JWT token: " ++ token))) else claimed c

unfoldable pub checked : AuthInfo → Result User → Response × Bool × Option Error
unfolding unauthenticated_response success_response
checked info (err e) = (unauthenticated_response, false, some (new_error data_unauthorized))
checked info (ok user) =
    if not (text_eq info.username user.name) || not (text_eq info.password user.hashed_password)
    then (unauthenticated_response, false, some (new_error (text "incorrect username or password")))
    else (success_response info.username data_success, true, none)

module _ {W : Type 0} (cm : ConfigMap W) (jwt : Jwt W) where
  unfoldable pub info : Text → Go W (Result AuthInfo)
  unfolding info_of
  info token = do r ← jwt.parse token; info_of token r

  unfoldable pub check_info : Result AuthInfo → Go W (Response × Bool × Option Error)
  unfolding checked unauthenticated_response user_get
  check_info (err e) = pure (unauthenticated_response, false, some e)
  check_info (ok i) = do r ← user_get cm i.username; pure (checked i r)

  unfoldable pub authenticate_token : Text → Go W (Response × Bool × Option Error)
  unfolding info check_info
  authenticate_token token = do i ← info token; check_info i
