-- ===== src/Auth/Login.antt =====
-- pkg/authentication/request/request.go, LoginRequest, against the check of the token that it hands
-- out.
use kstone.Base.{◌≡◌, refl, sym, ap, ◌∙◌, subst, Bool, true, Option, none, some, arith}
use kstone.Base.Text.{Text}
use kstone.Base.Dict.{Dict, find}
use kstone.Base.Effect.{Error, pure, >>=-eq-some}
use kstone.Interfaces.{Result, ok, err}
use kstone.Auth.{ConfigMap, User, found_user, got_user, user_get}
use kstone.Auth.Users.{StoreLaws}
use kstone.Auth.Token.{
  Response, Jwt, authenticate_token, success_token_response, success_reset_password_response,
}
use kstone.Auth.Access.{claims, accepts, token_accepted}
use kstone.Auth.Request.{
  Crypto, Credentials, login_response, token_response, log_in_checked, log_in_user, log_in,
}

-- A token that was just generated parses to its claims. Neither step touches the users.
pub record JwtLaws {W : Type 0} (jwt : Jwt W) (users : W → Option (Dict Text)) : Type 0 where
  pub generated :
      (u p token : Text) (w w₁ : W)
      → jwt.generate_token u p w ≡ some (ok token, w₁)
      → (users w₁ ≡ users w)
        × (w₂ : W) × (jwt.parse token w₁ ≡ some (ok (claims u p), w₂))
        × (users w₂ ≡ users w₁)

-- An API server that answers every read.
abbrev pub Available : {W : Type 0} → ConfigMap W → (W → Option (Dict Text)) → Type 0
Available {W} cm users = (w : W) → (w' : W) × (cm.get w ≡ some (ok (users w), w'))

-- What an answer of LoginRequest says.
abbrev pub LoggedIn : {W : Type 0} → ConfigMap W → Jwt W → Option Response → W → Type 0
LoggedIn {W} cm jwt none w = ⊥
LoggedIn {W} cm jwt (some r) w =
    (answer : Response × Bool × Option Error) × (w' : W) × (authenticate_token cm jwt r.token w
      ≡ some (answer, w'))
    × (accepts answer ≡ true)

login-token : (c : Credentials) (token : Text) → (login_response c token).token ≡ token
unfolding login_response success_token_response success_reset_password_response
login-token c token = ground arith

found_user-ok :
    (name : Text) (us : Option (Dict Text)) (user : User)
    → found_user name us ≡ ok user
    → find name us ≡ some user.hashed_password
unfolding found_user
found_user-ok name us user h = ground arith

got_user-ok :
    (name : Text) (a : Result (Option (Dict Text))) (user : User)
    → got_user name a ≡ ok user
    → (us : Option (Dict Text)) × (a ≡ ok us) × (find name us ≡ some user.hashed_password)
unfolding got_user
got_user-ok name (err e) user h = absurd (ground arith)
got_user-ok name (ok us) user h = (us, refl, found_user-ok name us user h)

module _ {W : Type 0} {cm : ConfigMap W} {users : W → Option (Dict Text)} {jwt : Jwt W}
    (laws : StoreLaws cm users) (jwt_laws : JwtLaws jwt users) (available : Available cm users)
    (crypto : Crypto W) where
  issued :
      (c : Credentials) (p token : Text) (w w₁ : W)
      → find c.username (users w) ≡ some p
      → jwt.generate_token c.username p w ≡ some (ok token, w₁)
      → LoggedIn cm jwt (some (login_response c token)) w₁
  issued c p token w w₁ f g =
      let (same, w₂, parsed, kept) = jwt_laws.generated c.username p token w w₁ g in
      let (w₃, got) = available w₂ in
      let (answer, t, iff) =
        token_accepted cm jwt token c.username p (users w₂) w₁ w₂ w₃ parsed got in
      (
        answer,
        w₃,
        subst (λ s. authenticate_token cm jwt s w₁ ≡ some (answer, w₃)) (sym (login-token c token))
            t,
        iff.1 (ap (find c.username) (kept ∙ same) ∙ f),
      )

  checked_in :
      (c : Credentials) (user : User) (e : Option Error) (r : Option Response) (x : Option Error)
      (w w' : W)
      → find c.username (users w) ≡ some user.hashed_password
      → log_in_checked cm jwt crypto c user e w ≡ some ((r, true, x), w')
      → LoggedIn cm jwt r w'
  unfolding log_in_checked token_response
  checked_in c user (some e) r x w w' f h = absurd (ground arith)
  checked_in c user none r x w w' f h =
      let (t, w₁, g, q) =
        >>=-eq-some (token_response cm jwt crypto c)
          (jwt.generate_token c.username user.hashed_password) w h in
      from t w₁ g q
    where
      from :
          (t : Result Text) (w₁ : W)
          → jwt.generate_token c.username user.hashed_password w ≡ some (t, w₁)
          → token_response cm jwt crypto c t w₁ ≡ some ((r, true, x), w')
          → LoggedIn cm jwt r w'
      from (err e) w₁ g q = absurd (ground arith)
      from (ok token) w₁ g q =
          let a : some (login_response c token) ≡ r = ground arith in
          let b : w₁ ≡ w' = ground arith in
          subst (λ v. LoggedIn cm jwt r v) b
            (subst (λ s. LoggedIn cm jwt s w₁) a (issued c user.hashed_password token w w₁ f g))

  user_in :
      (c : Credentials) (g : Result User) (r : Option Response) (x : Option Error) (w w' : W)
      → ((user : User) → g ≡ ok user → find c.username (users w) ≡ some user.hashed_password)
      → log_in_user cm jwt crypto c g w ≡ some ((r, true, x), w')
      → LoggedIn cm jwt r w'
  unfolding log_in_user
  user_in c (err e) r x w w' f h = absurd (ground arith)
  user_in c (ok user) r x w w' f h =
      checked_in c user (crypto.check_password user.hashed_password c.password) r x w w'
        (f user refl) h

  -- If a login is accepted, it answers with a token, and the check of this token right after it
  -- accepts the user, as long as the API server answers, and a fresh token parses to its claims.
  pub login_accepted :
      (c : Credentials) (r : Option Response) (x : Option Error) (w w' : W)
      → log_in cm jwt crypto (ok c) w ≡ some ((r, true, x), w')
      → LoggedIn cm jwt r w'
  unfolding log_in user_get got_user
  login_accepted c r x w w' h =
      let (u, w₁, g, q) = >>=-eq-some (log_in_user cm jwt crypto c) (user_get cm c.username) w h in
      user_in c u r x w₁ w' (λ user e. got user u w₁ e g) q
    where
      got :
          (user : User) (u : Result User) (w₁ : W)
          → u ≡ ok user
          → user_get cm c.username w ≡ some (u, w₁)
          → find c.username (users w₁) ≡ some user.hashed_password
      got user u w₁ e g =
          let (a, w₂, p, q) = >>=-eq-some (λ a. pure (got_user c.username a)) cm.get w g in
          let b : got_user c.username a ≡ ok user = ground arith in
          let d : w₂ ≡ w₁ = ground arith in
          let (us, k, l) = got_user-ok c.username a user b in
          let (same, value) = laws.get a w w₂ p in
          let f : find c.username (users w₂) ≡ some user.hashed_password =
            ap (find c.username) (same ∙ sym (value us k)) ∙ l in
          subst (λ v. find c.username (users v) ≡ some user.hashed_password) d f
