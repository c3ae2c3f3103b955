-- ===== src/Auth/Access.antt =====
-- pkg/authentication: which tokens are accepted, at the login and after the users have changed.
use kstone.Base.{◌≡◌, ◌↔◌, refl, ap, ◌∙◌, subst, inl, inr, Bool, true, Option, none, some, arith}
use kstone.Base.Text.{Text, text_eq_iff, text_eq_refl}
use kstone.Base.Dict.{Dict, find}
use kstone.Base.Effect.{Error, pure, >>=-some}
use kstone.Interfaces.{ok}
use kstone.Unstructured.{str}
use kstone.Auth.{ConfigMap, found_user, got_user, user_get}
use kstone.Auth.Users.{StoreLaws, Operation, run}
use kstone.Auth.Answers.{run-Answered, expected}
use kstone.Auth.Token.{
  Response, Jwt, Claims, AuthInfo, checked, claimed, info_of, info, check_info, authenticate_token,
  is_nil, string_claim,
}

-- The claims of a token that names a user and a hash.
abbrev pub claims : Text → Text → Claims
claims username hash = record {
  valid = true;
  username = some (str username);
  password = some (str hash);
}

abbrev pub accepts : Response × Bool × Option Error → Bool
accepts (r, accepted, e) = accepted

found-accepts :
    (u p : Text) (users : Option (Dict Text))
    → (accepts (checked (record { username = u; password = p }) (found_user u users)) ≡ true)
      ↔ (find u users ≡ some p)
unfolding found_user checked
found-accepts u p users = go (find u users) refl
  where
    go :
        (o : Option Text)
        → find u users ≡ o
        → (accepts (checked (record { username = u; password = p }) (found_user u users)) ≡ true)
          ↔ (find u users ≡ some p)
    go none h = (λ k. ground arith, λ k. ground arith)
    go (some q) h = (
      λ k. ground (arith, text_eq_refl u, text_eq_iff p q),
      λ k. ground (arith, text_eq_refl u, text_eq_iff p q),
    )

module _ {W : Type 0} (cm : ConfigMap W) (jwt : Jwt W) where
  -- A token whose claims name a user and a hash is accepted exactly if the store holds this hash
  -- for this user.
  pub token_accepted :
      (token u p : Text) (users : Option (Dict Text)) (w w₁ w₂ : W)
      → jwt.parse token w ≡ some (ok (claims u p), w₁)
      → cm.get w₁ ≡ some (ok users, w₂)
      → (answer : Response × Bool × Option Error) × (authenticate_token cm jwt token w
          ≡ some (answer, w₂))
        × ((accepts answer ≡ true) ↔ (find u users ≡ some p))
  unfolding authenticate_token info check_info user_get got_user info_of claimed is_nil string_claim
  token_accepted token u p users w w₁ w₂ a b =
      let i : AuthInfo = record { username = u; password = p } in
      (
        checked i (found_user u users),
        >>=-some (check_info cm jwt) (info cm jwt token)
              (>>=-some (info_of token) (jwt.parse token) a)
            ∙ >>=-some (λ r. pure (checked i r)) (user_get cm u)
                (>>=-some (λ r. pure (got_user u r)) cm.get b),
        found-accepts u p users,
      )

module _ {W : Type 0} {cm : ConfigMap W} {users : W → Option (Dict Text)}
    (laws : StoreLaws cm users) (jwt : Jwt W) where
  -- Once an operation on the users has succeeded, a token is accepted exactly if its hash is the one
  -- that the operation leaves for its user: none is after a deletion, and after a change of the
  -- password none with another hash than the new one. Reading the token leaves the users alone, and the
  -- ConfigMap stores what it is given or fails.
  pub token_after :
      (op : Operation) (token u p : Text) (now : Option (Dict Text)) (w w' w₁ w₂ : W)
      → run cm op w ≡ some (none, w')
      → jwt.parse token w' ≡ some (ok (claims u p), w₁)
      → users w₁ ≡ users w'
      → cm.get w₁ ≡ some (ok now, w₂)
      → (answer : Response × Bool × Option Error) × (authenticate_token cm jwt token w'
          ≡ some (answer, w₂))
        × ((accepts answer ≡ true) ↔ (expected op u (users w) ≡ some p))
  token_after op token u p now w w' w₁ w₂ r a same b =
      let (answer, t, iff) = token_accepted cm jwt token u p now w' w₁ w₂ a b in
      let n = (laws.get (ok now) w₁ w₂ b).1 now refl ∙ same in
      elim (run-Answered laws op none w w' r) [
        | inl (z, f) ↦ (
          answer,
          t,
          subst (λ o. (accepts answer ≡ true) ↔ (o ≡ some p)) (ap (find u) n ∙ f u) iff,
        )
        | inr (z, f) ↦ absurd (z refl)
      ]
