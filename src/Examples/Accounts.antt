-- ===== src/Examples/Accounts.antt =====
-- The theorems on the users and their tokens at concrete inputs.
use kstone.Base.{
  ℕ, zero, suc, ◌≡◌, ◌↔◌, refl, ap, inl, Bool, true, Option, none, some, [], ◌∷◌, ◌++◌, length,
  if◌then◌else◌,
}
use kstone.Base.Text.{Text, text, text_eq}
use kstone.Base.Dict.{Dict, lookup, insert, delete}
use kstone.Base.Effect.{Error, pure}
use kstone.Interfaces.{ok, err}
use kstone.Auth.{ConfigMap, User, user_add, user_delete, user_change_password}
use kstone.Auth.Users.{
  StoreLaws, add, remove_user, change_password, start, next, Populated, Reachable-Populated,
}
use kstone.Auth.Answers.{Answered, expected, run-Answered}
use kstone.Auth.Token.{Response, Jwt, Claims, authenticate_token}
use kstone.Auth.Access.{claims, accepts, token_after}
use kstone.Auth.Request.{Crypto, log_in, login_response}
use kstone.Auth.Login.{JwtLaws, LoggedIn, login_accepted}
use kstone.Examples.{boom}

abbrev Users : Type 0
Users = Option (Dict Text)

abbrev cm : ConfigMap Users
cm = record { get = λ w. some (ok w, w); update = λ u w. some (none, u) }

cm-StoreLaws : StoreLaws cm (λ w. w)
cm-StoreLaws = record { get = λ r w w' h. (cc, λ u e. cc); update = λ u e w w' h. inl (cc, cc) }

-- A token that spells out its user and hash.
abbrev unpacked : ℕ → Text → Text × Text
unpacked n [] = ([], [])
unpacked zero (b ∷ s) = ([], b ∷ s)
unpacked (suc n) (b ∷ s) = let (u, p) = unpacked n s in (b ∷ u, p)

unpacked-append : (u p : Text) → unpacked (length u) (u ++ p) ≡ (u, p)
unpacked-append [] [] = refl
unpacked-append [] (b ∷ p) = refl
unpacked-append (b ∷ u) p = ap (λ (q : Text × Text). (b ∷ q.0, q.1)) (unpacked-append u p)

abbrev unpack : Text → Claims
unpack [] = claims [] []
unpack (n ∷ s) = let (u, p) = unpacked n s in claims u p

abbrev jwt : Jwt Users
jwt = record {
  generate_token = λ u p. pure (ok (length u ∷ (u ++ p)));
  parse = λ token. pure (ok (unpack token));
}

jwt-JwtLaws : JwtLaws jwt (λ w. w)
jwt-JwtLaws = record {
  generated = λ u p token w w₁ h. (
    cc,
    w₁,
    (let t : token ≡ length u ∷ (u ++ p) = cc in rw (t, unpacked-append u p) refl),
    refl,
  );
}

abbrev crypto : Crypto Users
crypto = record {
  unmarshal = λ body. err boom;
  generate_password_hash = λ p. pure (ok p);
  check_password = λ hash p. if text_eq hash p then none else some boom;
}

abbrev admin_only : Users
admin_only = some ((text "admin", text "x") ∷ [])

abbrev with_bob : Users
with_bob = some ((text "admin", text "x") ∷ (text "bob", text "y") ∷ [])

abbrev bob : User
bob = record { name = text "bob"; hashed_password = text "y" }

Reachable-Populated_example : Populated (some ((text "bob", text "y") ∷ []))
unfolding user_add user_delete lookup insert delete text_eq
Reachable-Populated_example =
    Reachable-Populated cm-StoreLaws admin_only (some ((text "bob", text "y") ∷ []))
      (next (next start (add bob) none refl) (remove_user (text "admin")) none refl)
      ((refl, tt), λ e. cc)

run-Answered_example : Answered (expected (add bob)) admin_only with_bob none
unfolding user_add lookup insert text_eq
run-Answered_example = run-Answered cm-StoreLaws (add bob) none admin_only with_bob refl

abbrev changed : Users
changed = some ((text "admin", text "x") ∷ (text "bob", text "z") ∷ [])

token_after_example :
    (answer : Response × Bool × Option Error) × (authenticate_token cm jwt (3 ∷ text "boby") changed
      ≡ some (answer, changed))
    × ((accepts answer ≡ true) ↔ (some (text "z") ≡ some (text "y")))
unfolding user_change_password lookup insert text_eq
token_after_example =
    token_after cm-StoreLaws jwt (change_password (text "bob") (text "z")) (3 ∷ text "boby")
      (text "bob") (text "y") changed with_bob changed changed changed refl refl refl refl

login_accepted_example :
    LoggedIn cm jwt
      (some
        (login_response (record { username = text "bob"; password = text "y" }) (3 ∷ text "boby")))
      with_bob
unfolding log_in lookup text_eq
login_accepted_example =
    login_accepted cm-StoreLaws jwt-JwtLaws (λ w. (w, refl)) crypto
      (record { username = text "bob"; password = text "y" })
      (some
        (login_response (record { username = text "bob"; password = text "y" }) (3 ∷ text "boby")))
      none with_bob with_bob refl
