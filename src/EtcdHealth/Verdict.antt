-- ===== src/EtcdHealth/Verdict.antt =====
-- What the health check of pkg/etcd makes of a member, as GetEtcdClusterMemberStatus of
-- pkg/clusterprovider/helper.go reads it.
use kstone.Base.{◌≡◌, ◌≢◌, Bool, Option, some, ◌++◌}
use kstone.Base.Text.{Text, text}
use kstone.Base.Effect.{Go, Error, new_error}
use kstone.Api.{MemberPhase}
use kstone.Interfaces.{Result, ok, err, ClientConfig}
use kstone.Members.{member_phase}
use kstone.EtcdHealth.{HealthLibrary, HealthClient, init}

module _ {W K Pair : Type 0} (lib : HealthLibrary W K Pair) where
  abbrev start : ClientConfig → Text → Go W (Result (HealthClient K))
  start cli endpoint = init lib cli.secure.ca_cert cli.secure.cert cli.secure.key endpoint

  -- The phase of a member, and what it stands on.
  pub data Verdict (endpoint : Text) (cli : ClientConfig) (w w' : W) : MemberPhase → Type 0 where
    no_files :
        (e : Error)
        → init lib cli.secure.ca_cert cli.secure.cert cli.secure.key endpoint w ≡ some (err e, w')
        → Verdict endpoint cli w w' MemberPhase.unknown
    no_answer :
        (tls : Option K) (w₁ : W) (e : Error)
        → init lib cli.secure.ca_cert cli.secure.cert cli.secure.key endpoint w
          ≡ some (ok (record { endpoint = endpoint; tls = tls }), w₁)
        → lib.get tls (endpoint ++ text "/health") w₁ ≡ some (err e, w')
        → Verdict endpoint cli w w' MemberPhase.unhealthy
    other_answer :
        (tls : Option K) (w₁ : W) (body : Text) (e : Option Error)
        → init lib cli.secure.ca_cert cli.secure.cert cli.secure.key endpoint w
          ≡ some (ok (record { endpoint = endpoint; tls = tls }), w₁)
        → lib.get tls (endpoint ++ text "/health") w₁ ≡ some (ok (body, e), w')
        → lib.health_field body ≢ ok (text "true")
        → Verdict endpoint cli w w' MemberPhase.unhealthy
    healthy :
        (tls : Option K) (w₁ : W) (body : Text) (e : Option Error)
        → init lib cli.secure.ca_cert cli.secure.cert cli.secure.key endpoint w
          ≡ some (ok (record { endpoint = endpoint; tls = tls }), w₁)
        → lib.get tls (endpoint ++ text "/health") w₁ ≡ some (ok (body, e), w')
        → lib.health_field body ≡ ok (text "true")
        → Verdict endpoint cli w w' MemberPhase.running

  abbrev unhealthy_status : Text → Error
  unhealthy_status t = new_error (text "Unhealthy status: " ++ t)

  module _ (endpoint : Text) (cli : ClientConfig) (w w' : W) (tls : Option K) (w₁ : W)
      (s : start cli endpoint w ≡ some (ok (record { endpoint = endpoint; tls = tls }), w₁)) where
    abbrev Judged : Bool × Option Error → Type 0
    Judged (b, e) = Verdict endpoint cli w w' (member_phase b e)
