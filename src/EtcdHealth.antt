-- ===== src/EtcdHealth.antt =====
-- pkg/etcd/health.go, and MemberHealthy of pkg/etcd/helper.go: the health check of a member over
-- HTTP. The files of certificates, the HTTP client and encoding/json are parameters.
pub mod Verdict
use kstone.Base.{
  Bool, true, false, not, ◌&&◌, Option, none, some, List, [], ◌∷◌, ◌++◌, if◌then◌else◌,
}
use kstone.Base.Text.{Text, text, text_eq, cat}
use kstone.Base.Effect.{Go, Error, new_error, pure, ◌>>=◌}
use kstone.Interfaces.{Result, ok, err, ClientConfig}

-- The method "http", and any other text.
pub data HealthCheckMethod : Type 0 where
  health_check_http health_check_etcdctl : HealthCheckMethod

-- HealthCheckHTTPClient after Init: the endpoint, and the TLS material of the transport.
pub record HealthClient (K : Type 0) : Type 0 where
  pub endpoint : Text
  pub tls : Option K

-- Stats, as /v2/stats/self encodes it.
pub record Stats : Type 0 where
  pub name : Text
  pub id : Text
  pub leader : Text

-- `read_ca` and `load_pair` are ioutil.ReadFile and tls.LoadX509KeyPair, `material` the tls.Config
-- of the two; `get` answers the body that was read and the error of reading it.
pub record HealthLibrary (W K Pair : Type 0) : Type 0 where
  pub read_ca : Text → Go W (Result Text)
  pub load_pair : Text → Text → Go W (Result Pair)
  pub material : Text → Pair → K
  pub get : Option K → Text → Go W (Result (Text × Option Error))
  pub health_field : Text → Result Text
  pub server_field : Text → Result Text
  pub stats_fields : Text → Result Stats

unfoldable pub new_etcd_health_check_backend : HealthCheckMethod → Option Error
new_etcd_health_check_backend health_check_http = none
new_etcd_health_check_backend health_check_etcdctl =
    some (new_error (text "invalid health check method"))

unfoldable pub judged : Result Text → Option Error
judged (err e) = some e
judged (ok health) =
    if not (text_eq health (text "true"))
    then some (new_error (text "Unhealthy status: " ++ health))
    else none

unfoldable pub body_read : Text × Option Error → Result Text
body_read (body, none) = ok body
body_read (body, some e) = err e

unfoldable pub body_of : Result (Text × Option Error) → Result Text
unfolding body_read
body_of (err e) = err e
body_of (ok rsp) = body_read rsp

abbrev pub sending_failed : Error → Error
sending_failed e = new_error (text "send request failed:" ++ e.message)

abbrev pub not_json : Error → Text → Error
not_json e body =
    new_error (cat (text "version result json failed:" ∷ e.message ∷ text ", body:" ∷ body ∷ []))

unfoldable pub unmarshalled : {A : Type 0} → Text → Result A → Result A
unmarshalled body (ok a) = ok a
unmarshalled body (err e) = err (not_json e body)

unfoldable pub from_body : {A : Type 0} → (Text → Result A) → Result Text → Result A
unfolding unmarshalled
from_body decode (err e) = err (sending_failed e)
from_body decode (ok body) = unmarshalled body (decode body)

module _ {W K Pair : Type 0} (lib : HealthLibrary W K Pair) where
  unfoldable pub with_pair : Text → Text → Result Pair → Result (HealthClient K)
  with_pair endpoint ca (err e) = err e
  with_pair endpoint ca (ok pair) =
      ok (record { endpoint = endpoint; tls = some (lib.material ca pair) })

  unfoldable pub with_ca : Text → Text → Text → Result Text → Go W (Result (HealthClient K))
  unfolding with_pair
  with_ca endpoint cert key (err e) = pure (err e)
  with_ca endpoint cert key (ok ca) = do
    pair ← lib.load_pair cert key
    pure (with_pair endpoint ca pair)

  unfoldable pub init : Text → Text → Text → Text → Go W (Result (HealthClient K))
  unfolding with_ca
  init ca cert key endpoint =
      if not (text_eq ca []) && (not (text_eq cert []) && not (text_eq key []))
      then (do r ← lib.read_ca ca; with_ca endpoint cert key r)
      else pure (ok (record { endpoint = endpoint; tls = none }))

  unfoldable pub etcd_health_check : Text → Option Error
  unfolding judged
  etcd_health_check body = judged (lib.health_field body)

  -- An error of reading the body is ignored.
  unfoldable pub health_answered : Result (Text × Option Error) → Option Error
  unfolding etcd_health_check
  health_answered (err e) = some e
  health_answered (ok rsp) = etcd_health_check rsp.0

  unfoldable pub is_healthy : HealthClient K → Go W (Option Error)
  unfolding health_answered
  is_healthy c = do rsp ← lib.get c.tls (c.endpoint ++ text "/health"); pure (health_answered rsp)

  unfoldable pub get_by_api : HealthClient K → Text → Go W (Result Text)
  unfolding body_of
  get_by_api c path = do rsp ← lib.get c.tls (c.endpoint ++ (text "/" ++ path)); pure (body_of rsp)

  unfoldable pub version : HealthClient K → Go W (Result Text)
  unfolding get_by_api from_body
  version c = do body ← get_by_api c (text "version"); pure (from_body lib.server_field body)

  unfoldable pub stats : HealthClient K → Go W (Result Stats)
  unfolding get_by_api from_body
  stats c = do body ← get_by_api c (text "v2/stats/self"); pure (from_body lib.stats_fields body)

  unfoldable pub without_error : Option Error → Bool × Option Error
  without_error none = (true, none)
  without_error (some e) = (false, none)

  unfoldable pub initialised : Result (HealthClient K) → Go W (Bool × Option Error)
  unfolding is_healthy without_error
  initialised (err e) = pure (false, some e)
  initialised (ok c) = do e ← is_healthy c; pure (without_error e)

  unfoldable pub checked_by : Text → ClientConfig → Option Error → Go W (Bool × Option Error)
  unfolding init initialised
  checked_by endpoint cli (some e) = pure (false, some e)
  checked_by endpoint cli none = do
    c ← init cli.secure.ca_cert cli.secure.cert cli.secure.key endpoint
    initialised c

  unfoldable pub member_healthy : Text → ClientConfig → Go W (Bool × Option Error)
  unfolding checked_by new_etcd_health_check_backend
  member_healthy endpoint cli =
      checked_by endpoint cli (new_etcd_health_check_backend health_check_http)
