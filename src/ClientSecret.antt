-- ===== src/ClientSecret.antt =====
-- pkg/etcd/client.go, New: the client configuration from the secret that the cluster names. The
-- secrets, and the files that hold the certificates (GetTLSConfigPath), are parameters.
pub mod Reference
use kstone.Base.{Bool, true, false, Option, none, some, List, [], ◌∷◌, ◌++◌, if◌then◌else◌, get_or}
use kstone.Base.Text.{Text, text, text_eq, split}
use kstone.Base.Dict.{Dict, find}
use kstone.Base.Effect.{Go, Error, new_error, pure, ◌>>=◌}
use kstone.Interfaces.{Result, ok, err, ClientConfig, SecureConfig}

-- `get` reads the data of a secret in a namespace. `tls_paths` answers the paths of the CA, of the
-- certificate and of the key, for the cluster's path and the contents of the three.
pub record Secrets (W : Type 0) : Type 0 where
  pub get : Text → Text → Go W (Result (Option (Dict Text)))
  pub tls_paths : Text → Text → Text → Text → Go W (Result (Text × Text × Text))

-- The namespace of a path of two parts.
unfoldable pub path_namespace : List Text → Text
path_namespace (namespace ∷ name ∷ []) = namespace
path_namespace _ = text "default"

-- A secret's name may hold its namespace.
unfoldable pub named : Text → Text → List Text → Result (Text × Text)
named namespace sc (a ∷ b ∷ c ∷ more) = err (new_error (text "invalid secretname"))
named namespace sc (a ∷ b ∷ []) = ok (a, b)
named namespace sc _ = ok (namespace, sc)

unfoldable pub secret_ref : Text → Text → Result (Text × Text)
unfolding path_namespace named
secret_ref path sc = named (path_namespace (split b'/' path)) sc (split b'/' sc)

abbrev pub no_config : ClientConfig
no_config = record {
  endpoints = [];
  dial_timeout = 0;
  dial_keep_alive_time = 0;
  dial_keep_alive_timeout = 0;
  secure = record { cert = []; key = []; ca_cert = []; username = []; password = [] };
}

abbrev field_of : Text → Option (Dict Text) → Text
field_of k d = get_or (find k d) []

unfoldable pub configured : Option (Dict Text) → Result (Text × Text × Text) → Result ClientConfig
configured d (err e) = err e
configured d (ok (ca, cert, key)) = ok (record no_config {
  secure = record {
    cert = cert;
    key = key;
    ca_cert = ca;
    username = field_of (text "username") d;
    password = field_of (text "password") d;
  };
})

module _ {W : Type 0} (secrets : Secrets W) where
  unfoldable pub with_secret : Text → Result (Option (Dict Text)) → Go W (Result ClientConfig)
  unfolding configured
  with_secret path (err e) = pure (err e)
  with_secret path (ok d) = do
    r ←
        secrets.tls_paths path (field_of (text "client.pem") d) (field_of (text "client-key.pem") d)
          (field_of (text "ca.pem") d)
    pure (configured d r)

  unfoldable pub with_ref : Text → Result (Text × Text) → Go W (Result ClientConfig)
  unfolding with_secret
  with_ref path (err e) = pure (err e)
  with_ref path (ok (namespace, name)) = do r ← secrets.get namespace name; with_secret path r

  -- No secret name, no security.
  unfoldable pub new : Text → Text → Go W (Result ClientConfig)
  unfolding with_ref secret_ref
  new path sc = if text_eq sc [] then pure (ok no_config) else with_ref path (secret_ref path sc)
