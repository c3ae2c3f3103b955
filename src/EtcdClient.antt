-- ===== src/EtcdClient.antt =====
-- pkg/etcd/helper.go: the configurations of the etcd clients v3 and v2. The TLS material, the clients
-- of etcd and their errors are parameters; `W` is the state outside.
pub mod Files
pub mod Command
pub mod Versions
pub mod Roles
use kstone.Base.{
  ℕ, Bool, true, false, not, ◌&&◌, ◌||◌, Option, none, some, List, [], ◌∷◌, ◌*◌, ltb, ◌==◌,
  if◌then◌else◌,
}
use kstone.Base.Text.{Text, text_eq}
use kstone.Base.Effect.{Go, Error, pure, ◌>>=◌}
use kstone.Interfaces.{Result, ok, err, ClientConfig, SecureConfig}

-- time.Second, in nanoseconds.
abbrev pub second : ℕ
second = 1_000_000_000

abbrev pub default_dial_timeout : ℕ
default_dial_timeout = 3 * second

abbrev pub default_command_time_out : ℕ
default_command_time_out = 10 * second

abbrev pub default_keep_alive_time : ℕ
default_keep_alive_time = 10 * second

abbrev pub default_keep_alive_time_out : ℕ
default_keep_alive_time_out = 30 * second

abbrev pub or_default : ℕ → ℕ → ℕ
or_default n d = if n == 0 then d else n

unfoldable pub set_default_config : ClientConfig → ClientConfig
set_default_config config = record config {
  dial_timeout = or_default config.dial_timeout default_dial_timeout;
  dial_keep_alive_time = or_default config.dial_keep_alive_time default_keep_alive_time;
  dial_keep_alive_timeout = or_default config.dial_keep_alive_timeout default_keep_alive_time_out;
}

-- transport.TLSInfo
pub record TlsInfo : Type 0 where
  pub cert_file : Text
  pub key_file : Text
  pub trusted_ca_file : Text
  pub skip_verify : Bool

-- tls.Config: the material that was loaded, and InsecureSkipVerify.
pub record Tls (K : Type 0) : Type 0 where
  pub material : K
  pub insecure_skip_verify : Bool

-- clientv3.Config
pub record V3Config (K : Type 0) : Type 0 where
  pub endpoints : List Text
  pub dial_timeout : ℕ
  pub dial_keep_alive_time : ℕ
  pub dial_keep_alive_timeout : ℕ
  pub username : Text
  pub password : Text
  pub tls : Option (Tls K)

-- http.Transport of a short connection, or what transport.NewTransport makes for a dial timeout.
pub data Transport (K : Type 0) : Type 0 where
  short_transport : (dial keep_alive handshake : ℕ) → Tls K → (max_idle : ℕ) → Transport K
  long_transport : TlsInfo → ℕ → Transport K

-- clientv2.Config; no transport is the default one.
pub record V2Config (K : Type 0) : Type 0 where
  pub transport : Option (Transport K)
  pub endpoints : List Text
  pub header_timeout_per_request : ℕ
  pub username : Text
  pub password : Text

-- TLSInfo.ClientConfig, which reads the files, and the constructors of the clients.
pub record EtcdLibrary (W K Client2 Client3 : Type 0) : Type 0 where
  pub client_config : TlsInfo → Go W (Result (Tls K))
  pub new_transport : TlsInfo → ℕ → Go W (Option Error)
  pub new_v3 : V3Config K → Go W (Result Client3)
  pub new_v2 : V2Config K → Go W (Result Client2)

-- Whether any of the three files is set, so that cfgtls is not nil.
unfoldable pub has_tls : SecureConfig → Bool
has_tls c = not (text_eq c.cert []) || (not (text_eq c.key []) || not (text_eq c.ca_cert []))

abbrev pub tls_info : SecureConfig → Bool → TlsInfo
tls_info c skip = record {
  cert_file = c.cert;
  key_file = c.key;
  trusted_ca_file = c.ca_cert;
  skip_verify = skip;
}

module _ {K : Type 0} where
  abbrev pub v3_config : ClientConfig → Option (Tls K) → V3Config K
  v3_config c tls = record {
    endpoints = c.endpoints;
    dial_timeout = c.dial_timeout;
    dial_keep_alive_time = c.dial_keep_alive_time;
    dial_keep_alive_timeout = c.dial_keep_alive_timeout;
    username = c.secure.username;
    password = c.secure.password;
    tls = tls;
  }

  unfoldable pub with_tls : ClientConfig → Result (Tls K) → Result (V3Config K)
  with_tls c (err e) = err e
  with_tls c (ok tls) = ok (v3_config c (some (record tls { insecure_skip_verify = true })))

  abbrev pub v2_config : ClientConfig → Transport K → V2Config K
  v2_config c tr = record {
    transport = some tr;
    endpoints = c.endpoints;
    header_timeout_per_request = c.dial_timeout;
    username = c.secure.username;
    password = c.secure.password;
  }

  unfoldable pub short_of : Result (Tls K) → Result (Transport K)
  short_of (err e) = err e
  short_of (ok tls) =
      ok (short_transport default_dial_timeout default_keep_alive_time default_dial_timeout tls 1)

  unfoldable pub long_of : TlsInfo → ℕ → Option Error → Result (Transport K)
  long_of info dial none = ok (long_transport info dial)
  long_of info dial (some e) = err e

  unfoldable pub v2_of : ClientConfig → Result (Transport K) → Result (V2Config K)
  v2_of c (err e) = err e
  v2_of c (ok tr) = ok (v2_config c tr)

unfoldable pub capped : ℕ → ℕ → ℕ
capped total dial = if not (total == 0) && ltb total dial then total else dial

module _ {W K Client2 Client3 : Type 0} (lib : EtcdLibrary W K Client2 Client3) where
  unfoldable pub new_client_v3_config : ClientConfig → Go W (Result (V3Config K))
  unfolding with_tls has_tls
  new_client_v3_config c =
      if has_tls c.secure
      then (do tls ← lib.client_config (tls_info c.secure false); pure (with_tls c tls))
      else pure (ok (v3_config c none))

  unfoldable pub made_v3 : Result (V3Config K) → Go W (Result Client3)
  made_v3 (err e) = pure (err e)
  made_v3 (ok cfg) = lib.new_v3 cfg

  -- The defaults stay in the caller's configuration.
  unfoldable pub new_client_v3 : ClientConfig → Go W (ClientConfig × Result Client3)
  unfolding set_default_config new_client_v3_config made_v3
  new_client_v3 config = do
    let c = set_default_config config
    cfg ← new_client_v3_config c
    client ← made_v3 cfg
    pure (c, client)

  unfoldable pub get_transport : ℕ → ℕ → SecureConfig → Bool → Go W (Result (Transport K))
  unfolding capped short_of long_of
  get_transport dial total secure true = do
    tls ← lib.client_config (tls_info secure true)
    pure (short_of tls)
  get_transport dial total secure false = do
    e ← lib.new_transport (tls_info secure true) (capped total dial)
    pure (long_of (tls_info secure true) (capped total dial) e)

  unfoldable pub new_client_v2_config : ClientConfig → Go W (Result (V2Config K))
  unfolding get_transport v2_of
  new_client_v2_config c = do
    tr ← get_transport c.dial_timeout default_command_time_out c.secure true
    pure (v2_of c tr)

  unfoldable pub made_v2 : Result (V2Config K) → Go W (Result Client2)
  made_v2 (err e) = pure (err e)
  made_v2 (ok cfg) = lib.new_v2 cfg

  unfoldable pub new_short_connection_client_v2 :
      ClientConfig → Go W (ClientConfig × Result Client2)
  unfolding set_default_config new_client_v2_config made_v2
  new_short_connection_client_v2 config = do
    let c = set_default_config config
    cfg ← new_client_v2_config c
    client ← made_v2 cfg
    pure (c, client)
