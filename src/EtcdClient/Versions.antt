-- ===== src/EtcdClient/Versions.antt =====
-- pkg/etcd/client/versions: the clients of the two versions of etcd, as pkg/etcd/client registers
-- them. The calls of the etcd clients are parameters.
use kstone.Base.{ℕ, Bool, false, Option, none, some, List, [], ◌∷◌, map, if◌then◌else◌}
use kstone.Base.Text.{Text, text, cat, join}
use kstone.Base.Decimal.{itoa}
use kstone.Base.Effect.{Go, Error, new_error, pure, panic, ◌>>=◌}
use kstone.Interfaces.{Result, ok, err, ClientConfig}
use kstone.Members.{Member, VersionClient, MemberEnv}
use kstone.EtcdHealth.{
  HealthLibrary, HealthClient, Stats, health_check_http, new_etcd_health_check_backend, init,
  version, stats, member_healthy,
}
use kstone.EtcdClient.{
  EtcdLibrary, Tls, Transport, short_transport, V2Config, has_tls, tls_info, new_client_v3,
}

-- A member, and a status, as the client v3 answers them.
pub record MemberV3 : Type 0 where
  pub id : ℕ
  pub name : Text
  pub peer_urls : List Text
  pub client_urls : Option (List Text)
  pub is_learner : Bool

pub record StatusV3 : Type 0 where
  pub version : Text
  pub is_learner : Bool
  pub leader : ℕ

pub record MemberV2 : Type 0 where
  pub id : Text
  pub name : Text
  pub peer_urls : List Text
  pub client_urls : Option (List Text)

pub record Calls (W Client2 Client3 : Type 0) : Type 0 where
  pub member_list_v3 : Client3 → Go W (Result (List MemberV3))
  pub status_v3 : Text → Client3 → Go W (Result StatusV3)
  pub close_v3 : Client3 → Go W (Unit {0})
  pub member_list_v2 : Client2 → Go W (Result (List MemberV2))

abbrev pub member_of_v3 : MemberV3 → Member
member_of_v3 m = record {
  id = itoa m.id;
  name = m.name;
  peer_urls = m.peer_urls;
  client_urls = m.client_urls;
  version = [];
  is_learner = m.is_learner;
  leader = [];
}

abbrev pub member_of_v2 : MemberV2 → Member
member_of_v2 m = record {
  id = m.id;
  name = m.name;
  peer_urls = m.peer_urls;
  client_urls = m.client_urls;
  version = [];
  is_learner = false;
  leader = [];
}

unfoldable pub members_v3 : Result (List MemberV3) → Result (List Member)
members_v3 (err e) = err e
members_v3 (ok ms) = ok (map member_of_v3 ms)

unfoldable pub status_of_v3 : Result StatusV3 → Option Member × Option Error
status_of_v3 (err e) = (none, some e)
status_of_v3 (ok rsp) = (
  some (record {
    id = [];
    name = [];
    peer_urls = [];
    client_urls = none;
    version = rsp.version;
    is_learner = rsp.is_learner;
    leader = itoa rsp.leader;
  }),
  none,
)

abbrev load_failed : List Text → Error → Error
load_failed endpoints e = new_error (
    cat (
      text "load members err of endpoints:["
      ∷ join (text " ") endpoints
      ∷ text "] err:"
      ∷ e.message
      ∷ []))

unfoldable pub members_v2 : List Text → Result (List MemberV2) → Result (List Member)
members_v2 endpoints (err e) = err (load_failed endpoints e)
members_v2 endpoints (ok ms) = ok (map member_of_v2 ms)

unfoldable pub status_of_v2 : Text → Result Stats → Option Member × Option Error
status_of_v2 version (err e) = (none, some e)
status_of_v2 version (ok s) = (
  some (record {
    id = s.id;
    name = s.name;
    peer_urls = [];
    client_urls = none;
    version = version;
    is_learner = false;
    leader = s.leader;
  }),
  none,
)

module _ {K : Type 0} where
  -- The configuration of the client v2 in its provider, which has no defaults.
  abbrev pub provider_config : ClientConfig → Option (Transport K) → V2Config K
  provider_config c tr = record {
    transport = tr;
    endpoints = c.endpoints;
    header_timeout_per_request = 0;
    username = c.secure.username;
    password = c.secure.password;
  }

  unfoldable pub provider_with_tls : ClientConfig → Result (Tls K) → Result (V2Config K)
  provider_with_tls c (err e) = err e
  provider_with_tls c (ok tls) = ok (
      provider_config c (
        some
          (short_transport c.dial_keep_alive_timeout c.dial_keep_alive_time c.dial_timeout tls 1)))

module _ {W K Pair Client2 Client3 : Type 0} (lib : EtcdLibrary W K Client2 Client3)
    (health : HealthLibrary W K Pair) (calls : Calls W Client2 Client3) where
  unfoldable pub member_list_v3 : Client3 → Go W (Result (List Member))
  unfolding members_v3
  member_list_v3 cli = do rsp ← calls.member_list_v3 cli; pure (members_v3 rsp)

  unfoldable pub first_status : List Text → Client3 → Go W (Option Member × Option Error)
  unfolding status_of_v3
  first_status [] cli = panic
  first_status (first ∷ more) cli = do rsp ← calls.status_v3 first cli; pure (status_of_v3 rsp)

  -- The status of the first endpoint, whichever is asked for.
  unfoldable pub status_v3 : ClientConfig → Client3 → Text → Go W (Option Member × Option Error)
  unfolding first_status
  status_v3 config cli endpoint = first_status config.endpoints cli

  unfoldable pub client_v3 : ClientConfig → Client3 → VersionClient W
  unfolding member_list_v3 status_v3
  client_v3 config cli = record {
    member_list = member_list_v3 cli;
    status = status_v3 config cli;
    close = calls.close_v3 cli;
  }

  unfoldable pub made_client_v3 : ClientConfig → Result Client3 → Result (VersionClient W)
  unfolding client_v3
  made_client_v3 config (err e) = err e
  made_client_v3 config (ok cli) = ok (client_v3 config cli)

  unfoldable pub init_client_v3 : ClientConfig → Go W (Result (VersionClient W))
  unfolding made_client_v3 new_client_v3
  init_client_v3 config = do (c, cli) ← new_client_v3 lib config; pure (made_client_v3 c cli)

  unfoldable pub member_list_v2 : ClientConfig → Client2 → Go W (Result (List Member))
  unfolding members_v2
  member_list_v2 config cli = do
    rsp ← calls.member_list_v2 cli
    pure (members_v2 config.endpoints rsp)

  unfoldable pub with_version : HealthClient K → Result Text → Go W (Option Member × Option Error)
  unfolding status_of_v2 stats
  with_version backend (err e) = pure (none, some e)
  with_version backend (ok v) = do s ← stats health backend; pure (status_of_v2 v s)

  unfoldable pub with_backend : Result (HealthClient K) → Go W (Option Member × Option Error)
  unfolding with_version version
  with_backend (err e) = pure (none, some e)
  with_backend (ok backend) = do v ← version health backend; with_version backend v

  unfoldable pub status_v2_by :
      ClientConfig → Text → Option Error → Go W (Option Member × Option Error)
  unfolding with_backend init
  status_v2_by config endpoint (some e) = pure (none, some e)
  status_v2_by config endpoint none = do
    b ← init health config.secure.ca_cert config.secure.cert config.secure.key endpoint
    with_backend b

  unfoldable pub status_v2 : ClientConfig → Text → Go W (Option Member × Option Error)
  unfolding status_v2_by new_etcd_health_check_backend
  status_v2 config endpoint =
      status_v2_by config endpoint (new_etcd_health_check_backend health_check_http)

  unfoldable pub client_v2 : ClientConfig → Client2 → VersionClient W
  unfolding member_list_v2 status_v2
  client_v2 config cli = record {
    member_list = member_list_v2 config cli;
    status = status_v2 config;
    close = pure tt;
  }

  unfoldable pub new_client_cfg : ClientConfig → Go W (Result (V2Config K))
  unfolding has_tls provider_with_tls
  new_client_cfg c =
      if has_tls c.secure
      then (do tls ← lib.client_config (tls_info c.secure false); pure (provider_with_tls c tls))
      else pure (ok (provider_config c none))

  unfoldable pub made_client_v2 : ClientConfig → Result Client2 → Result (VersionClient W)
  unfolding client_v2
  made_client_v2 config (err e) = err e
  made_client_v2 config (ok cli) = ok (client_v2 config cli)

  unfoldable pub configured_v2 :
      ClientConfig → Result (V2Config K) → Go W (Result (VersionClient W))
  unfolding made_client_v2
  configured_v2 config (err e) = pure (err e)
  configured_v2 config (ok cfg) = do cli ← lib.new_v2 cfg; pure (made_client_v2 config cli)

  unfoldable pub init_client_v2 : ClientConfig → Go W (Result (VersionClient W))
  unfolding configured_v2 new_client_cfg
  init_client_v2 config = do cfg ← new_client_cfg config; configured_v2 config cfg

  -- What the providers register, and the health check over HTTP.
  unfoldable pub version_env : MemberEnv W
  unfolding init_client_v2 init_client_v3 member_healthy
  version_env = record {
    factories = (text "v3", init_client_v3) ∷ (text "v2", init_client_v2) ∷ [];
    member_healthy = member_healthy health;
  }
