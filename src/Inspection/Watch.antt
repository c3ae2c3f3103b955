-- ===== src/Inspection/Watch.antt =====
-- pkg/inspection/request.go, CollectEtcdClusterRequest: the first inspection of a cluster lists its
-- keys and starts to watch it. The maps of the server and its goroutines are parameters.
use kstone.Base.{Bool, true, false, Option, none, some, List, []}
use kstone.Base.Text.{Text, text}
use kstone.Base.Dict.{find}
use kstone.Base.Effect.{Go, Error, pure, ◌>>=◌, ◌>>◌}
use kstone.Api.{Cluster, Inspection}
use kstone.Interfaces.{Result, ok, err, ClientConfig}
use kstone.Members.{get_storage_member_endpoints}
use kstone.EtcdClient.{EtcdLibrary, new_client_v3}
use kstone.Metrics.{count_failure}
use kstone.Inspection.Collect.{Server, get_etcd_cluster_info}
use kstone.Inspection.Request.{populate_cluster_total_key_metrics}

-- The watchers by the name of the cluster; `path_of` is json.Unmarshal into a RequestInfo, whose Path
-- is read; `start` stores the client, the channel and the watcher, and starts the two goroutines.
pub record WatchEnv (W Client : Type 0) : Type 0 where
  pub is_watched : Text → W → Bool
  pub path_of : Text → Result Text
  pub get_keys : Client → Text → Go W (Result (List Text))
  pub start : Text → Client → Text → Go W (Unit {0})

unfoldable pub parsed_key : Result Text → Text
parsed_key (ok path) = path
parsed_key (err e) = []

-- The error that is returned, and the one that the deferred function counts.
abbrev pub Outcome : Type 0
Outcome = Option Error × Option Error

module _ {W X K Client2 Client : Type 0} (lib : EtcdLibrary W K Client2 Client)
    (server : Server W X Client) (env : WatchEnv W Client) where
  unfoldable pub watch_key : Cluster X → Text
  unfolding parsed_key
  watch_key c = elim (find (text "request") c.annotations) [
    | none ↦ []
    | some info ↦ parsed_key (env.path_of info)
  ]

  -- An annotation that does not parse leaves its error in the variable, which the next call
  -- overwrites. The error of the listing is returned, but is not the variable that is counted.
  unfoldable pub keys_listed : Cluster X → Client → Text → Result (List Text) → Go W Outcome
  unfolding populate_cluster_total_key_metrics
  keys_listed c client key (err e) = pure (some e, none)
  keys_listed c client key (ok keys) = do
    populate_cluster_total_key_metrics server.collector c.name keys
    env.start c.name client key
    pure (none, none)

  unfoldable pub with_client : Cluster X → Text → Result Client → Go W Outcome
  unfolding keys_listed
  with_client c key (err e) = pure (some e, some e)
  with_client c key (ok client) = do keys ← env.get_keys client key; keys_listed c client key keys

  unfoldable pub start_watching : Cluster X → ClientConfig → Go W Outcome
  unfolding with_client watch_key new_client_v3 get_storage_member_endpoints
  start_watching c config = do
    (used, client) ←
        new_client_v3 lib (record config { endpoints = get_storage_member_endpoints c })
    with_client c (watch_key c) client

  -- A cluster that is watched is left alone.
  unfoldable pub unless_watched : Cluster X → ClientConfig → Bool → Go W Outcome
  unfolding start_watching
  unless_watched c config true = pure (none, none)
  unless_watched c config false = start_watching c config

  unfoldable pub request_found : Result (Cluster X × ClientConfig) → Go W Outcome
  unfolding unless_watched
  request_found (err e) w = pure (some e, some e) w
  request_found (ok (c, config)) w = unless_watched c config (env.is_watched c.name w) w

  unfoldable pub collect_etcd_cluster_request : Inspection → Go W (Option Error)
  unfolding request_found get_etcd_cluster_info count_failure
  collect_etcd_cluster_request i = do
    r ← get_etcd_cluster_info lib server i.namespace i.spec.cluster_name
    (returned, counted) ← request_found r
    count_failure server.collector i.spec.cluster_name (text "request") counted
    pure returned
