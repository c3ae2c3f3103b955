-- ===== src/Inspection/Collect.antt =====
-- pkg/inspection: GetEtcdClusterInfo, and the inspections of the alarms (alarm.go) and of the health
-- (healthy.go) of the members; GetEtcdAlarms of pkg/clusterprovider/helper.go.
use kstone.Base.{ℕ, Bool, true, false, Option, none, some, List, [], ◌∷◌, ◌++◌, get_or}
use kstone.Base.Text.{Text, text, text_eq}
use kstone.Base.Decimal.{itoa}
use kstone.Base.Dict.{find}
use kstone.Base.Effect.{Go, Error, pure, ◌>>=◌, ◌>>◌}
use kstone.Api.{Cluster, MemberStatus, Inspection}
use kstone.Interfaces.{Result, ok, err, ClientConfig}
use kstone.Controller.{cert_name}
use kstone.EtcdClient.{EtcdLibrary, new_client_v3}
use kstone.Metrics.{Metric, Change, Collector, cluster_name, count_failure}

-- EtcdAlarm
pub record EtcdAlarm : Type 0 where
  pub member_id : ℕ
  pub alarm_type : Text

-- The clusters of the API server, the client configuration of a cluster (ClientSecret), the metrics,
-- the alarms that a client lists with its Close, and the health check of a member (EtcdHealth).
pub record Server (W X Client : Type 0) : Type 0 where
  pub get_etcd_cluster : Text → Text → Go W (Result (Cluster X))
  pub client_config : Text → Text → Go W (Result ClientConfig)
  pub collector : Collector W
  pub alarm_list : Client → Go W (Result (List EtcdAlarm))
  pub close : Client → Go W (Unit {0})
  pub member_healthy : Text → ClientConfig → Go W (Bool × Option Error)

abbrev pub alarm_type_list : List Text
alarm_type_list = text "NOSPACE" ∷ text "CORRUPT" ∷ []

abbrev pub with_cluster :
    {X : Type 0} → Cluster X → Result ClientConfig → Result (Cluster X × ClientConfig)
with_cluster c (err e) = err e
with_cluster c (ok config) = ok (c, config)

abbrev pub alarm_labels : Text → Text → Text → List (Text × Text)
alarm_labels cluster endpoint alarm =
    (cluster_name, cluster) ∷ (text "endpoint", endpoint) ∷ (text "alarmType", alarm) ∷ []

abbrev pub health_labels : Text → Text → List (Text × Text)
health_labels cluster endpoint = (cluster_name, cluster) ∷ (text "endpoint", endpoint) ∷ []

module _ {W X K Client2 Client : Type 0} (lib : EtcdLibrary W K Client2 Client)
    (server : Server W X Client) where
  unfoldable pub cluster_found : Result (Cluster X) → Go W (Result (Cluster X × ClientConfig))
  cluster_found (err e) = pure (err e)
  cluster_found (ok c) = do
    r ←
        server.client_config (c.namespace ++ (text "/" ++ c.name))
          (get_or (find cert_name c.annotations) [])
    pure (with_cluster c r)

  unfoldable pub get_etcd_cluster_info : Text → Text → Go W (Result (Cluster X × ClientConfig))
  unfolding cluster_found
  get_etcd_cluster_info namespace name = do
    r ← server.get_etcd_cluster namespace name
    cluster_found r

  -- The client is closed after the call.
  unfoldable pub with_alarm_client : Result Client → Go W (Result (List EtcdAlarm))
  with_alarm_client (err e) = pure (err e)
  with_alarm_client (ok client) = do
    alarms ← server.alarm_list client
    server.close client
    pure alarms

  unfoldable pub get_etcd_alarms : List Text → ClientConfig → Go W (Result (List EtcdAlarm))
  unfolding with_alarm_client new_client_v3
  get_etcd_alarms endpoints config = do
    (c, client) ← new_client_v3 lib (record config { endpoints = endpoints })
    with_alarm_client client

  unfoldable pub clean_types : Text → Text → List Text → Go W (Unit {0})
  clean_types cluster endpoint [] = pure tt
  clean_types cluster endpoint (t ∷ ts) = do
    server.collector Metric.etcd_endpoint_alarm (alarm_labels cluster endpoint t) (Change.set_to 0)
    clean_types cluster endpoint ts

  unfoldable pub clean_all_alarm_metrics : Text → Text → Go W (Unit {0})
  unfolding clean_types
  clean_all_alarm_metrics cluster endpoint = clean_types cluster endpoint alarm_type_list

  unfoldable pub raise_alarm : Bool → Text → MemberStatus → EtcdAlarm → Go W (Unit {0})
  raise_alarm false cluster m a = pure tt
  raise_alarm true cluster m a =
      server.collector Metric.etcd_endpoint_alarm (alarm_labels cluster m.endpoint a.alarm_type)
        (Change.set_to 1)

  unfoldable pub member_alarms : Text → MemberStatus → List EtcdAlarm → Go W (Unit {0})
  unfolding raise_alarm
  member_alarms cluster m [] = pure tt
  member_alarms cluster m (a ∷ alarms) = do
    raise_alarm (text_eq m.member_id (itoa a.member_id)) cluster m a
    member_alarms cluster m alarms

  -- With no alarm at all, the member's metrics are reset.
  unfoldable pub inspect_member : Text → List EtcdAlarm → MemberStatus → Go W (Unit {0})
  unfolding member_alarms clean_all_alarm_metrics
  inspect_member cluster [] m = clean_all_alarm_metrics cluster m.endpoint
  inspect_member cluster (a ∷ alarms) m = member_alarms cluster m (a ∷ alarms)

  unfoldable pub inspect_members : Text → List EtcdAlarm → List MemberStatus → Go W (Unit {0})
  unfolding inspect_member
  inspect_members cluster alarms [] = pure tt
  inspect_members cluster alarms (m ∷ ms) = do
    inspect_member cluster alarms m
    inspect_members cluster alarms ms

  unfoldable pub alarms_listed : Cluster X → Result (List EtcdAlarm) → Go W (Option Error)
  unfolding inspect_members
  alarms_listed c (err e) = pure (some e)
  alarms_listed c (ok alarms) = do inspect_members c.name alarms c.status.members; pure none

  unfoldable pub collect_alarms_of : Result (Cluster X × ClientConfig) → Go W (Option Error)
  unfolding alarms_listed get_etcd_alarms
  collect_alarms_of (err e) = pure (some e)
  collect_alarms_of (ok (c, config)) = do
    alarms ← get_etcd_alarms (c.status.service_name ∷ []) config
    alarms_listed c alarms

  -- An inspection, with the deferred count of its failure.
  unfoldable pub collect :
      Text
      → (Result (Cluster X × ClientConfig) → Go W (Option Error))
      → Inspection
      → Go W (Option Error)
  unfolding get_etcd_cluster_info count_failure
  collect feature inspect i = do
    r ← get_etcd_cluster_info i.namespace i.spec.cluster_name
    e ← inspect r
    count_failure server.collector i.spec.cluster_name feature e
    pure e

  unfoldable pub collect_alarm_list : Inspection → Go W (Option Error)
  unfolding collect collect_alarms_of
  collect_alarm_list i = collect (text "alarm") collect_alarms_of i

  abbrev pub health_value : Bool × Option Error → ℕ
  health_value (true, none) = 1
  health_value _ = 0

  unfoldable pub check_members : Text → ClientConfig → List MemberStatus → Go W (Unit {0})
  check_members cluster config [] = pure tt
  check_members cluster config (m ∷ ms) = do
    healthy ← server.member_healthy m.extension_client_url config
    server.collector Metric.etcd_endpoint_healthy (health_labels cluster m.endpoint)
        (Change.set_to (health_value healthy))
    check_members cluster config ms

  unfoldable pub collect_health_of : Result (Cluster X × ClientConfig) → Go W (Option Error)
  unfolding check_members
  collect_health_of (err e) = pure (some e)
  collect_health_of (ok (c, config)) = do check_members c.name config c.status.members; pure none

  unfoldable pub collect_member_healthy : Inspection → Go W (Option Error)
  unfolding collect collect_health_of
  collect_member_healthy i = collect (text "healthy") collect_health_of i
