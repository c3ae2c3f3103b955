-- ===== src/Inspection/Difference.antt =====
-- pkg/inspection/consistency.go, getEtcdConsistentMetadata and CollectClusterConsistentData: the
-- differences between the members of a cluster. The goroutines run one after another, in the order
-- of the list of members that is given.
use kstone.Base.{ℕ, Bool, true, false, Option, none, some, List, [], ◌∷◌, ◌++◌, if◌then◌else◌}
use kstone.Base.Text.{Text, text, has_prefix}
use kstone.Base.Effect.{Go, Error, pure, ◌>>=◌, ◌>>◌}
use kstone.Api.{Cluster, MemberStatus, Inspection}
use kstone.Interfaces.{Result, ok, err, ClientConfig}
use kstone.EtcdClient.{EtcdLibrary}
use kstone.EtcdStats.{ConsistencyType, Metadata, Stat, StatCalls, new_etcd_stat_backend}
use kstone.Metrics.{Metric, Change, cluster_name, count_failure}
use kstone.Inspection.Consistency.{spread}
use kstone.Inspection.Collect.{Server, get_etcd_cluster_info}

abbrev pub same_type : ConsistencyType → ConsistencyType → Bool
same_type ConsistencyType.key_total ConsistencyType.key_total = true
same_type ConsistencyType.revision ConsistencyType.revision = true
same_type ConsistencyType.index ConsistencyType.index = true
same_type ConsistencyType.raft_applied_index ConsistencyType.raft_applied_index = true
same_type ConsistencyType.raft_index ConsistencyType.raft_index = true
same_type _ _ = false

abbrev pub metric_of : ConsistencyType → Metric
metric_of ConsistencyType.key_total = Metric.etcd_node_diff_total
metric_of ConsistencyType.revision = Metric.etcd_node_revision_diff
metric_of ConsistencyType.index = Metric.etcd_node_index_diff
metric_of ConsistencyType.raft_applied_index = Metric.etcd_node_raft_applied_index_diff
metric_of ConsistencyType.raft_index = Metric.etcd_node_raft_index_diff

-- The values of a type in the metadata of a member, and in those of all members.
unfoldable pub member_values : ConsistencyType → Metadata → List ℕ
member_values t [] = []
member_values t ((u, v) ∷ m) = if same_type u t then v ∷ member_values t m else member_values t m

unfoldable pub endpoint_values : ConsistencyType → List Metadata → List ℕ
unfolding member_values
endpoint_values t [] = []
endpoint_values t (m ∷ ms) = member_values t m ++ endpoint_values t ms

unfoldable pub with_total : Metadata → Result ℕ → Result Metadata
with_total m (err e) = err e
with_total m (ok n) = ok (m ++ (ConsistencyType.key_total, n) ∷ [])

abbrev pub storage_of : MemberStatus → Text
storage_of m = if has_prefix m.version (text "2") then text "v2" else text "v3"

-- The first error is the answer, after all goroutines ended.
unfoldable pub joined : Result Metadata → Result (List Metadata) → Result (List Metadata)
joined (err e) rest = err e
joined (ok m) (err e) = err e
joined (ok m) (ok ms) = ok (m ∷ ms)

abbrev pub all_types : List ConsistencyType
all_types =
    ConsistencyType.key_total ∷ ConsistencyType.revision ∷ ConsistencyType.index
    ∷ ConsistencyType.raft_applied_index ∷ ConsistencyType.raft_index ∷ []

module _ {W X K Client2 Client : Type 0} (lib : EtcdLibrary W K Client2 Client)
    (calls : StatCalls W Client2 Client) (server : Server W X Client) where
  unfoldable pub with_index : Text → Stat W → Result Metadata → Go W (Result Metadata)
  unfolding with_total
  with_index prefix stat (err e) = pure (err e)
  with_index prefix stat (ok m) = do n ← stat.get_total_key_num prefix; pure (with_total m n)

  unfoldable pub with_stat : Text → Text → Result (Stat W) → Go W (Result Metadata)
  unfolding with_index
  with_stat endpoint prefix (err e) = pure (err e)
  with_stat endpoint prefix (ok stat) = do
    m ← stat.get_index endpoint
    r ← with_index prefix stat m
    stat.close
    pure r

  -- What one goroutine does. All goroutines write their endpoint into the one configuration that they
  -- share: `held` answers, for the endpoint that a goroutine wrote, the one that it then reads, its
  -- own or that of another member.
  unfoldable pub member_metadata :
      (Text → Text) → Text → ClientConfig → MemberStatus → Go W (Result Metadata)
  unfolding with_stat new_etcd_stat_backend
  member_metadata held prefix config m = do
    (used, stat) ←
        new_etcd_stat_backend lib calls (storage_of m)
          (record config { endpoints = held m.extension_client_url ∷ [] })
    with_stat m.extension_client_url prefix stat

  unfoldable pub get_etcd_consistent_metadata :
      (Text → Text) → Text → ClientConfig → List MemberStatus → Go W (Result (List Metadata))
  unfolding member_metadata joined
  get_etcd_consistent_metadata held prefix config [] = pure (ok [])
  get_etcd_consistent_metadata held prefix config (m ∷ ms) = do
    r ← member_metadata held prefix config m
    rest ← get_etcd_consistent_metadata held prefix config ms
    pure (joined r rest)

  -- A type that no member has is not in the map.
  unfoldable pub report_difference : Text → ConsistencyType → Option ℕ → Go W (Unit {0})
  report_difference cluster t none = pure tt
  report_difference cluster t (some v) =
      server.collector (metric_of t) ((cluster_name, cluster) ∷ []) (Change.set_to v)

  unfoldable pub report_differences : Text → List Metadata → List ConsistencyType → Go W (Unit {0})
  unfolding report_difference endpoint_values spread
  report_differences cluster ms [] = pure tt
  report_differences cluster ms (t ∷ ts) = do
    report_difference cluster t (spread (endpoint_values t ms))
    report_differences cluster ms ts

  -- An error of the members is counted, and not returned.
  unfoldable pub reported : Text → Result (List Metadata) → Go W (Option Error)
  unfolding report_differences
  reported cluster (err e) = pure (some e)
  reported cluster (ok ms) = do report_differences cluster ms all_types; pure none

  unfoldable pub collect_found :
      (Text → Text) → Result (Cluster X × ClientConfig) → Go W (Option Error × Option Error)
  unfolding get_etcd_consistent_metadata reported
  collect_found held (err e) = pure (some e, some e)
  collect_found held (ok (c, config)) = do
    ms ← get_etcd_consistent_metadata held [] config c.status.members
    e ← reported c.name ms
    pure (none, e)

  unfoldable pub collect_cluster_consistent_data : (Text → Text) → Inspection → Go W (Option Error)
  unfolding collect_found get_etcd_cluster_info count_failure
  collect_cluster_consistent_data held i = do
    r ← get_etcd_cluster_info lib server i.namespace i.spec.cluster_name
    (returned, counted) ← collect_found held r
    count_failure server.collector i.spec.cluster_name (text "consistency") counted
    pure returned
