-- ===== src/Metrics.antt =====
-- pkg/inspection/metrics: the metrics of the inspections, with the names of their labels, and
-- IncrFailedInspectionCounter of pkg/featureprovider/util. The Prometheus client is a parameter.
pub mod Trace
use kstone.Base.{
  ℕ, suc, ◌≡◌, Bool, true, false, ◌&&◌, Option, none, some, List, [], ◌∷◌, ◌++◌, length, ◌==◌, all,
  if◌then◌else◌,
}
use kstone.Base.Text.{Text, text}
use kstone.Base.Utf8.{is_utf8}
use kstone.Base.Dict.{Dict, lookup}
use kstone.Base.Effect.{Go, Error, pure, ◌>>=◌, ◌>>◌}

pub data Metric : Type 0 where
  etcd_node_diff_total etcd_endpoint_healthy etcd_request_total etcd_key_total etcd_endpoint_alarm :
      Metric
  etcd_node_revision_diff etcd_node_index_diff etcd_node_raft_applied_index_diff : Metric
  etcd_node_raft_index_diff etcd_backup_files etcd_failed_backup_files : Metric
  etcd_inspection_failed_num : Metric

abbrev pub cluster_name : Text
cluster_name = text "clusterName"

unfoldable pub label_names : Metric → List Text
label_names Metric.etcd_node_diff_total = cluster_name ∷ []
label_names Metric.etcd_endpoint_healthy = cluster_name ∷ text "endpoint" ∷ []
label_names Metric.etcd_request_total =
    cluster_name ∷ text "grpcMethod" ∷ text "etcdPrefix" ∷ text "resourceName" ∷ []
label_names Metric.etcd_key_total = cluster_name ∷ text "etcdPrefix" ∷ text "resourceName" ∷ []
label_names Metric.etcd_endpoint_alarm = cluster_name ∷ text "endpoint" ∷ text "alarmType" ∷ []
label_names Metric.etcd_node_revision_diff = cluster_name ∷ []
label_names Metric.etcd_node_index_diff = cluster_name ∷ []
label_names Metric.etcd_node_raft_applied_index_diff = cluster_name ∷ []
label_names Metric.etcd_node_raft_index_diff = cluster_name ∷ []
label_names Metric.etcd_backup_files = cluster_name ∷ []
label_names Metric.etcd_failed_backup_files = cluster_name ∷ []
label_names Metric.etcd_inspection_failed_num = cluster_name ∷ text "inspectionType" ∷ []

-- What is done to the metric that With finds.
pub data Change : Type 0 where
  set_to : ℕ → Change
  increment decrement : Change

-- With and then the change. With panics unless the labels are those of the metric and their values
-- are UTF-8.
abbrev pub Collector : Type 0 → Type 0
Collector W = Metric → Dict Text → Change → Go W (Unit {0})

unfoldable pub incr_failed_inspection_counter :
    {W : Type 0} → Collector W → Text → Text → Go W (Unit {0})
incr_failed_inspection_counter collector cluster feature =
    collector Metric.etcd_inspection_failed_num
      ((cluster_name, cluster) ∷ (text "inspectionType", feature) ∷ []) Change.increment

-- The deferred count of an inspection that failed.
unfoldable pub count_failure :
    {W : Type 0} → Collector W → Text → Text → Option Error → Go W (Unit {0})
unfolding incr_failed_inspection_counter
count_failure collector cluster feature none = pure tt
count_failure collector cluster feature (some e) =
    incr_failed_inspection_counter collector cluster feature

-- The values of the labels, in the order of their names, if they are the metric's.
unfoldable pub values_of : List Text → Dict Text → Option (List Text)
values_of [] labels = some []
values_of (n ∷ ns) labels = elim (lookup n labels) [
  | none ↦ none
  | some v ↦ elim (values_of ns labels) [ none ↦ none | some vs ↦ some (v ∷ vs) ]
]

unfoldable pub label_values : Metric → Dict Text → Option (List Text)
unfolding label_names values_of
label_values m labels =
    if length labels == length (label_names m) then values_of (label_names m) labels else none

pub record Entry : Type 0 where
  pub metric : Metric
  pub values : List Text
  pub change : Change

-- A change with the labels of its metric, whose values are UTF-8, is made; `log` lists the changes.
pub record CollectorLaws {W : Type 0} (collector : Collector W) (log : W → List Entry)
    : Type 0 where
  pub made :
      (m : Metric) (labels : Dict Text) (values : List Text) (ch : Change) (w : W)
      → label_values m labels ≡ some values
      → all is_utf8 values ≡ true
      → (w' : W) × (collector m labels ch w ≡ some (tt, w'))
        × (log w' ≡ log w ++ record { metric = m; values = values; change = ch } ∷ [])
