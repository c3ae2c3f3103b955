-- ===== src/Lib.antt =====
-- kstone: etcd clusters managed from Kubernetes.
--
-- A controller (pkg/controllers/etcdcluster) takes the key of an EtcdCluster from a work queue,
-- reads the resource, and brings it forward: it chooses an action by the conditions in the status,
-- calls the hooks of the provider for the type of the cluster, writes the status back, and, once
-- the cluster runs, sets its labels and calls its features. Two providers implement the hooks: one
-- hands the cluster to etcd-operator, the other only watches an imported cluster. Both read the
-- members and their health through clients of etcd.
--
-- Base (and Base/*): Go strings as lists of bytes, maps as association lists, decimal numbers,
--   and effects: a function takes the world and returns it with its results, and `none` is a
--   panic. An error is a value beside the result, as in Go.
-- Api: pkg/apis/kstone/v1alpha2/types.go. Times are numbers; values of k8s.io/api that are passed
--   on are of a type `X`.
-- FeatureGate: pkg/featureprovider/util/util.go, IsFeatureGateEnabled. Features: the features of
--   pkg/featureprovider/providers and the instance of the inspection server that they share. Sync of
--   a feature returns the cluster behind the pointer, into whose labels the monitor writes.
-- Interfaces: clusterprovider.Cluster, featureprovider.Feature, and what the controller calls.
-- Controller: pkg/controllers/etcdcluster/etcdclusters_controller.go, getDesiredAction,
--   generateConditions, handleClusterCreate, handleClusterUpdate, handleClusterStatus and
--   handleClusterManagement. Controller/Reconcile: handleClusterLabels, handleClusterFeature,
--   reconcileEtcdCluster and syncEtcdCluster. A handler takes the cluster behind the pointer and
--   returns it. The map of labels that the handler shares with the cluster is written out.
-- WorkQueue: ProcessWorkQueue of pkg/controllers/util/util.go, and processNextWorkItem.
-- Members: pkg/clusterprovider/helper.go and the registry of pkg/etcd/client/version.go.
-- Unstructured: JSON values, and the accessors of package unstructured as parameters.
-- Operator: pkg/clusterprovider/providers/kstone/kstone.go. Operator/Generate: generateEtcdSpec;
--   Operator/Compare: Equal and resourceEqual; Operator/Provider: the calls of the API server,
--   Status and the hooks together.
-- Imported: pkg/clusterprovider/providers/imported/cluster.go.
-- Auth: pkg/authentication/store.go, the operations on users over one ConfigMap. Auth/Token:
--   pkg/authentication/token/jwt and the answers of helper.go; Auth/Request: request/request.go.
-- ClientSecret: pkg/etcd/client.go, New.
-- Encoding: pkg/etcd/encoding.go, DetectAndExtract; Encoding/Convert: ConvertToData, ConvertToJSON.
--   The loop of tryFindJSON takes one more fuel than the value has bytes, which suffices since each
--   round drops a byte.
-- EtcdClient: pkg/etcd/helper.go, the clients of both versions; EtcdClient/Files: the files of
--   certificates; EtcdClient/Command: AddMemberWithCmd; EtcdClient/Versions: pkg/etcd/client/versions.
-- EtcdHealth: pkg/etcd/health.go and MemberHealthy. EtcdStats: pkg/etcd/stats.go.
-- Monitor: pkg/monitor/prometheus.go; Monitor/Generate: the objects that it makes; Monitor/Sync:
--   Equal, CleanPrometheusMonitor, SyncPrometheusMonitor and the feature of
--   pkg/featureprovider/providers/monitor.
-- Metrics: pkg/inspection/metrics, as calls of one collector.
-- Inspection: pkg/inspection/inspection.go, Equal and Sync of an inspection task.
--   Inspection/Consistency: pkg/inspection/consistency.go, the difference of a counter, and
--   Inspection/Difference: its collection. Inspection/Request and Inspection/Watch:
--   pkg/inspection/request.go. Inspection/Collect: alarm.go and healthy.go.
-- BackupCheck: pkg/inspection/backupcheck.go, Stat of pkg/backup/providers, pkg/backup/util.go.
-- InspectionController: pkg/controllers/etcdinspection/etcdinspection_controller.go, the
--   synchronisation of a key.
-- Backup: pkg/backup/backup.go; Backup/Sync: its comparison and synchronisation, and
--   pkg/featureprovider/providers/backup/backup.go.
-- Router: pkg/router/router.go, ReverseProxy, EtcdKeyList and BackupList.
-- Registry: the plugins.go of pkg/clusterprovider, pkg/featureprovider, pkg/backup and
--   pkg/authentication, as one generic registry.
-- Examples: the theorems at concrete inputs.
--
-- Parameters: the API server, the event recorder, the clock, the clients of etcd, the health check
-- of a member, HTTP, the file system, the object stores, Prometheus, the queue of client-go, and
-- the printing and JSON of values of k8s.io/api. What a theorem relies on in them is a record of
-- laws (QueueLaws, AccessorLaws, ForeignLaws, StoreLaws, JwtLaws, InspectionLaws, FileLaws,
-- MonitorLaws, CollectorLaws). The goroutines of the members of a cluster are taken in the order
-- of the list; the endpoint that one reads in the configuration that all of them write is a
-- parameter. The clock of Stat is read once for each object. The loop over the features takes them
-- in the order of a list, for any list. A uint that bounds a loop or is printed is converted to a
-- 64-bit int as Go does. All loops but that of tryFindJSON run over a slice, a string or a count.
--
-- Not modelled: informers and start-up, generated clients, the copy of etcd-operator, logging, and
-- the parts of pkg/ that are not named above.
pub mod Base
pub mod Api
pub mod FeatureGate
pub mod Interfaces
pub mod Controller
pub mod WorkQueue
pub mod Members
pub mod Unstructured
pub mod Operator
pub mod Imported
pub mod Auth
pub mod Backup
pub mod BackupCheck
pub mod ClientSecret
pub mod Encoding
pub mod EtcdClient
pub mod EtcdHealth
pub mod EtcdStats
pub mod Examples
pub mod Features
pub mod Inspection
pub mod InspectionController
pub mod Metrics
pub mod Monitor
pub mod Registry
pub mod Router
