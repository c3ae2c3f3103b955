-- ===== src/Inspection/Request.antt =====
-- pkg/inspection/request.go: the counters of the keys and of the requests of a cluster, from the keys
-- that etcd lists and the events that it sends.
use kstone.Base.{Bool, true, false, Option, none, some, List, [], ◌∷◌, ◌++◌, if◌then◌else◌}
use kstone.Base.Text.{Text, text, split}
use kstone.Base.Dict.{Dict, insert, delete}
use kstone.Base.Effect.{Go, Error, new_error, pure, ◌>>=◌, ◌>>◌}
use kstone.Metrics.{Metric, Change, Collector, cluster_name}

pub data EventType : Type 0 where
  put delete_key : EventType

-- clientv3.Event: the key, and whether IsCreate holds.
pub record Event : Type 0 where
  pub event_type : EventType
  pub key : Text
  pub is_create : Bool

pub record WatchResponse : Type 0 where
  pub canceled : Bool
  pub events : List Event

abbrev pub etcd_prefix : Text
etcd_prefix = text "etcdPrefix"

abbrev pub resource_name : Text
resource_name = text "resourceName"

abbrev pub grpc_method : Text
grpc_method = text "grpcMethod"

unfoldable pub set_parts : Dict Text → List Text → Dict Text
set_parts labels (root ∷ prefix ∷ []) = insert etcd_prefix prefix labels
set_parts labels (root ∷ prefix ∷ resource ∷ more) =
    insert resource_name resource (insert etcd_prefix prefix labels)
set_parts labels _ = labels

unfoldable pub set_etcd_prefix_and_resource_name : Dict Text → Text → Dict Text
unfolding set_parts
set_etcd_prefix_and_resource_name labels key =
    set_parts (insert resource_name [] (insert etcd_prefix [] labels)) (split b'/' key)

-- The channel between watch and processWatchEvent keeps the order. A response that is canceled ends
-- the watch with an error; what it holds is not sent.
unfoldable pub watch : List WatchResponse → List Event × Option Error
watch [] = ([], none)
watch (r ∷ rs) =
    let rest = watch rs in
    if r.canceled
    then ([], some (new_error (text "watch failure")))
    else (r.events ++ rest.0, rest.1)

module _ {W : Type 0} (collector : Collector W) where
  unfoldable pub populate_keys : Dict Text → List Text → Go W (Unit {0})
  unfolding set_etcd_prefix_and_resource_name
  populate_keys labels [] = pure tt
  populate_keys labels (key ∷ keys) = do
    let labels' = set_etcd_prefix_and_resource_name labels key
    collector Metric.etcd_key_total labels' Change.increment
    populate_keys labels' keys

  unfoldable pub populate_cluster_total_key_metrics : Text → List Text → Go W (Unit {0})
  unfolding populate_keys
  populate_cluster_total_key_metrics cluster keys =
      populate_keys ((cluster_name, cluster) ∷ []) keys

  unfoldable pub count_create : Bool → Dict Text → Go W (Unit {0})
  count_create true labels = collector Metric.etcd_key_total labels Change.increment
  count_create false labels = pure tt

  -- One event: the labels that it leaves, in the map that all events share.
  unfoldable pub process_put : Dict Text → Event → Go W (Dict Text)
  unfolding set_etcd_prefix_and_resource_name count_create
  process_put labels ev = do
    let keyed = set_etcd_prefix_and_resource_name labels ev.key
    count_create ev.is_create keyed
    let counted = insert grpc_method (text "PUT") keyed
    collector Metric.etcd_request_total counted Change.increment
    pure counted

  unfoldable pub process_delete : Dict Text → Event → Go W (Dict Text)
  unfolding set_etcd_prefix_and_resource_name
  process_delete labels ev = do
    let keyed = set_etcd_prefix_and_resource_name labels ev.key
    collector Metric.etcd_key_total keyed Change.decrement
    let counted = insert grpc_method (text "Delete") keyed
    collector Metric.etcd_request_total counted Change.increment
    pure counted

  unfoldable pub process_event : EventType → Dict Text → Event → Go W (Dict Text)
  unfolding process_put process_delete
  process_event EventType.put labels ev = process_put labels ev
  process_event EventType.delete_key labels ev = process_delete labels ev

  unfoldable pub process_events : Dict Text → List Event → Go W (Unit {0})
  unfolding process_event
  process_events labels [] = pure tt
  process_events labels (ev ∷ evs) = do
    labels' ← process_event ev.event_type (delete grpc_method labels) ev
    process_events labels' evs

  unfoldable pub process_watch_event : Text → List Event → Go W (Unit {0})
  unfolding process_events
  process_watch_event cluster evs = process_events ((cluster_name, cluster) ∷ []) evs
