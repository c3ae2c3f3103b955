-- ===== src/Examples/Monitors.antt =====
-- The theorems on the monitor of a cluster at concrete inputs.
use kstone.Base.{ℕ, ◌≡◌, refl, sym, true, false, ◌&&◌, Option, none, some, [], if◌then◌else◌}
use kstone.Base.Text.{Text, text, text_eq, text_eq_refl}
use kstone.Base.Dict.{Dict, lookup, insert}
use kstone.Base.Effect.{Error, Reason}
use kstone.Api.{Cluster}
use kstone.Interfaces.{Result, ok, err}
use kstone.FeatureGate.{is_feature_gate_enabled}
use kstone.Monitor.{Service, ServiceMonitor}
use kstone.Monitor.Sync.{
  MonitorEnv, monitor, delete_error, feature_sync, feature_equal, sync_prometheus_monitor,
}
use kstone.Monitor.Store.{MonitorLaws, disabled-feature_equal}
use kstone.Monitor.Stored.{Kept, wanted_labels, sync_prometheus_monitor-Kept}
use kstone.Monitor.Sync.{monitor_feature}
use kstone.Monitor.Frame.{monitor_feature-SyncFrames}
use kstone.Controller.Features.{SyncFrames}
use kstone.Examples.{cluster}

-- A server with room for one service and one monitor.
abbrev Room : Type 0
Room = Option Service × Option ServiceMonitor

abbrev missing : Error
missing = record { reason = Reason.not_found; message = text "not found" }

abbrev kept_at : {O : Type 0} → (O → Text) → (O → Text) → Option O → Text → Text → Option O
kept_at namespace_of name_of none namespace name = none
kept_at namespace_of name_of (some o) namespace name =
    if text_eq (namespace_of o) namespace && text_eq (name_of o) name then some o else none

abbrev answer : {O : Type 0} → Option O → Result O
answer none = err missing
answer (some o) = ok o

abbrev service_at : Room → Text → Text → Option Service
service_at w = kept_at (λ s. s.namespace) (λ s. s.name) w.0

abbrev monitor_at : Room → Text → Text → Option ServiceMonitor
monitor_at w = kept_at (λ m. m.namespace) (λ m. m.name) w.1

abbrev api : MonitorEnv Room ℕ
api = record {
  services = record {
    get = λ namespace name w. some (answer (service_at w namespace name), w);
    create = λ s w. some (none, (some s, w.1));
    update = λ s w. some (none, (some s, w.1));
    delete = λ namespace name w. some (none, (none, w.1));
  };
  endpoints = record {
    get = λ namespace name w. some (err missing, w);
    create = λ e w. some (none, w);
    update = λ e w. some (none, w);
    delete = λ namespace name w. some (none, w);
  };
  monitors = record {
    get = λ namespace name w. some (answer (monitor_at w namespace name), w);
    create = λ m w. some (none, (w.0, some (record m { resource_version = text "5" })));
    update = λ m w. some (none, (w.0, some (record m { resource_version = text "6" })));
    delete = λ namespace name w. some (none, (w.0, none));
  };
  own_service = λ c s. ok (record s { owner = some c.name });
  own_monitor = λ c m. ok (record m { owner = some c.name });
}

answer-ok : {O : Type 0} (o : Option O) {x : O} → answer o ≡ ok x → o ≡ some x
answer-ok none h = absurd (cc)
answer-ok (some y) h = cc

kept_self :
    (m : ServiceMonitor) (s : Option Service) → monitor_at (s, some m) m.namespace m.name ≡ some m
kept_self m s = rw (text_eq_refl m.namespace) (rw (text_eq_refl m.name) refl)

api-MonitorLaws : MonitorLaws api service_at monitor_at
unfolding delete_error
api-MonitorLaws = record {
  monitor_deleted = λ namespace name e w w' h d. (let k : (w.0, none) ≡ w' = cc in rw (sym k) refl);
  service_deleted =
      λ namespace name e w w' h d. (let k : (none, w.1) ≡ w' = cc in rw (sym k) (refl, refl));
  monitor_absent = λ namespace name w h. (missing, w, rw h refl, refl, refl);
  service_absent = λ namespace name w h. (missing, w, rw h refl, refl);
  monitor_got = λ namespace name m w w' h.
      (let k : w ≡ w' = cc in rw (sym k) (answer-ok (monitor_at w namespace name) (cc)));
  monitor_created = λ m w w' h. (
    text "5",
    (let n = record m { resource_version = text "5" } in
        let k : (w.0, some n) ≡ w' = cc in rw (sym k) (kept_self n w.0)),
  );
  monitor_updated = λ m w w' h. (
    text "6",
    (let n = record m { resource_version = text "6" } in
        let k : (w.0, some n) ≡ w' = cc in rw (sym k) (kept_self n w.0)),
  );
  owned = λ c m n h. (let k : record m { owner = some c.name } ≡ n = cc in rw (sym k) (refl, refl));
}

cluster_disabled : is_feature_gate_enabled cluster.annotations monitor ≡ false
unfolding is_feature_gate_enabled lookup text_eq
cluster_disabled = refl

cluster_cleaned : feature_sync api cluster (none, none) ≡ some ((cluster, none), (none, none))
unfolding feature_sync is_feature_gate_enabled lookup text_eq
cluster_cleaned = refl

disabled-feature_equal_example :
    (w : Room) × (feature_equal api cluster (none, none) ≡ some (true, w))
disabled-feature_equal_example =
    disabled-feature_equal api-MonitorLaws cluster cluster (none, none) (none, none)
      cluster_disabled cluster_cleaned

-- A cluster with a map of labels.
abbrev labelled : Cluster ℕ
labelled = record cluster { labels = some [] }

-- What the synchronisation of the cluster makes of the server.
abbrev synced : Option ((Cluster ℕ × Option Error) × Room)
synced = sync_prometheus_monitor api labelled (none, none)

abbrev room_of : Option ((Cluster ℕ × Option Error) × Room) → Room
room_of none = (none, none)
room_of (some (e, w)) = w

abbrev named : Cluster ℕ
named = record labelled { labels = some (wanted_labels labelled []) }

monitor_synced : synced ≡ some ((named, none), room_of synced)
unfolding sync_prometheus_monitor text_eq insert
monitor_synced = refl

sync_prometheus_monitor-Kept_example :
    (m : Dict Text) × (labelled.labels ≡ some m)
    × (named ≡ record labelled { labels = some (wanted_labels labelled m) })
    × Kept api-MonitorLaws labelled m (room_of synced)
sync_prometheus_monitor-Kept_example =
    sync_prometheus_monitor-Kept api-MonitorLaws labelled named (none, none) (room_of synced)
      monitor_synced

monitor_feature-SyncFrames_example : SyncFrames (monitor_feature api)
monitor_feature-SyncFrames_example = monitor_feature-SyncFrames api
