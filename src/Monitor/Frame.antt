-- ===== src/Monitor/Frame.antt =====
-- What SyncPrometheusMonitor of pkg/monitor/prometheus.go writes into the cluster.
use kstone.Base.{◌≡◌, refl, subst, Bool, true, false, Option, none, some, List, []}
use kstone.Base.Text.{Text}
use kstone.Base.Dict.{Dict, lookup-insert}
use kstone.Base.Effect.{Error, >>=-eq-some, paired-eq-some}
use kstone.Api.{Cluster}
use kstone.Controller.Features.{OnlyGates, OnlyGates-refl, OnlyGates-after, SyncFrames}
use kstone.FeatureGate.{is_feature_gate_enabled}
use kstone.Monitor.{ServicePort}
use kstone.Monitor.Generate.{
  etcd_name, named_labels, labelled_service, service_ports, init_etcd_svc, service_of,
  labelled_monitor, service_monitor_of, init_etcd_service_monitor,
}
use kstone.Monitor.Sync.{
  MonitorEnv, monitor, clean_prometheus_monitor, sync_owned_monitor, sync_made_monitor,
  sync_monitor, sync_endpoints, sync_owned_service, sync_labelled, sync_made_service,
  sync_prometheus_monitor, feature_sync_gate, feature_sync, monitor_feature,
}

module _ {W X : Type 0} (env : MonitorEnv W X) where
  named-OnlyGates :
      (c : Cluster X) (m : Dict Text)
      → c.labels ≡ some m
      → OnlyGates [] c (record c { labels = some (named_labels c.name m) })
  named-OnlyGates c m e = record {
    namespace = refl;
    name = refl;
    annotations = refl;
    labels = λ k h. rw (e, lookup-insert etcd_name k c.name m, h) refl;
    spec = refl;
    conditions = refl;
    phase = refl;
    members = refl;
    service_name = refl;
    gates = λ k h. refl;
  }

  sync_monitor-OnlyGates :
      (c c' : Cluster X) (x e : Option Error) (w w' : W)
      → sync_monitor env c x w ≡ some ((c', e), w')
      → OnlyGates [] c c'
  unfolding sync_monitor sync_made_monitor init_etcd_service_monitor labelled_monitor
  sync_monitor-OnlyGates c c' (some x) e w w' h =
      let k : c ≡ c' = cc in subst (OnlyGates [] c) k (OnlyGates-refl [] c)
  sync_monitor-OnlyGates c c' none e w w' h = of c.labels refl h
    where
      of :
          (l : Option (Dict Text))
          → c.labels ≡ l
          → sync_made_monitor env (labelled_monitor c l) w ≡ some ((c', e), w')
          → OnlyGates [] c c'
      of none p h = absurd (cc)
      of (some m) p h =
          let d = record c { labels = some (named_labels c.name m) } in
          let (q, k) =
            paired-eq-some
              (sync_owned_monitor env d
                (env.own_monitor d (service_monitor_of c (named_labels c.name m))))
              d (c', e) w w' h in
          subst (OnlyGates [] c) k (named-OnlyGates c m p)

  sync_prometheus_monitor-OnlyGates :
      (c c' : Cluster X) (e : Option Error) (w w' : W)
      → sync_prometheus_monitor env c w ≡ some ((c', e), w')
      → OnlyGates [] c c'
  unfolding sync_prometheus_monitor sync_made_service init_etcd_svc labelled_service sync_labelled
  sync_prometheus_monitor-OnlyGates c c' e w w' h =
      of c.labels refl (service_ports c.status.members [] 0) h
    where
      of :
          (l : Option (Dict Text))
          → c.labels ≡ l
          → (ps : Option (List ServicePort))
          → sync_made_service env (labelled_service c l ps) w ≡ some ((c', e), w')
          → OnlyGates [] c c'
      of l p none h = absurd (cc)
      of none p (some ps) h = absurd (cc)
      of (some m) p (some ps) h =
          let d = record c { labels = some (named_labels c.name m) } in
          let s = service_of c (named_labels c.name m) ps in
          let (x, w₁, a, q) = >>=-eq-some _ (sync_owned_service env d (env.own_service d s)) w h in
          let (y, w₂, r, t) = >>=-eq-some (sync_monitor env d) (sync_endpoints env d x) w₁ q in
          OnlyGates-after [] c d c' (named-OnlyGates c m p)
            (sync_monitor-OnlyGates d c' y e w₂ w' t)

  -- Sync of the monitor feature changes nothing of the cluster but its label etcdName, also when it
  -- fails, and whether its gate is enabled or not: it is a feature that a pass can rely on.
  pub monitor_feature-SyncFrames : SyncFrames (monitor_feature env)
  unfolding feature_sync feature_sync_gate
  monitor_feature-SyncFrames = record {
    sync = λ c d e w w' h. of c d e w w' (is_feature_gate_enabled c.annotations monitor) h;
  }
    where
      of :
          (c d : Cluster X) (e : Option Error) (w w' : W) (b : Bool)
          → feature_sync_gate env c b w ≡ some ((d, e), w')
          → OnlyGates [] c d
      of c d e w w' true h = sync_prometheus_monitor-OnlyGates c d e w w' h
      of c d e w w' false h =
          let (q, k) = paired-eq-some (clean_prometheus_monitor env c) c (d, e) w w' h in
          subst (OnlyGates [] c) k (OnlyGates-refl [] c)
