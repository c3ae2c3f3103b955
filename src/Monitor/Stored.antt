-- ===== src/Monitor/Stored.antt =====
-- What SyncPrometheusMonitor of pkg/monitor/prometheus.go leaves, and what CheckEqualIfEnabled says
-- of an enabled cluster.
use kstone.Base.{
  ◌≡◌, ◌≢◌, refl, sym, subst, Bool, true, false, not, Option, none, some, List, [], ◌∷◌,
  if◌then◌else◌,
}
use kstone.Base.Text.{Text}
use kstone.Base.Dict.{Dict, dict_eq, dict_eq-nil}
use kstone.Base.Effect.{Error, pure, >>=-eq-some, paired-eq-some}
use kstone.Api.{Cluster}
use kstone.Interfaces.{Result, ok, err}
use kstone.Monitor.{
  Service, ServicePort, Endpoints, ServiceMonitor, option_eq, service_monitor_is_equivalent,
}
use kstone.Monitor.Generate.{
  named_labels, service_of, labelled_service, service_ports, init_etcd_svc, service_monitor_of,
  labelled_monitor, init_etcd_service_monitor,
}
use kstone.Monitor.Sync.{
  MonitorEnv, is_missing, cluster_endpoints, same_as_cluster, enabled_found, compare_endpoints,
  check_equal_if_enabled, put_found, put, carry_monitor, sync_owned_monitor, sync_made_monitor,
  sync_monitor, sync_endpoints, sync_owned_service, sync_labelled, sync_made_service,
  sync_prometheus_monitor,
}
use kstone.Monitor.Same.{SameMonitor, versioned-SameMonitor, equivalent-SameMonitor}
use kstone.Monitor.Store.{MonitorLaws}

-- The labels of the cluster and of its monitor after SyncPrometheusMonitor, which names them twice.
abbrev pub wanted_labels : {X : Type 0} → Cluster X → Dict Text → Dict Text
wanted_labels c m = named_labels c.name (named_labels c.name m)

module _ {W X : Type 0} (env : MonitorEnv W X) (c : Cluster X) where
  -- CheckEqualIfEnabled never answers true for a cluster that has a label, or whose labels are a nil
  -- map, whatever the API server stores.
  pub enabled_unequal :
      (b : Bool) (w w' : W)
      → c.labels ≢ some []
      → check_equal_if_enabled env c w ≡ some (b, w')
      → b ≡ false
  unfolding check_equal_if_enabled compare_endpoints enabled_found same_as_cluster option_eq
  enabled_unequal b w w' l h = of (cluster_endpoints c.status.members) h
    where
      labels : (o : Option (Dict Text)) → o ≢ some [] → option_eq dict_eq (some []) o ≡ false
      labels none l = refl
      labels (some []) l = absurd (l refl)
      labels (some ((k, v) ∷ m)) l = dict_eq-nil k v m

      answer : (wanted : List Text) (r : Result Endpoints) → enabled_found c wanted r ≡ false
      answer wanted (err e) = refl
      answer wanted (ok ep) = rw (labels c.labels l) refl

      of :
          (o : Option (List Text))
          → compare_endpoints env (enabled_found c) c o w ≡ some (b, w')
          → b ≡ false
      of none h = absurd (cc)
      of (some wanted) h =
          let (r, w₁, p, q) =
            >>=-eq-some (λ r. pure (enabled_found c wanted r))
              (env.endpoints.get c.namespace c.name) w h in
          cc (answer wanted r)

module _ {W X : Type 0} {env : MonitorEnv W X} {service_at : W → Text → Text → Option Service}
    {monitor_at : W → Text → Text → Option ServiceMonitor}
    (laws : MonitorLaws env service_at monitor_at) where
  -- After the step for an object of which only the resource version differs, an equivalent one is
  -- stored.
  put-stored :
      (namespace name : Text) (m : ServiceMonitor) (w w' : W)
      → m.namespace ≡ namespace
      → m.name ≡ name
      → put env.monitors service_monitor_is_equivalent carry_monitor namespace name m w
        ≡ some (none, w')
      → (s : ServiceMonitor) × (monitor_at w' namespace name ≡ some s) × SameMonitor s m
  unfolding put put_found
  put-stored namespace name m w w' ns nm h =
      let (r, w₁, p, q) = >>=-eq-some _ (env.monitors.get namespace name) w h in of r p q
    where
      stored :
          (m : ServiceMonitor) (v : Text) (s : ServiceMonitor)
          → SameMonitor s m
          → m.namespace ≡ namespace
          → m.name ≡ name
          → monitor_at w' m.namespace m.name ≡ some s
          → (s : ServiceMonitor) × (monitor_at w' namespace name ≡ some s) × SameMonitor s m
      stored m v s k ns nm p = (
        s,
        subst (λ n. monitor_at w' n name ≡ some s) ns
            (subst (λ n. monitor_at w' m.namespace n ≡ some s) nm p),
        k,
      )

      made :
          (w₁ : W) (e : Error) (b : Bool)
          → (if b then env.monitors.create m else pure (some e)) w₁ ≡ some (none, w')
          → (s : ServiceMonitor) × (monitor_at w' namespace name ≡ some s) × SameMonitor s m
      made w₁ e true q =
          let (v, p) = laws.monitor_created m w₁ w' q in
          stored m v (record m { resource_version = v }) (versioned-SameMonitor m v) ns nm p
      made w₁ e false q = absurd (cc)

      renewed :
          {w₁ : W} (old : ServiceMonitor)
          → env.monitors.get namespace name w ≡ some (ok old, w₁)
          → (b : Bool) → service_monitor_is_equivalent old m ≡ b
          → (if not b then env.monitors.update (carry_monitor old m) else pure none) w₁
            ≡ some (none, w')
          → (s : ServiceMonitor) × (monitor_at w' namespace name ≡ some s) × SameMonitor s m
      renewed {w₁} old p true k q =
          let v : w₁ ≡ w' = cc in
          (
            old,
            subst (λ v. monitor_at v namespace name ≡ some old) v
                (laws.monitor_got namespace name old w w₁ p),
            equivalent-SameMonitor old m k,
          )
      renewed {w₁} old p false k q =
          let (v, p) = laws.monitor_updated (carry_monitor old m) w₁ w' q in
          stored m v (record m { resource_version = v }) (versioned-SameMonitor m v) ns nm p

      of :
          {w₁ : W} (r : Result ServiceMonitor)
          → env.monitors.get namespace name w ≡ some (r, w₁)
          → put_found env.monitors service_monitor_is_equivalent carry_monitor m r w₁
            ≡ some (none, w')
          → (s : ServiceMonitor) × (monitor_at w' namespace name ≡ some s) × SameMonitor s m
      of {w₁} (err e) p q = made w₁ e (is_missing e) q
      of {w₁} (ok old) p q = renewed old p (service_monitor_is_equivalent old m) refl q

  -- What SyncPrometheusMonitor should store as the ServiceMonitor.
  abbrev pub Kept : Cluster X → Dict Text → W → Type 0
  Kept c m w =
      (n : ServiceMonitor) × (env.own_monitor (record c { labels = some (wanted_labels c m) })
          (service_monitor_of c (wanted_labels c m))
        ≡ ok n)
      × (s : ServiceMonitor) × (monitor_at w c.namespace c.name ≡ some s)
      × SameMonitor s n

  module _ (c : Cluster X) (m : Dict Text) (w' : W) where
    abbrev labelled : Cluster X
    labelled = record c { labels = some (wanted_labels c m) }

    owned-Kept :
        (w : W) (r : Result ServiceMonitor)
        → env.own_monitor labelled (service_monitor_of c (wanted_labels c m)) ≡ r
        → sync_owned_monitor env labelled r w ≡ some (none, w')
        → Kept c m w'
    unfolding sync_owned_monitor service_monitor_of
    owned-Kept w (err e) o h = absurd (cc)
    owned-Kept w (ok n) o h =
        let (ns, nm) = laws.owned labelled (service_monitor_of c (wanted_labels c m)) n o in
        let (s, a, q) = put-stored c.namespace c.name n w w' ns nm h in (n, o, s, a, q)

    monitor-Kept :
        (c' : Cluster X) (w : W) (e : Option Error)
        → sync_monitor env (record c { labels = some (named_labels c.name m) }) e w
          ≡ some ((c', none), w')
        → (c' ≡ labelled) × Kept c m w'
    unfolding sync_monitor sync_made_monitor init_etcd_service_monitor labelled_monitor
        service_monitor_of
    monitor-Kept c' w (some e) h = absurd (cc)
    monitor-Kept c' w none h =
        let n = env.own_monitor labelled (service_monitor_of c (wanted_labels c m)) in
        let (p, k) =
          paired-eq-some (sync_owned_monitor env labelled n) labelled (c', none) w w' h in
        (sym k, owned-Kept w n refl p)

    service-Kept :
        (c' : Cluster X) (w : W) (s : Service)
        → sync_labelled env (record c { labels = some (named_labels c.name m) }) s w
          ≡ some ((c', none), w')
        → (c' ≡ labelled) × Kept c m w'
    unfolding sync_labelled
    service-Kept c' w s h =
        let d = record c { labels = some (named_labels c.name m) } in
        let (e, w₁, p, q) = >>=-eq-some _ (sync_owned_service env d (env.own_service d s)) w h in
        let (x, w₂, r, t) = >>=-eq-some (sync_monitor env d) (sync_endpoints env d e) w₁ q in
        monitor-Kept c' w₂ x t

  -- Once SyncPrometheusMonitor returned no error, the cluster has a map of labels, to which it has
  -- added etcdName, and the API server stores under the cluster's name a ServiceMonitor with the Spec
  -- of the one that the cluster should have and with labels that read as that one's, those of the
  -- cluster with etcdName. The API server stores an object as it is given, but for the resource version.
  pub sync_prometheus_monitor-Kept :
      (c c' : Cluster X) (w w' : W)
      → sync_prometheus_monitor env c w ≡ some ((c', none), w')
      → (m : Dict Text) × (c.labels ≡ some m)
        × (c' ≡ record c { labels = some (wanted_labels c m) })
        × Kept c m w'
  unfolding sync_prometheus_monitor sync_made_service init_etcd_svc labelled_service
  sync_prometheus_monitor-Kept c c' w w' h =
      of c.labels refl (service_ports c.status.members [] 0) h
    where
      of :
          (l : Option (Dict Text))
          → c.labels ≡ l
          → (ps : Option (List ServicePort))
          → sync_made_service env (labelled_service c l ps) w ≡ some ((c', none), w')
          → (m : Dict Text) × (c.labels ≡ some m)
            × (c' ≡ record c { labels = some (wanted_labels c m) })
            × Kept c m w'
      of l e none h = absurd (cc)
      of none e (some ps) h = absurd (cc)
      of (some m) e (some ps) h =
          let (k, s) = service-Kept c m w' c' w (service_of c (named_labels c.name m) ps) h in
          (m, e, k, s)
