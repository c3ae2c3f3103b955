-- ===== src/Monitor/Store.antt =====
-- CleanPrometheusMonitor and SyncPrometheusMonitor of pkg/monitor/prometheus.go over an API server
-- that keeps what it says.
use kstone.Base.{
  ◌≡◌, refl, ◌∙◌, subst, Bool, true, false, Option, none, some, [], if◌then◌else◌, get_or,
}
use kstone.Base.Text.{Text, text_eq}
use kstone.Base.Dict.{find}
use kstone.Base.Effect.{◌>>=◌, paired-eq-some, Error, pure, >>=-eq-some, >>=-some}
use kstone.Api.{Cluster}
use kstone.Interfaces.{ok, err}
use kstone.FeatureGate.{is_feature_gate_enabled, status_disabled}
use kstone.Monitor.{Service, ServiceMonitor}
use kstone.Monitor.Sync.{
  MonitorEnv, monitor, is_missing, delete_error, service_gone, monitor_gone,
  check_equal_if_disabled, delete_service, clean_prometheus_monitor, feature_equal_gate,
  feature_equal, feature_sync_gate, feature_sync,
}

-- `service_at` and `monitor_at` read the API server. An object that is created or updated is there,
-- with the resource version that the server assigns, a deletion that succeeds or does not find the object leaves none, and what is not there is not found;
-- the other kind stays as it is.
pub record MonitorLaws {W X : Type 0} (env : MonitorEnv W X)
    (service_at : W → Text → Text → Option Service)
    (monitor_at : W → Text → Text → Option ServiceMonitor) : Type 0 where
  pub monitor_deleted :
      (namespace name : Text) (e : Option Error) (w w' : W)
      → env.monitors.delete namespace name w ≡ some (e, w')
      → delete_error e ≡ none
      → monitor_at w' namespace name ≡ none
  pub service_deleted :
      (namespace name : Text) (e : Option Error) (w w' : W)
      → env.services.delete namespace name w ≡ some (e, w')
      → delete_error e ≡ none
      → (service_at w' namespace name ≡ none)
        × (monitor_at w' namespace name ≡ monitor_at w namespace name)
  pub monitor_absent :
      (namespace name : Text) (w : W)
      → monitor_at w namespace name ≡ none
      → (e : Error) × (w' : W) × (env.monitors.get namespace name w ≡ some (err e, w'))
        × (is_missing e ≡ true)
        × (service_at w' namespace name ≡ service_at w namespace name)
  pub service_absent :
      (namespace name : Text) (w : W)
      → service_at w namespace name ≡ none
      → (e : Error) × (w' : W) × (env.services.get namespace name w ≡ some (err e, w'))
        × (is_missing e ≡ true)
  pub monitor_got :
      (namespace name : Text) (m : ServiceMonitor) (w w' : W)
      → env.monitors.get namespace name w ≡ some (ok m, w')
      → monitor_at w' namespace name ≡ some m
  pub monitor_created :
      (m : ServiceMonitor) (w w' : W)
      → env.monitors.create m w ≡ some (none, w')
      → (v : Text) × (monitor_at w' m.namespace m.name ≡ some (record m { resource_version = v }))
  pub monitor_updated :
      (m : ServiceMonitor) (w w' : W)
      → env.monitors.update m w ≡ some (none, w')
      → (v : Text) × (monitor_at w' m.namespace m.name ≡ some (record m { resource_version = v }))
  pub owned :
      (c : Cluster X) (m n : ServiceMonitor)
      → env.own_monitor c m ≡ ok n
      → (n.namespace ≡ m.namespace) × (n.name ≡ m.name)

module _ {W X : Type 0} {env : MonitorEnv W X} {service_at : W → Text → Text → Option Service}
    {monitor_at : W → Text → Text → Option ServiceMonitor}
    (laws : MonitorLaws env service_at monitor_at) (c : Cluster X) where
  -- With neither object there, CheckEqualIfDisabled answers true.
  both_gone :
      (w : W)
      → monitor_at w c.namespace c.name ≡ none
      → service_at w c.namespace c.name ≡ none
      → (w₁ : W) × (check_equal_if_disabled env c w ≡ some (true, w₁))
  unfolding check_equal_if_disabled monitor_gone service_gone
  both_gone w m s =
      let (e, w₁, g, n, k) = laws.monitor_absent c.namespace c.name w m in
      let (x, w₂, h, y) = laws.service_absent c.namespace c.name w₁ (k ∙ s) in
      (
        w₂,
        >>=-some (monitor_gone env c) (env.monitors.get c.namespace c.name) g
            ∙ rw n (
                >>=-some (λ r. pure (service_gone env r)) (env.services.get c.namespace c.name) h
                ∙ rw y refl),
      )

  deleted :
      (e : Option Error) (w w' : W)
      → (delete_error e ≡ none → monitor_at w c.namespace c.name ≡ none)
      → delete_service env c (delete_error e) w ≡ some (none, w')
      → (w₁ : W) × (check_equal_if_disabled env c w' ≡ some (true, w₁))
  unfolding delete_service
  deleted e w w' m h = of (delete_error e) m h
    where
      of :
          (d : Option Error)
          → (d ≡ none → monitor_at w c.namespace c.name ≡ none)
          → delete_service env c d w ≡ some (none, w')
          → (w₁ : W) × (check_equal_if_disabled env c w' ≡ some (true, w₁))
      of (some x) m h = absurd (cc)
      of none m h =
          let (x, w₁, p, q) = >>=-eq-some _ (env.services.delete c.namespace c.name) w h in
          let a : delete_error x ≡ none = cc in
          let b : w₁ ≡ w' = cc in
          let (s, k) = laws.service_deleted c.namespace c.name x w w₁ p a in
          both_gone w' (subst (λ v. monitor_at v c.namespace c.name ≡ none) b (k ∙ m refl))
            (subst (λ v. service_at v c.namespace c.name ≡ none) b s)

  -- Once Sync of the monitor feature returned no error for a cluster whose gate is disabled, Equal
  -- answers true, if the API server keeps what it says.
  pub disabled-feature_equal :
      (c' : Cluster X) (w w' : W)
      → is_feature_gate_enabled c.annotations monitor ≡ false
      → feature_sync env c w ≡ some ((c', none), w')
      → (w₁ : W) × (feature_equal env c' w' ≡ some (true, w₁))
  unfolding feature_sync feature_sync_gate feature_equal feature_equal_gate clean_prometheus_monitor
  disabled-feature_equal c' w w' d h =
      let k : (clean_prometheus_monitor env c >>= λ e. pure (c, e)) w ≡ some ((c', none), w') =
        subst (λ b. feature_sync_gate env c b w ≡ some ((c', none), w')) d h in
      let (t, y) = paired-eq-some (clean_prometheus_monitor env c) c (c', none) w w' k in
      let (e, w₁, p, q) = >>=-eq-some _ (env.monitors.delete c.namespace c.name) w t in
      let (w₂, r) = deleted e w₁ w' (laws.monitor_deleted c.namespace c.name e w w₁ p) q in
      subst (λ c'. (w₁ : W) × (feature_equal env c' w' ≡ some (true, w₁))) y
        (rw d (
          status (text_eq (get_or (find monitor c.status.feature_gates_status) []) status_disabled)
            w₂ r))
    where
      status :
          (b : Bool) (w₂ : W)
          → check_equal_if_disabled env c w' ≡ some (true, w₂)
          → (w₁ : W) × ((if b then pure true else check_equal_if_disabled env c) w'
              ≡ some (true, w₁))
      status true w₂ r = (w', refl)
      status false w₂ r = (w₂, r)
