-- ===== src/Monitor/Sync.antt =====
-- pkg/monitor/prometheus.go: Equal, CheckEqualIfEnabled, CheckEqualIfDisabled, CleanPrometheusMonitor
-- and SyncPrometheusMonitor; pkg/featureprovider/providers/monitor: Equal and Sync of the feature.
use kstone.Base.{
  ◌-◌, ℕ, Bool, true, false, not, ◌&&◌, Option, none, some, List, [], ◌∷◌, ◌++◌, leb, if◌then◌else◌,
  get_or, ◌==◌,
}
use kstone.Base.Text.{Text, text, text_eq, split, trim_prefix}
use kstone.Base.Decimal.{itoa}
use kstone.Base.Dict.{Dict, find}
use kstone.Base.Effect.{Go, Error, Reason, pure, panic, ◌>>=◌}
use kstone.Api.{Cluster, MemberStatus}
use kstone.Interfaces.{Result, ok, err, FeatureProvider}
use kstone.FeatureGate.{is_feature_gate_enabled, status_disabled}
use kstone.Monitor.{
  Service, Subset, EndpointPort, Endpoints, ServiceMonitor, list_eq, labels_eq,
  service_is_equivalent, endpoint_is_equivalent, service_monitor_is_equivalent,
}
use kstone.Monitor.Generate.{
  init_etcd_svc, init_etcd_endpoint, init_etcd_service_monitor, is_imported,
}

-- One kind of object of the API server; the texts are a namespace and a name.
pub record Objects (W O : Type 0) : Type 0 where
  pub get : Text → Text → Go W (Result O)
  pub create : O → Go W (Option Error)
  pub update : O → Go W (Option Error)
  pub delete : Text → Text → Go W (Option Error)

pub record MonitorEnv (W X : Type 0) : Type 0 where
  pub services : Objects W Service
  pub endpoints : Objects W Endpoints
  pub monitors : Objects W ServiceMonitor
  pub own_service : Cluster X → Service → Result Service
  pub own_monitor : Cluster X → ServiceMonitor → Result ServiceMonitor

abbrev pub monitor : Text
monitor = text "monitor"

abbrev pub is_missing : Error → Bool
is_missing e = elim e.reason [ Reason.not_found ↦ true | _ ↦ false ]

-- The error of a deletion that the clean-up returns.
unfoldable pub delete_error : Option Error → Option Error
delete_error none = none
delete_error (some e) = if is_missing e then none else some e

-- strings.Compare of two texts, and the insertion sort that stands for sort.Strings.
unfoldable pub text_leb : Text → Text → Bool
text_leb [] t = true
text_leb (a ∷ s) [] = false
text_leb (a ∷ s) (b ∷ t) = let rest = text_leb s t in if a == b then rest else leb a b

unfoldable pub insert_text : Text → List Text → List Text
unfolding text_leb
insert_text s [] = s ∷ []
insert_text s (t ∷ ts) =
    let rest = insert_text s ts in if text_leb s t then s ∷ t ∷ ts else t ∷ rest

unfoldable pub sort_texts : List Text → List Text
unfolding insert_text
sort_texts [] = []
sort_texts (t ∷ ts) = insert_text t (sort_texts ts)

-- strconv.Itoa of an int32, which is kept as its residue modulo 2 ^ 32.
unfoldable pub show_int32 : ℕ → Text
show_int32 n = if leb 2147483648 n then text "-" ++ itoa (4294967296 - n) else itoa n

abbrev pub with_ports : Text → List EndpointPort → List Text
with_ports ip [] = []
with_ports ip (p ∷ ps) = (ip ++ (text ":" ++ show_int32 p.port)) ∷ with_ports ip ps

abbrev pub with_addresses : List Text → List EndpointPort → List Text
with_addresses [] ports = []
with_addresses (ip ∷ ips) ports = with_ports ip ports ++ with_addresses ips ports

abbrev pub subset_addresses : List Subset → List Text
subset_addresses [] = []
subset_addresses (s ∷ ss) = with_addresses s.addresses s.ports ++ subset_addresses ss

unfoldable pub unpack_end_point_subsets : Endpoints → List Text
unfolding sort_texts
unpack_end_point_subsets e = sort_texts (subset_addresses (get_or e.subsets []))

-- The host and the port of a member's URL; too few parts panic.
unfoldable pub host_port : List Text → Option Text
host_port (scheme ∷ host ∷ port ∷ rest) = some (trim_prefix host (text "//") ++ (text ":" ++ port))
host_port _ = none

unfoldable pub cons_address : Option Text → Option (List Text) → Option (List Text)
cons_address none addresses = none
cons_address (some a) none = none
cons_address (some a) (some addresses) = some (a ∷ addresses)

unfoldable pub cluster_endpoints : List MemberStatus → Option (List Text)
unfolding host_port cons_address
cluster_endpoints [] = some []
cluster_endpoints (m ∷ ms) =
    cons_address (host_port (split b':' m.extension_client_url)) (cluster_endpoints ms)

-- epLabels is an empty map that nothing writes to.
unfoldable pub same_as_cluster : Option (Dict Text) → List Text → List Text → Bool
same_as_cluster labels found wanted = labels_eq (some []) labels && list_eq text_eq found wanted

unfoldable pub enabled_found : {X : Type 0} → Cluster X → List Text → Result Endpoints → Bool
unfolding same_as_cluster unpack_end_point_subsets
enabled_found c wanted (err e) = false
enabled_found c wanted (ok ep) = same_as_cluster c.labels (unpack_end_point_subsets ep) wanted

-- Equal, which no caller uses, has the two answers the other way round.
unfoldable pub equal_found : {X : Type 0} → Cluster X → List Text → Result Endpoints → Bool
unfolding same_as_cluster unpack_end_point_subsets
equal_found c wanted (err e) =
    if is_missing e then not (same_as_cluster c.labels [] wanted) else false
equal_found c wanted (ok ep) = not (same_as_cluster c.labels (unpack_end_point_subsets ep) wanted)

abbrev pub carry_service : Service → Service → Service
carry_service old new = record new {
  cluster_ip = old.cluster_ip;
  resource_version = old.resource_version;
}

abbrev pub carry_endpoints : Endpoints → Endpoints → Endpoints
carry_endpoints old new = record new { resource_version = old.resource_version }

abbrev pub carry_monitor : ServiceMonitor → ServiceMonitor → ServiceMonitor
carry_monitor old new = record new { resource_version = old.resource_version }

-- The step that the synchronisation makes for each kind of object: create it if it is not found, and
-- update it if it is not equivalent, with what is carried over.
module _ {W O : Type 0} (objects : Objects W O) (equivalent : O → O → Bool)
    (carry : O → O → O) where
  unfoldable pub put_found : O → Result O → Go W (Option Error)
  put_found new (err e) = if is_missing e then objects.create new else pure (some e)
  put_found new (ok old) =
      if not (equivalent old new) then objects.update (carry old new) else pure none

  unfoldable pub put : Text → Text → O → Go W (Option Error)
  unfolding put_found
  put namespace name new = do old ← objects.get namespace name; put_found new old

module _ {W X : Type 0} (env : MonitorEnv W X) where
  -- What is wanted is compared with the Endpoints that are found; `none` is a panic.
  unfoldable pub compare_endpoints :
      (List Text → Result Endpoints → Bool) → Cluster X → Option (List Text) → Go W Bool
  compare_endpoints found c none = panic
  compare_endpoints found c (some wanted) = do
    r ← env.endpoints.get c.namespace c.name
    pure (found wanted r)

  unfoldable pub check_equal_if_enabled : Cluster X → Go W Bool
  unfolding compare_endpoints cluster_endpoints enabled_found
  check_equal_if_enabled c =
      compare_endpoints (enabled_found c) c (cluster_endpoints c.status.members)

  unfoldable pub equal : Cluster X → Go W Bool
  unfolding compare_endpoints cluster_endpoints equal_found
  equal c = compare_endpoints (equal_found c) c (cluster_endpoints c.status.members)

  unfoldable pub service_gone : Result Service → Bool
  service_gone (ok s) = false
  service_gone (err e) = is_missing e

  unfoldable pub monitor_gone : Cluster X → Result ServiceMonitor → Go W Bool
  unfolding service_gone
  monitor_gone c (ok m) = pure false
  monitor_gone c (err e) =
      if is_missing e
      then (do r ← env.services.get c.namespace c.name; pure (service_gone r))
      else pure false

  unfoldable pub check_equal_if_disabled : Cluster X → Go W Bool
  unfolding monitor_gone
  check_equal_if_disabled c = do r ← env.monitors.get c.namespace c.name; monitor_gone c r

  unfoldable pub delete_service : Cluster X → Option Error → Go W (Option Error)
  unfolding delete_error
  delete_service c (some e) = pure (some e)
  delete_service c none = do e ← env.services.delete c.namespace c.name; pure (delete_error e)

  unfoldable pub clean_prometheus_monitor : Cluster X → Go W (Option Error)
  unfolding delete_service delete_error
  clean_prometheus_monitor c = do
    e ← env.monitors.delete c.namespace c.name
    delete_service c (delete_error e)

  unfoldable pub sync_owned_monitor : Cluster X → Result ServiceMonitor → Go W (Option Error)
  unfolding put
  sync_owned_monitor c (err e) = pure (some e)
  sync_owned_monitor c (ok m) =
      put env.monitors service_monitor_is_equivalent carry_monitor c.namespace c.name m

  unfoldable pub sync_made_monitor :
      Option (Cluster X × ServiceMonitor) → Go W (Cluster X × Option Error)
  unfolding sync_owned_monitor
  sync_made_monitor none = panic
  sync_made_monitor (some (d, m)) = do e ← sync_owned_monitor d (env.own_monitor d m); pure (d, e)

  -- Step 3.
  unfoldable pub sync_monitor : Cluster X → Option Error → Go W (Cluster X × Option Error)
  unfolding sync_made_monitor init_etcd_service_monitor
  sync_monitor c (some e) = pure (c, some e)
  sync_monitor c none = sync_made_monitor (init_etcd_service_monitor c)

  unfoldable pub put_endpoints : Cluster X → Option (Result Endpoints) → Go W (Option Error)
  unfolding put
  put_endpoints c none = panic
  put_endpoints c (some (err e)) = pure (some e)
  put_endpoints c (some (ok ep)) =
      put env.endpoints endpoint_is_equivalent carry_endpoints c.namespace c.name ep

  -- Step 2, for an imported cluster.
  unfoldable pub sync_endpoints : Cluster X → Option Error → Go W (Option Error)
  unfolding put_endpoints init_etcd_endpoint
  sync_endpoints c (some e) = pure (some e)
  sync_endpoints c none =
      if is_imported c then put_endpoints c (init_etcd_endpoint c) else pure none

  unfoldable pub sync_owned_service : Cluster X → Result Service → Go W (Option Error)
  unfolding put
  sync_owned_service c (err e) = pure (some e)
  sync_owned_service c (ok s) =
      put env.services service_is_equivalent carry_service c.namespace c.name s

  -- The label that the objects share with the cluster is written into the cluster, which comes back
  -- with it.
  unfoldable pub sync_labelled : Cluster X → Service → Go W (Cluster X × Option Error)
  unfolding sync_owned_service sync_endpoints sync_monitor
  sync_labelled c s = do
    e ← sync_owned_service c (env.own_service c s)
    e' ← sync_endpoints c e
    sync_monitor c e'

  unfoldable pub sync_made_service : Option (Cluster X × Service) → Go W (Cluster X × Option Error)
  unfolding sync_labelled
  sync_made_service none = panic
  sync_made_service (some (d, s)) = sync_labelled d s

  unfoldable pub sync_prometheus_monitor : Cluster X → Go W (Cluster X × Option Error)
  unfolding sync_made_service init_etcd_svc
  sync_prometheus_monitor c = sync_made_service (init_etcd_svc c)

  unfoldable pub feature_equal_gate : Cluster X → Bool → Go W Bool
  unfolding check_equal_if_enabled check_equal_if_disabled
  feature_equal_gate c true = check_equal_if_enabled c
  feature_equal_gate c false =
      if text_eq (get_or (find monitor c.status.feature_gates_status) []) status_disabled
      then pure true
      else check_equal_if_disabled c

  unfoldable pub feature_equal : Cluster X → Go W Bool
  unfolding feature_equal_gate
  feature_equal c = feature_equal_gate c (is_feature_gate_enabled c.annotations monitor)

  unfoldable pub feature_sync_gate : Cluster X → Bool → Go W (Cluster X × Option Error)
  unfolding clean_prometheus_monitor sync_prometheus_monitor
  feature_sync_gate c true = sync_prometheus_monitor c
  feature_sync_gate c false = do e ← clean_prometheus_monitor c; pure (c, e)

  unfoldable pub feature_sync : Cluster X → Go W (Cluster X × Option Error)
  unfolding feature_sync_gate
  feature_sync c = feature_sync_gate c (is_feature_gate_enabled c.annotations monitor)

  -- FeaturePrometheus; its Do does nothing.
  abbrev pub monitor_feature : FeatureProvider W X
  monitor_feature = record { equal = feature_equal; sync = feature_sync; perform = λ i. pure none }
