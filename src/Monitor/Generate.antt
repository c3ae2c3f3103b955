-- ===== src/Monitor/Generate.antt =====
-- pkg/monitor/prometheus.go, initEtcdSvc, initEtcdEndpoint and initEtcdServiceMonitor: the objects
-- that a cluster should have. `none` is a panic: an index out of range, or a write to a nil map.
use kstone.Base.{
  ℕ, suc, ◌+◌, Bool, true, false, Option, none, some, List, [], ◌∷◌, ◌++◌, map, if◌then◌else◌,
  get_or, get_elem?, last?,
}
use kstone.Base.Text.{Text, text, text_eq, split, has_prefix, trim_prefix}
use kstone.Base.Atoi.{Atoi, atoi, atoi_message, int32}
use kstone.Base.Dict.{Dict, find, insert}
use kstone.Base.Effect.{new_error}
use kstone.Api.{Cluster, MemberStatus}
use kstone.Interfaces.{Result, ok, err}
use kstone.Controller.{cert_name}
use kstone.EtcdClient.Files.{replace_byte, cli_cert_file, cli_key_file, cli_ca_file}
use kstone.Monitor.{
  ServicePort, Service, Subset, Endpoints, Relabel, MonitorTls, MonitorEndpoint, ServiceMonitor,
}

abbrev pub etcd_name : Text
etcd_name = text "etcdName"

abbrev pub tcp : Text
tcp = text "TCP"

-- strings.Split(url, ":")[2]
abbrev pub url_port : MemberStatus → Option Text
url_port m = get_elem? (split b':' m.extension_client_url) 2

abbrev pub port_name : MemberStatus → Text
port_name m = replace_byte b'.' b'-' m.endpoint

unfoldable pub is_last_name : Text → Option ServicePort → Bool
is_last_name name none = false
is_last_name name (some p) = text_eq name p.name

abbrev pub service_port : Text → ℕ → Text → ServicePort
service_port name count port = record {
  name = name;
  protocol = tcp;
  port = int32 (2379 + count);
  target_port = int32 (atoi port).value;
}

-- A member whose name is that of the last port is skipped, after its port was read.
unfoldable pub next_port :
    Bool
    → Option (List ServicePort)
    → (Text → Option (List ServicePort))
    → Option Text
    → Option (List ServicePort)
next_port same skip add none = none
next_port same skip add (some port) = if same then skip else add port

-- The loop over the members, with the ports so far and their count.
unfoldable pub service_ports : List MemberStatus → List ServicePort → ℕ → Option (List ServicePort)
unfolding is_last_name next_port
service_ports [] ports count = some ports
service_ports (m ∷ ms) ports count =
    next_port (is_last_name (port_name m) (last? ports)) (service_ports ms ports count)
      (λ port. service_ports ms (ports ++ service_port (port_name m) count port ∷ []) (suc count))
      (url_port m)

-- The write of the label etcdName into the map that the object shares with the cluster.
abbrev pub named_labels : Text → Dict Text → Dict Text
named_labels name labels = insert etcd_name name labels

unfoldable pub subset_of : MemberStatus → Text → Text → Atoi → Result Subset
subset_of m host port n =
    if n.parsed
    then ok (record {
      addresses = trim_prefix host (text "//") ∷ [];
      ports = record { name = port_name m; protocol = tcp; port = int32 n.value } ∷ [];
    })
    else err (new_error (atoi_message port n))

unfoldable pub member_subset : MemberStatus → List Text → Option (Result Subset)
unfolding subset_of
member_subset m (scheme ∷ host ∷ port ∷ rest) = some (subset_of m host port (atoi port))
member_subset m _ = none

unfoldable pub cons_subset : Subset → Option (Result (List Subset)) → Option (Result (List Subset))
cons_subset s none = none
cons_subset s (some (err e)) = some (err e)
cons_subset s (some (ok l)) = some (ok (s ∷ l))

unfoldable pub member_subsets : List MemberStatus → Option (Result (List Subset))
unfolding member_subset cons_subset
member_subsets [] = some (ok [])
member_subsets (m ∷ ms) = elim (member_subset m (split b':' m.extension_client_url)) [
  | none ↦ none
  | some (err e) ↦ some (err e)
  | some (ok s) ↦ cons_subset s (member_subsets ms)
]

abbrev relabel : Relabel
relabel = record {
  action = text "labelmap";
  regex = text "__meta_kubernetes_service_label_(.+)";
  replacement = [];
  source_labels = [];
  target_label = [];
}

abbrev replace_relabel : Relabel
replace_relabel = record {
  action = text "replace";
  regex = text "(.*)-(.*)-(.*)-(.*)";
  replacement = text "$1.$2.$3.$4";
  source_labels = text "endpoint" ∷ [];
  target_label = text "endpoint";
}

-- With a slash in the name, the part behind the first.
unfoldable pub after_slash : Text → List Text → Text
after_slash name (namespace ∷ secret ∷ more) = secret
after_slash name _ = name

abbrev pub monitor_secret : Option (Dict Text) → Text
monitor_secret annotations =
    let cert = get_or (find cert_name annotations) [] in
    let name = if text_eq cert [] then text "etcd-v3-certs" else cert in
    after_slash name (split b'/' name)

abbrev pub monitor_tls : Text → Bool → Option MonitorTls
monitor_tls secret true = some (record {
  secret_name = secret;
  ca_key = cli_ca_file;
  cert_key = cli_cert_file;
  key_key = cli_key_file;
  insecure_skip_verify = true;
})
monitor_tls secret false = none

unfoldable pub monitor_endpoint : Text → Bool → MemberStatus → MonitorEndpoint
monitor_endpoint secret https m = record {
  port = port_name m;
  scheme = if https then text "https" else text "http";
  interval = text "30s";
  relabels = relabel ∷ replace_relabel ∷ [];
  tls = monitor_tls secret https;
}

module _ {X : Type 0} where
  abbrev pub kstone_selector : Cluster X → Option (Dict Text)
  kstone_selector c =
      if text_eq c.spec.cluster_type (text "kstone-etcd-operator")
      then some ((text "etcdcluster.etcd.tkestack.io/cluster-name", c.name) ∷ [])
      else none

  abbrev pub service_of : Cluster X → Dict Text → List ServicePort → Service
  service_of c labels ports = record {
    namespace = c.namespace;
    name = c.name;
    labels = some labels;
    owner = none;
    resource_version = [];
    ports = some ports;
    selector = kstone_selector c;
    service_type = text "ClusterIP";
    cluster_ip = [];
    rest = [];
  }

  unfoldable pub labelled_service :
      Cluster X → Option (Dict Text) → Option (List ServicePort) → Option (Cluster X × Service)
  labelled_service c labels none = none
  labelled_service c none (some ports) = none
  labelled_service c (some m) (some ports) =
      let labels = named_labels c.name m in
      some (record c { labels = some labels }, service_of c labels ports)

  -- The cluster comes back with the label; the owner is set by the caller.
  unfoldable pub init_etcd_svc : Cluster X → Option (Cluster X × Service)
  unfolding labelled_service service_ports
  init_etcd_svc c = labelled_service c c.labels (service_ports c.status.members [] 0)

  abbrev pub is_imported : Cluster X → Bool
  is_imported c = text_eq c.spec.cluster_type (text "imported")

  unfoldable pub endpoints_of : Cluster X → Result (List Subset) → Result Endpoints
  endpoints_of c (err e) = err e
  endpoints_of c (ok subsets) = ok (record {
    namespace = c.namespace;
    name = c.name;
    labels = c.labels;
    resource_version = [];
    subsets = some subsets;
    rest = [];
  })

  unfoldable pub init_etcd_endpoint : Cluster X → Option (Result Endpoints)
  unfolding endpoints_of member_subsets
  init_etcd_endpoint c =
      elim (if is_imported c then member_subsets c.status.members else some (ok [])) [
        | none ↦ none
        | some r ↦ some (endpoints_of c r)
      ]

  unfoldable pub service_monitor_of : Cluster X → Dict Text → ServiceMonitor
  unfolding monitor_endpoint after_slash
  service_monitor_of c labels = record {
    namespace = c.namespace;
    name = c.name;
    labels = some labels;
    owner = none;
    resource_version = [];
    endpoints = some (
        map
          (monitor_endpoint (monitor_secret c.annotations)
            (has_prefix c.status.service_name (text "https")))
          c.status.members);
    match_names = c.namespace ∷ [];
    match_labels = (etcd_name, c.name) ∷ [];
    rest = [];
  }

  unfoldable pub labelled_monitor :
      Cluster X → Option (Dict Text) → Option (Cluster X × ServiceMonitor)
  unfolding service_monitor_of
  labelled_monitor c none = none
  labelled_monitor c (some m) =
      let labels = named_labels c.name m in
      some (record c { labels = some labels }, service_monitor_of c labels)

  unfoldable pub init_etcd_service_monitor : Cluster X → Option (Cluster X × ServiceMonitor)
  unfolding labelled_monitor
  init_etcd_service_monitor c = labelled_monitor c c.labels
