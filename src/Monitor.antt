-- ===== src/Monitor.antt =====
-- pkg/monitor/prometheus.go: the Service, the Endpoints and the ServiceMonitor of a cluster. The API
-- server is a parameter; the objects have the fields that kstone sets, and those that it carries
-- over. A slice that kstone may make empty is `none` if it is nil.

pub mod Generate
pub mod Sync
pub mod Same
pub mod Store
pub mod Stored
pub mod Ports
pub mod Frame
use kstone.Base.{
  ℕ, Bool, true, false, not, ◌&&◌, Option, none, some, List, [], ◌∷◌, ◌==◌, if◌then◌else◌,
}
use kstone.Base.Text.{Text, text, text_eq}
use kstone.Base.Dict.{Dict, dict_eq}
use kstone.Base.Effect.{Go, Error, pure, ◌>>=◌}
use kstone.Interfaces.{Result, ok, err}

pub record ServicePort : Type 0 where
  pub name : Text
  pub protocol : Text
  pub port : ℕ
  pub target_port : ℕ

-- `rest` is what the API server fills in; kstone makes it empty.
pub record Service : Type 0 where
  pub namespace : Text
  pub name : Text
  pub labels : Option (Dict Text)
  pub owner : Option Text
  pub resource_version : Text
  pub ports : Option (List ServicePort)
  pub selector : Option (Dict Text)
  pub service_type : Text
  pub cluster_ip : Text
  pub rest : Text

pub record EndpointPort : Type 0 where
  pub name : Text
  pub protocol : Text
  pub port : ℕ

pub record Subset : Type 0 where
  pub addresses : List Text
  pub ports : List EndpointPort

-- `rest` stands for all other fields of the subsets; the code sets none.
pub record Endpoints : Type 0 where
  pub namespace : Text
  pub name : Text
  pub labels : Option (Dict Text)
  pub resource_version : Text
  pub subsets : Option (List Subset)
  pub rest : Text

-- RelabelConfig
pub record Relabel : Type 0 where
  pub action : Text
  pub regex : Text
  pub replacement : Text
  pub source_labels : List Text
  pub target_label : Text

-- TLSConfig: the secret, and its keys for the CA, the certificate and the key.
pub record MonitorTls : Type 0 where
  pub secret_name : Text
  pub ca_key : Text
  pub cert_key : Text
  pub key_key : Text
  pub insecure_skip_verify : Bool

pub record MonitorEndpoint : Type 0 where
  pub port : Text
  pub scheme : Text
  pub interval : Text
  pub relabels : List Relabel
  pub tls : Option MonitorTls

-- `rest` stands for all other fields of the Spec, those of its endpoints included; the code sets none.
pub record ServiceMonitor : Type 0 where
  pub namespace : Text
  pub name : Text
  pub labels : Option (Dict Text)
  pub owner : Option Text
  pub resource_version : Text
  pub endpoints : Option (List MonitorEndpoint)
  pub match_names : List Text
  pub match_labels : Dict Text
  pub rest : Text

-- reflect.DeepEqual, structure by structure.
unfoldable pub list_eq : {A : Type 0} → (A → A → Bool) → List A → List A → Bool
list_eq eq [] [] = true
list_eq eq [] (y ∷ ys) = false
list_eq eq (x ∷ xs) [] = false
list_eq eq (x ∷ xs) (y ∷ ys) = eq x y && list_eq eq xs ys

unfoldable pub option_eq : {A : Type 0} → (A → A → Bool) → Option A → Option A → Bool
option_eq eq none none = true
option_eq eq none (some y) = false
option_eq eq (some x) none = false
option_eq eq (some x) (some y) = eq x y

unfoldable pub bool_eq : Bool → Bool → Bool
bool_eq true b = b
bool_eq false b = not b

abbrev pub labels_eq : Option (Dict Text) → Option (Dict Text) → Bool
labels_eq a b = option_eq dict_eq a b

abbrev pub service_port_eq : ServicePort → ServicePort → Bool
service_port_eq a b =
    text_eq a.name b.name
    && (text_eq a.protocol b.protocol && ((a.port == b.port) && (a.target_port == b.target_port)))

abbrev pub endpoint_port_eq : EndpointPort → EndpointPort → Bool
endpoint_port_eq a b =
    text_eq a.name b.name && (text_eq a.protocol b.protocol && (a.port == b.port))

abbrev pub subset_eq : Subset → Subset → Bool
subset_eq a b = list_eq text_eq a.addresses b.addresses && list_eq endpoint_port_eq a.ports b.ports

abbrev pub relabel_eq : Relabel → Relabel → Bool
relabel_eq a b =
    text_eq a.action b.action
    && (text_eq a.regex b.regex
        && (text_eq a.replacement b.replacement
            && (list_eq text_eq a.source_labels b.source_labels
                && text_eq a.target_label b.target_label)))

abbrev pub tls_eq : MonitorTls → MonitorTls → Bool
tls_eq a b =
    text_eq a.secret_name b.secret_name
    && (text_eq a.ca_key b.ca_key
        && (text_eq a.cert_key b.cert_key
            && (text_eq a.key_key b.key_key
                && bool_eq a.insecure_skip_verify b.insecure_skip_verify)))

abbrev pub monitor_endpoint_eq : MonitorEndpoint → MonitorEndpoint → Bool
monitor_endpoint_eq a b =
    text_eq a.port b.port
    && (text_eq a.scheme b.scheme
        && (text_eq a.interval b.interval
            && (list_eq relabel_eq a.relabels b.relabels && option_eq tls_eq a.tls b.tls)))

unfoldable pub service_is_equivalent : Service → Service → Bool
service_is_equivalent old new =
    labels_eq old.labels new.labels
    && (option_eq (list_eq service_port_eq) old.ports new.ports
        && (labels_eq old.selector new.selector
            && (text_eq old.service_type new.service_type
                && (text_eq old.cluster_ip new.cluster_ip && text_eq old.rest new.rest))))

unfoldable pub endpoint_is_equivalent : Endpoints → Endpoints → Bool
endpoint_is_equivalent old new =
    labels_eq old.labels new.labels
    && (option_eq (list_eq subset_eq) old.subsets new.subsets && text_eq old.rest new.rest)

unfoldable pub service_monitor_is_equivalent : ServiceMonitor → ServiceMonitor → Bool
service_monitor_is_equivalent old new =
    labels_eq old.labels new.labels
    && (option_eq (list_eq monitor_endpoint_eq) old.endpoints new.endpoints
        && (list_eq text_eq old.match_names new.match_names
            && (dict_eq old.match_labels new.match_labels && text_eq old.rest new.rest)))
