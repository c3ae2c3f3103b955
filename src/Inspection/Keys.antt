-- ===== src/Inspection/Keys.antt =====
-- The labels and the changes that pkg/inspection/request.go makes for a key, written out.
use kstone.Base.{◌≡◌, ◌⊎◌, inl, inr, refl, sym, subst, some, List, [], ◌∷◌, ◌++◌, if◌then◌else◌}
use kstone.Base.Text.{Text, text, text_eq, split}
use kstone.Base.Dict.{Dict, lookup, insert, delete}
use kstone.Metrics.{Metric, Change, cluster_name, label_names, values_of, label_values, Entry}
use kstone.Inspection.Request.{
  EventType, Event, etcd_prefix, resource_name, grpc_method, set_parts,
  set_etcd_prefix_and_resource_name,
}

-- The second and the third part of a key.
abbrev pub prefix_in : List Text → Text
prefix_in (root ∷ prefix ∷ more) = prefix
prefix_in _ = []

abbrev pub resource_in : List Text → Text
resource_in (root ∷ prefix ∷ resource ∷ more) = resource
resource_in _ = []

abbrev pub key_prefix : Text → Text
key_prefix key = prefix_in (split b'/' key)

abbrev pub key_resource : Text → Text
key_resource key = resource_in (split b'/' key)

abbrev pub key_entry : Text → Text → Change → Entry
key_entry cluster key ch = record {
  metric = Metric.etcd_key_total;
  values = cluster ∷ key_prefix key ∷ key_resource key ∷ [];
  change = ch;
}

abbrev pub request_entry : Text → Text → Text → Entry
request_entry cluster method key = record {
  metric = Metric.etcd_request_total;
  values = cluster ∷ method ∷ key_prefix key ∷ key_resource key ∷ [];
  change = Change.increment;
}

-- The changes for an event: a key is counted when it is created and discounted when it is deleted,
-- and each event is a request of its method.
abbrev pub event_entries : Text → EventType → Event → List Entry
event_entries cluster EventType.put ev =
    if ev.is_create
    then key_entry cluster ev.key Change.increment ∷ request_entry cluster (text "PUT") ev.key ∷ []
    else request_entry cluster (text "PUT") ev.key ∷ []
event_entries cluster EventType.delete_key ev =
    key_entry cluster ev.key Change.decrement ∷ request_entry cluster (text "Delete") ev.key ∷ []

abbrev pub entries_of : Text → List Event → List Entry
entries_of cluster [] = []
entries_of cluster (ev ∷ evs) = event_entries cluster ev.event_type ev ++ entries_of cluster evs

-- The shared labels before and after an event.
abbrev pub keyed : Text → Text → Dict Text
keyed cluster key =
    (cluster_name, cluster) ∷ (etcd_prefix, key_prefix key) ∷ (resource_name, key_resource key) ∷ []

abbrev pub counted : Text → Text → Text → Dict Text
counted cluster key method =
    (cluster_name, cluster)
    ∷ (etcd_prefix, key_prefix key)
    ∷ (resource_name, key_resource key)
    ∷ (grpc_method, method)
    ∷ []

abbrev pub Shape : Text → Dict Text → Type 0
Shape cluster labels =
    (labels ≡ (cluster_name, cluster) ∷ [])
    ⊎ ((key : Text) × (method : Text) × (labels ≡ counted cluster key method))

keyed_parts :
    (cluster : Text) (parts : List Text)
    → set_parts ((cluster_name, cluster) ∷ (etcd_prefix, []) ∷ (resource_name, []) ∷ []) parts
      ≡ (cluster_name, cluster)
        ∷ (etcd_prefix, prefix_in parts)
        ∷ (resource_name, resource_in parts)
        ∷ []
unfolding set_parts insert text_eq
keyed_parts cluster [] = refl
keyed_parts cluster (a ∷ []) = refl
keyed_parts cluster (a ∷ b ∷ []) = refl
keyed_parts cluster (a ∷ b ∷ c ∷ more) = refl

keyed_first :
    (cluster key : Text)
    → set_etcd_prefix_and_resource_name (delete grpc_method ((cluster_name, cluster) ∷ [])) key
      ≡ keyed cluster key
unfolding set_etcd_prefix_and_resource_name insert delete text_eq
keyed_first cluster key = keyed_parts cluster (split b'/' key)

keyed_again :
    (cluster key old method : Text)
    → set_etcd_prefix_and_resource_name (delete grpc_method (counted cluster old method)) key
      ≡ keyed cluster key
unfolding set_etcd_prefix_and_resource_name insert delete text_eq
keyed_again cluster key old method = keyed_parts cluster (split b'/' key)

pub Shape-keyed :
    (cluster key : Text) (labels : Dict Text)
    → Shape cluster labels
    → set_etcd_prefix_and_resource_name (delete grpc_method labels) key ≡ keyed cluster key
Shape-keyed cluster key labels (inl e) =
    subst (λ l. set_etcd_prefix_and_resource_name (delete grpc_method l) key ≡ keyed cluster key)
      (sym e) (keyed_first cluster key)
Shape-keyed cluster key labels (inr (old, method, e)) =
    subst (λ l. set_etcd_prefix_and_resource_name (delete grpc_method l) key ≡ keyed cluster key)
      (sym e) (keyed_again cluster key old method)

with_method :
    (cluster key method : Text)
    → insert grpc_method method (keyed cluster key) ≡ counted cluster key method
unfolding insert text_eq
with_method cluster key method = refl

pub key_values :
    (cluster key : Text)
    → label_values Metric.etcd_key_total (keyed cluster key)
      ≡ some (cluster ∷ key_prefix key ∷ key_resource key ∷ [])
unfolding label_values label_names values_of lookup text_eq
key_values cluster key = refl

pub request_values :
    (cluster key method : Text)
    → label_values Metric.etcd_request_total (counted cluster key method)
      ≡ some (cluster ∷ method ∷ key_prefix key ∷ key_resource key ∷ [])
unfolding label_values label_names values_of lookup text_eq
request_values cluster key method = refl

abbrev pub method_of : EventType → Text
method_of EventType.put = text "PUT"
method_of EventType.delete_key = text "Delete"
