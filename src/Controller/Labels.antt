-- ===== src/Controller/Labels.antt =====
-- handleClusterLabels: which labels it writes, and when the API server hears of them.
use kstone.Base.{◌≡◌, refl, Option, none, some, List, [], ◌∷◌, any, arith, if◌then◌else◌}
use kstone.Base.Text.{Text, text, text_eq, text_eq_iff}
use kstone.Base.Dict.{Dict, lookup, insert, lookup-insert, dict_eq_refl}
use kstone.Api.{Cluster}
use kstone.Interfaces.{Env}
use kstone.FeatureGate.{is_feature_gate_enabled}
use kstone.Controller.{update_status}
use kstone.Controller.Reconcile.{
  format_bool, feature_labels, desired_labels, feature_names, labels_equal, push_labels,
  handle_cluster_labels,
}

lookup-feature_labels :
    (annotations : Option (Dict Text)) (names : List Text) (m : Dict Text) (k : Text)
    → lookup k (feature_labels annotations names m) ≡ (
        if any (λ n. text_eq n k) names
        then some (format_bool (is_feature_gate_enabled annotations k))
        else lookup k m)
unfolding feature_labels
lookup-feature_labels annotations [] m k = refl
lookup-feature_labels annotations (n ∷ ns) m k =
    let b = format_bool (is_feature_gate_enabled annotations n) in
    ground (
      arith,
      lookup-feature_labels annotations ns (insert n b m) k,
      lookup-insert n k b m,
      text_eq_iff n k,
    )

module _ {X : Type 0} where
  -- A label is the version, the type of the cluster, the gate of a registered feature, or what it
  -- was before: the writes touch nothing else.
  pub lookup-desired_labels :
      (names : List Text) (c : Cluster X) (m : Dict Text) (k : Text)
      → lookup k (desired_labels names c m) ≡ (
          if text_eq (text "version") k
          then some c.spec.version
          else if text_eq (text "clusterType") k
          then some c.spec.cluster_type
          else if any (λ n. text_eq n k) names
          then some (format_bool (is_feature_gate_enabled c.annotations k))
          else lookup k m)
  unfolding desired_labels
  lookup-desired_labels names c m k = simp (lookup-insert, lookup-feature_labels)

module _ {W X : Type 0} (env : Env W X) where
  -- The labels of a cluster that has any are changed in memory only: the map that is compared with
  -- the cluster's is the cluster's own, so no update is sent.
  pub labels_shared :
      (c : Cluster X) (m : Dict Text) (w : W)
      → c.labels ≡ some m
      → handle_cluster_labels env c w
        ≡ some ((record c { labels = some (desired_labels (feature_names env) c m) }, none), w)
  unfolding handle_cluster_labels push_labels
  labels_shared c m w h =
      rw (h, handle_cluster_labels) (rw (dict_eq_refl (desired_labels (feature_names env) c m)))

  -- A cluster with no labels is always updated.
  pub labels_fresh :
      (c : Cluster X) (w : W)
      → c.labels ≡ none
      → handle_cluster_labels env c w
        ≡ update_status env (record c { labels = some (desired_labels (feature_names env) c []) }) w
  unfolding handle_cluster_labels push_labels labels_equal
  labels_fresh c w h = rw (h, handle_cluster_labels) (rw (h, labels_equal))
