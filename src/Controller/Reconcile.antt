-- ===== src/Controller/Reconcile.antt =====
-- pkg/controllers/etcdcluster/etcdclusters_controller.go: labels, features, and the reconciliation
-- of a cluster; pkg/controllers/util/util.go: the handling of a work item.
use kstone.Base.{
  Bool, true, false, not, ◌||◌, Option, none, some, List, [], ◌∷◌, ◌++◌, map, if◌then◌else◌, get_or,
}
use kstone.Base.Text.{Text, text}
use kstone.Base.Dict.{Dict, insert, dict_eq}
use kstone.Base.Effect.{Go, Error, not_found, pure, ◌>>=◌}
use kstone.Api.{Cluster, is_running}
use kstone.Interfaces.{Result, ok, err, FeatureProvider, Env}
use kstone.FeatureGate.{is_feature_gate_enabled, status_enabled, status_disabled}
use kstone.Controller.{update_status, handle_cluster_management}

-- strconv.FormatBool
unfoldable pub format_bool : Bool → Text
format_bool true = text "true"
format_bool false = text "false"

-- The writes of handleClusterLabels, one for each registered feature and two more.
unfoldable pub feature_labels : Option (Dict Text) → List Text → Dict Text → Dict Text
unfolding format_bool
feature_labels annotations [] labels = labels
feature_labels annotations (name ∷ names) labels =
    feature_labels annotations names
      (insert name (format_bool (is_feature_gate_enabled annotations name)) labels)

abbrev is_empty {ℓ} : {A : Type ℓ} → List A → Bool
is_empty [] = true
is_empty (x ∷ xs) = false

-- reflect.DeepEqual of a map with one that is not nil.
unfoldable pub labels_equal : Option (Dict Text) → Dict Text → Bool
labels_equal none labels = false
labels_equal (some m) labels = dict_eq m labels

unfoldable pub failed_text : Text → Error → Text
failed_text name e = text "failed to sync " ++ (name ++ (text " feature, err is " ++ e.message))

-- What the gate's status becomes after a synchronisation.
unfoldable pub synced_text : Option (Dict Text) → Text → Option Error → Text
unfolding failed_text
synced_text annotations name (some e) = failed_text name e
synced_text annotations name none =
    if is_feature_gate_enabled annotations name then status_enabled else status_disabled

module _ {X : Type 0} where
  unfoldable pub desired_labels : List Text → Cluster X → Dict Text → Dict Text
  unfolding feature_labels
  desired_labels names c labels =
      insert (text "version") c.spec.version (
        insert (text "clusterType") c.spec.cluster_type (feature_labels c.annotations names labels))

  unfoldable pub set_gate_status : Text → Text → Cluster X → Cluster X
  set_gate_status name value c = record c {
    status = record (c.status) {
      feature_gates_status = some (insert name value (get_or c.status.feature_gates_status []));
    };
  }

  unfoldable pub with_gates : Cluster X → Cluster X
  with_gates c = record c {
    status = record (c.status) {
      feature_gates_status = some (get_or c.status.feature_gates_status []);
    };
  }

  -- The cluster runs and has members.
  unfoldable pub is_ready : Cluster X → Bool
  is_ready c = not (not (is_running c.status.phase) || is_empty c.status.members)

module _ {W X : Type 0} where
  abbrev pub feature_names : Env W X → List Text
  feature_names env = map (λ f. f.0) env.features

  unfoldable pub push_labels : Env W X → Cluster X → Dict Text → Go W (Cluster X × Option Error)
  unfolding labels_equal update_status
  push_labels env c labels =
      if labels_equal c.labels labels
      then pure (c, none)
      else update_status env (record c { labels = some labels })

  -- A map that is not nil is shared with the cluster: the writes change the cluster's own labels.
  unfoldable pub handle_cluster_labels : Env W X → Cluster X → Go W (Cluster X × Option Error)
  unfolding desired_labels push_labels
  handle_cluster_labels env c = elim c.labels [
    | none ↦ push_labels env c (desired_labels (feature_names env) c [])
    | some m ↦
        let labels = desired_labels (feature_names env) c m in
        push_labels env (record c { labels = some labels }) labels
  ]

  unfoldable pub after_equal : Text → FeatureProvider W X → Cluster X → Bool → Go W (Cluster X)
  unfolding set_gate_status synced_text
  after_equal name feature c true = pure c
  after_equal name feature c false = do
    (d, e) ← feature.sync c
    pure (set_gate_status name (synced_text c.annotations name e) d)

  unfoldable pub sync_feature :
      Text → Go W (Result (FeatureProvider W X)) → Cluster X → Go W (Cluster X)
  unfolding after_equal
  sync_feature name factory c = do
    r ← factory
    elim r [
      | err e ↦ pure c
      | ok feature ↦ do same ← feature.equal c; after_equal name feature c same
    ]

  unfoldable pub sync_features :
      List (Text × Go W (Result (FeatureProvider W X))) → Cluster X → Go W (Cluster X)
  unfolding sync_feature
  sync_features [] c = pure c
  sync_features ((name, factory) ∷ fs) c = do c' ← sync_feature name factory c; sync_features fs c'

  unfoldable pub handle_cluster_feature : Env W X → Cluster X → Go W (Cluster X × Option Error)
  unfolding with_gates sync_features is_ready update_status
  handle_cluster_feature env c =
      if not (is_ready c)
      then pure (c, none)
      else do c' ← sync_features env.features (with_gates c); update_status env c'

  -- What follows the management: nothing, unless the cluster is running.
  unfoldable pub reconcile_running : Env W X → Cluster X → Bool → Go W (Option Error)
  unfolding handle_cluster_labels handle_cluster_feature
  reconcile_running env c false = pure none
  reconcile_running env c true = do
    (c', e) ← handle_cluster_labels env c
    elim e [ some e ↦ pure (some e) | none ↦ do (c'', e') ← handle_cluster_feature env c'; pure e' ]

  unfoldable pub reconcile_etcd_cluster : Env W X → Cluster X → Go W (Option Error)
  unfolding reconcile_running
  reconcile_etcd_cluster env c = do
    (c', e) ← handle_cluster_management env c
    elim e [ some e ↦ pure (some e) | none ↦ reconcile_running env c' (is_running c'.status.phase) ]

  -- `split_key` is cache.SplitMetaNamespaceKey of client-go.
  unfoldable pub sync_etcd_cluster :
      (Text → Option (Text × Text)) → Env W X → Text → Go W (Option Error)
  unfolding reconcile_etcd_cluster
  sync_etcd_cluster split_key env key = elim (split_key key) [
    | none ↦ pure none
    | some (namespace, name) ↦ do
      r ← env.get_cluster namespace name
      elim r [
        | err e ↦ elim e.reason [ not_found ↦ pure none | _ ↦ pure (some e) ]
        | ok c ↦ reconcile_etcd_cluster env c
      ]
  ]
