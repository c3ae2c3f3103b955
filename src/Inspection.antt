-- ===== src/Inspection.antt =====
-- pkg/inspection/inspection.go: the inspection task that a feature of a cluster has while its gate
-- is enabled. The EtcdInspections of the API server are a parameter.
pub mod Converge
pub mod Consistency
pub mod Request
pub mod Keys
pub mod Collect
pub mod Difference
pub mod Order
pub mod Watch
pub mod Alarms
pub mod AlarmValues
pub mod Counted
use kstone.Base.{
  ℕ, Bool, true, false, not, Option, none, some, List, [], ◌∷◌, ◌++◌, if◌then◌else◌, get_or,
}
use kstone.Base.Text.{Text, text, text_eq}
use kstone.Base.Dict.{Dict, find}
use kstone.Base.Effect.{Go, Error, Reason, pure, ◌>>=◌}
use kstone.Api.{Cluster, Status, Inspection}
use kstone.Interfaces.{Result, ok, err, FeatureProvider}
use kstone.FeatureGate.{is_feature_gate_enabled, status_disabled}

-- The texts are a namespace and a name.
pub record Inspections (W X : Type 0) : Type 0 where
  pub get : Text → Text → Go W (Result Inspection)
  pub delete : Text → Text → Go W (Option Error)
  pub create : Inspection → Go W (Option Error)
  pub now : W → ℕ
  pub set_owner_reference : Cluster X → Inspection → Result Inspection

unfoldable pub unless_found : Option Error → Option Error
unless_found none = none
unless_found (some e) = elim e.reason [ Reason.not_found ↦ none | _ ↦ some e ]

unfoldable pub unless_exists : Option Error → Option Error
unless_exists none = none
unless_exists (some e) = elim e.reason [ Reason.already_exists ↦ none | _ ↦ some e ]

unfoldable pub is_not_found : Result Inspection → Bool
is_not_found (ok i) = false
is_not_found (err e) = elim e.reason [ Reason.not_found ↦ true | _ ↦ false ]

unfoldable pub is_ok : Result Inspection → Bool
is_ok (ok i) = true
is_ok (err e) = false

module _ {X : Type 0} where
  abbrev pub task_name : Cluster X → Text → Text
  task_name c feature = c.name ++ (text "-" ++ feature)

  unfoldable pub init_task : Cluster X → Text → ℕ → Inspection
  init_task c feature now = record {
    namespace = c.namespace;
    name = task_name c feature;
    labels = c.labels;
    owner = none;
    spec = record {
      cluster_name = c.name;
      inspection_type = feature;
      inspection_provider = [];
      interval_in_second = 0;
    };
    last_updated_time = now;
  }

module _ {W X : Type 0} (api : Inspections W X) where
  unfoldable pub delete_etcd_inspection : Text → Text → Go W (Option Error)
  unfolding unless_found
  delete_etcd_inspection namespace name = do e ← api.delete namespace name; pure (unless_found e)

  unfoldable pub create_etcd_inspection : Inspection → Go W (Option Error)
  unfolding unless_exists
  create_etcd_inspection i = do e ← api.create i; pure (unless_exists e)

  unfoldable pub check_equal_if_disabled : Cluster X → Text → Go W Bool
  unfolding is_not_found
  check_equal_if_disabled c feature = do
    r ← api.get c.namespace (task_name c feature)
    pure (is_not_found r)

  unfoldable pub check_equal_if_enabled : Cluster X → Text → Go W Bool
  unfolding is_ok
  check_equal_if_enabled c feature = do
    r ← api.get c.namespace (task_name c feature)
    pure (is_ok r)

  -- A gate with no status reads as the empty text.
  unfoldable pub equal_disabled : Cluster X → Text → Bool → Go W Bool
  unfolding check_equal_if_disabled
  equal_disabled c feature true = pure true
  equal_disabled c feature false = check_equal_if_disabled c feature

  unfoldable pub equal_gate : Cluster X → Text → Bool → Go W Bool
  unfolding equal_disabled check_equal_if_enabled
  equal_gate c feature false =
      equal_disabled c feature
        (text_eq (get_or (find feature c.status.feature_gates_status) []) status_disabled)
  equal_gate c feature true = check_equal_if_enabled c feature

  unfoldable pub equal : Cluster X → Text → Go W Bool
  unfolding equal_gate
  equal c feature = equal_gate c feature (is_feature_gate_enabled c.annotations feature)

  unfoldable pub create_owned : Result Inspection → Go W (Option Error)
  unfolding create_etcd_inspection
  create_owned (err e) = pure (some e)
  create_owned (ok task) = create_etcd_inspection task

  unfoldable pub sync_inspection_task : Cluster X → Text → Go W (Option Error)
  unfolding create_owned init_task
  sync_inspection_task c feature w =
      create_owned (api.set_owner_reference c (init_task c feature (api.now w))) w

  unfoldable pub clean_inspection_task : Cluster X → Text → Go W (Option Error)
  unfolding delete_etcd_inspection
  clean_inspection_task c feature = delete_etcd_inspection c.namespace (task_name c feature)

  unfoldable pub sync_gate : Cluster X → Text → Bool → Go W (Option Error)
  unfolding sync_inspection_task clean_inspection_task
  sync_gate c feature false = clean_inspection_task c feature
  sync_gate c feature true = sync_inspection_task c feature

  unfoldable pub sync : Cluster X → Text → Go W (Option Error)
  unfolding sync_gate
  sync c feature = sync_gate c feature (is_feature_gate_enabled c.annotations feature)

  -- The features that wrap the server: their Do is the inspection itself.
  abbrev pub inspection_feature : Text → (Inspection → Go W (Option Error)) → FeatureProvider W X
  inspection_feature feature inspect = record {
    equal = λ c. equal c feature;
    sync = λ c. (do e ← sync c feature; pure (c, e));
    perform = inspect;
  }
