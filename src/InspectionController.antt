-- ===== src/InspectionController.antt =====
-- pkg/controllers/etcdinspection/etcdinspection_controller.go: the synchronisation of an
-- EtcdInspection, which is the inspection of its type. Its work queue is the one of WorkQueue.
use kstone.Base.{Option, none, some}
use kstone.Base.Text.{Text}
use kstone.Base.Effect.{Go, Error, Reason, pure, ◌>>=◌}
use kstone.Api.{Inspection}
use kstone.Interfaces.{Result, ok, err, FeatureProvider}
use kstone.Registry.{Factories, get_provider, feature_missing}

-- `get` is the lister. `context` is the FeatureContext of the controller.
pub record InspectionEnv (W X C : Type 0) : Type 0 where
  pub split_key : Text → Option (Text × Text)
  pub get : Text → Text → Go W (Result Inspection)
  pub features : Factories W C (FeatureProvider W X)
  pub context : C

module _ {W X C : Type 0} (env : InspectionEnv W X C) where
  unfoldable pub perform_with : Inspection → Result (FeatureProvider W X) → Go W (Option Error)
  perform_with i (err e) = pure (some e)
  perform_with i (ok feature) = feature.perform i

  unfoldable pub do_inspection_task : Inspection → Go W (Option Error)
  unfolding perform_with get_provider
  do_inspection_task i = do
    feature ← get_provider feature_missing env.features i.spec.inspection_type env.context
    perform_with i feature

  -- A resource that is gone is no error.
  unfoldable pub do_found : Result Inspection → Go W (Option Error)
  unfolding do_inspection_task
  do_found (err e) = elim e.reason [ Reason.not_found ↦ pure none | _ ↦ pure (some e) ]
  do_found (ok i) = do_inspection_task i

  unfoldable pub do_cluster_inspection : Text → Go W (Option Error)
  unfolding do_found
  do_cluster_inspection key = elim (env.split_key key) [
    | none ↦ pure none
    | some (namespace, name) ↦ do r ← env.get namespace name; do_found r
  ]
