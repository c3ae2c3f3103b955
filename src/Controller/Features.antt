-- ===== src/Controller/Features.antt =====
-- handleClusterFeature: what a pass over the features changes.
use kstone.Base.{◌≡◌, refl, ◌∙◌, ◌⊎◌, false, Option, some, List, [], ◌∷◌, map, any, arith}
use kstone.Base.Text.{Text, text_eq}
use kstone.Base.Dict.{Dict, find}
use kstone.Base.Effect.{Go, Error}
use kstone.Api.{Cluster}
use kstone.Interfaces.{Result, ok, FeatureProvider}
use kstone.Monitor.Generate.{etcd_name}
use kstone.Controller.Reconcile.{synced_text}

module _ {X : Type 0} where
  -- Two clusters that differ in the label etcdName and in the status of gates only, and only in the
  -- gates that `names` holds.
  pub record OnlyGates (names : List Text) (c d : Cluster X) : Type 0 where
    pub namespace : d.namespace ≡ c.namespace
    pub name : d.name ≡ c.name
    pub annotations : d.annotations ≡ c.annotations
    pub labels : (k : Text) → text_eq etcd_name k ≡ false → find k d.labels ≡ find k c.labels
    pub spec : d.spec ≡ c.spec
    pub conditions : d.status.conditions ≡ c.status.conditions
    pub phase : d.status.phase ≡ c.status.phase
    pub members : d.status.members ≡ c.status.members
    pub service_name : d.status.service_name ≡ c.status.service_name
    pub gates :
        (k : Text)
        → any (λ n. text_eq n k) names ≡ false
        → find k d.status.feature_gates_status ≡ find k c.status.feature_gates_status

  pub OnlyGates-refl : (ns : List Text) (c : Cluster X) → OnlyGates ns c c
  OnlyGates-refl ns c = ground arith

  -- After a synchronisation that changes no gate.
  pub OnlyGates-after :
      (ns : List Text) (c d e : Cluster X) → OnlyGates [] c d → OnlyGates ns d e → OnlyGates ns c e
  OnlyGates-after ns c d e p q = record {
    namespace = q.namespace ∙ p.namespace;
    name = q.name ∙ p.name;
    annotations = q.annotations ∙ p.annotations;
    labels = λ k h. q.labels k h ∙ p.labels k h;
    spec = q.spec ∙ p.spec;
    conditions = q.conditions ∙ p.conditions;
    phase = q.phase ∙ p.phase;
    members = q.members ∙ p.members;
    service_name = q.service_name ∙ p.service_name;
    gates = λ k h. q.gates k h ∙ p.gates k refl;
  }

  -- A gate's status is what it was, or reports a synchronisation under the annotations of `c`.
  abbrev pub Reported : Cluster X → Cluster X → Text → Type 0
  Reported c d k =
      (find k d.status.feature_gates_status ≡ find k c.status.feature_gates_status)
      ⊎ ((e : Option Error) × (find k d.status.feature_gates_status
            ≡ some (synced_text c.annotations k e)))

-- A feature whose synchronisation changes nothing of the cluster but its label etcdName.
pub record SyncFrames {W X : Type 0} (f : FeatureProvider W X) : Type 0 where
  pub sync :
      (c d : Cluster X) (e : Option Error) (w w' : W)
      → f.sync c w ≡ some ((d, e), w')
      → OnlyGates [] c d

-- Every feature that a factory answers is such a feature.
abbrev pub AllFrames : {W X : Type 0} → List (Text × Go W (Result (FeatureProvider W X))) → Type 0
AllFrames [] = Unit
AllFrames {W} {X} ((n, factory) ∷ fs) =
    ((f : FeatureProvider W X) (w w' : W) → factory w ≡ some (ok f, w') → SyncFrames f)
    × AllFrames fs

abbrev pub names_of : {W X : Type 0} → List (Text × Go W (Result (FeatureProvider W X))) → List Text
names_of fs = map (λ f. f.0) fs
