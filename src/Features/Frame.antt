-- ===== src/Features/Frame.antt =====
-- The features of pkg/featureprovider/providers that leave the cluster alone.
use kstone.Base.{◌≡◌, subst, Option, some, []}
use kstone.Base.Text.{Text}
use kstone.Base.Effect.{Go, Error, pure, ◌>>=◌, paired-eq-some}
use kstone.Api.{Cluster, Inspection}
use kstone.FeatureGate.{is_feature_gate_enabled}
use kstone.Controller.Features.{OnlyGates, OnlyGates-refl, SyncFrames}
use kstone.Inspection.{Inspections, sync, inspection_feature}
use kstone.Backup.{BackupEnv, backup}
use kstone.Backup.Sync.{sync_gate, backup_feature}

-- A synchronisation that answers the cluster as it was.
paired-OnlyGates :
    {W X : Type 0} (m : Go W (Option Error)) (c d : Cluster X) (e : Option Error) (w w' : W)
    → ◌>>=◌ {B = Cluster X × Option Error} m (λ e. pure (c, e)) w ≡ some ((d, e), w')
    → OnlyGates [] c d
paired-OnlyGates m c d e w w' h =
    let (q, k) = paired-eq-some m c (d, e) w w' h in subst (OnlyGates [] c) k (OnlyGates-refl [] c)

-- The features of the inspections change nothing of the cluster.
pub inspection_feature-SyncFrames :
    {W X : Type 0} (api : Inspections W X) (name : Text)
    (inspect : Inspection → Go W (Option Error))
    → SyncFrames (inspection_feature api name inspect)
inspection_feature-SyncFrames api name inspect = record {
  sync = λ c d e w w' h. paired-OnlyGates (sync api c name) c d e w w' h;
}

-- The feature of the backups changes nothing of the cluster.
pub backup_feature-SyncFrames :
    {W X O : Type 0} (env : BackupEnv W X O) → SyncFrames (backup_feature env)
unfolding backup_feature
backup_feature-SyncFrames env = record {
  sync = λ c d e w w' h.
      paired-OnlyGates (sync_gate env c (is_feature_gate_enabled c.annotations backup)) c d e w w'
        h;
}
