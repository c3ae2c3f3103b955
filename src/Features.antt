-- ===== src/Features.antt =====
-- pkg/featureprovider/providers: the features over the inspection server, and the one instance that
-- each provider makes for all its callers.
pub mod Once
pub mod Frame
use kstone.Base.{Bool, true, false, Option, none, some, if◌then◌else◌}
use kstone.Base.Text.{Text, text}
use kstone.Base.Effect.{Go, Error, pure, ◌>>=◌}
use kstone.Interfaces.{Result, ok, err, FeatureProvider}
use kstone.EtcdClient.{EtcdLibrary}
use kstone.EtcdStats.{StatCalls}
use kstone.BackupCheck.{CheckEnv, stat_backup_files}
use kstone.Inspection.{Inspections, inspection_feature}
use kstone.Inspection.Collect.{Server, collect_alarm_list, collect_member_healthy}
use kstone.Inspection.Difference.{collect_cluster_consistent_data}
use kstone.Inspection.Watch.{WatchEnv, collect_etcd_cluster_request}

-- The variables once and instance of a provider: the instance is set before its server is made, and
-- `none` inside is a server that could not be made.
pub record Shared (S : Type 0) : Type 0 where
  pub is_done : Bool
  pub instance_of : Option (Option S)

abbrev pub no_instance : {S : Type 0} → Shared S
no_instance = record { is_done = false; instance_of = none }

abbrev pub Instance : Type 0 → Type 0
Instance S = Shared S × (Option (Option S) × Option Error)

unfoldable pub kept : {S : Type 0} → Result S → Instance S
kept (ok s) = (record { is_done = true; instance_of = some (some s) }, (some (some s), none))
kept (err e) = (record { is_done = true; instance_of = some none }, (some none, some e))

-- initFeature...Instance; the error of once.Do is that of its first call.
unfoldable pub init_feature_instance :
    {W S : Type 0} → Go W (Result S) → Shared S → Go W (Instance S)
unfolding kept
init_feature_instance make shared =
    if shared.is_done
    then pure (shared, (shared.instance_of, none))
    else (do s ← make; pure (kept s))

module _ {W X K Client2 Client : Type 0} (api : Inspections W X)
    (lib : EtcdLibrary W K Client2 Client) (server : Server W X Client) where
  unfoldable pub feature_alarm : FeatureProvider W X
  unfolding collect_alarm_list
  feature_alarm = inspection_feature api (text "alarm") (collect_alarm_list lib server)

  unfoldable pub feature_healthy : FeatureProvider W X
  unfolding collect_member_healthy
  feature_healthy = inspection_feature api (text "healthy") (collect_member_healthy lib server)

  unfoldable pub feature_consistency :
      StatCalls W Client2 Client → (Text → Text) → FeatureProvider W X
  unfolding collect_cluster_consistent_data
  feature_consistency calls held =
      inspection_feature api (text "consistency")
        (collect_cluster_consistent_data lib calls server held)

  unfoldable pub feature_request : WatchEnv W Client → FeatureProvider W X
  unfolding collect_etcd_cluster_request
  feature_request env =
      inspection_feature api (text "request") (collect_etcd_cluster_request lib server env)

unfoldable pub feature_backup_check :
    {W X O : Type 0} → Inspections W X → CheckEnv W X O → FeatureProvider W X
unfolding stat_backup_files
feature_backup_check api env = inspection_feature api (text "backupcheck") (stat_backup_files env)
