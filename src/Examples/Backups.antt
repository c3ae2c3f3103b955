-- ===== src/Examples/Backups.antt =====
-- The theorems on backups at concrete inputs.
use kstone.Base.{ℕ, ◌+◌, ◌≡◌, ◌↔◌, refl, Option, none, some, [], ◌∷◌}
use kstone.Base.Text.{text, text_eq, split}
use kstone.Base.Split.{is_free}
use kstone.Base.Dict.{lookup}
use kstone.Base.Effect.{Error, Reason, pure}
use kstone.Api.{Cluster}
use kstone.Interfaces.{ok, err}
use kstone.FeatureGate.{is_feature_gate_enabled, parse_bool}
use kstone.Controller.Reconcile.{set_gate_status, synced_text, sync_feature}
use kstone.ClientSecret.{secret_ref}
use kstone.Backup.{BackupConfig, BackupEnv, backup, backup_of, backup_secret}
use kstone.Backup.Sync.{backup_feature, sync_backup}
use kstone.Backup.Equality.{backup_secret-secret_ref, enabled-synced}
use kstone.Examples.{World, cluster, config}

backup_secret-secret_ref_example :
    (secret_ref (text "ns/c") (backup_secret (text "kube/cert")) ≡ ok (text "ns", text "cert"))
    × ((secret_ref (text "ns/c") (backup_secret (text "kube/cert"))
          ≡ secret_ref (text "ns/c") (text "kube/cert"))
        ↔ (text "kube" ≡ text "ns"))
unfolding is_free
backup_secret-secret_ref_example =
    backup_secret-secret_ref (text "ns") (text "c") (text "kube") (text "cert") refl refl refl refl

abbrev cfg : BackupConfig ℕ
cfg = record { storage_type = text "S3"; policy = 1; source = 2 }

abbrev missing : Error
missing = record { reason = Reason.not_found; message = text "not found" }

abbrev backed_up : Cluster ℕ
backed_up = record cluster {
  annotations = some ((text "featureGates", text "backup=true") ∷ (text "backup", text "{}") ∷ []);
}

-- A server without backups.
abbrev backups : BackupEnv World ℕ ℕ
backups = record {
  unmarshal = λ s. some cfg;
  client_config = λ path secret. pure (ok config);
  set_owner_reference = λ c b. ok b;
  decode = λ b. ok 7;
  encode = λ o. ok (backup_of backed_up cfg);
  resource_version = λ o. text "1";
  set_resource_version = λ v o. o;
  get = λ namespace name. pure (err missing);
  delete = λ namespace name. pure none;
  create = λ namespace o w. some (none, w + 1);
  update = λ namespace o w. some (ok o, w + 1);
}

enabled-synced_example :
    (e : Option Error) × (w₁ : World) × (sync_backup backups backed_up w₁ ≡ some (e, 4))
    × (set_gate_status backup (text "enabled") backed_up
        ≡ set_gate_status backup (synced_text backed_up.annotations backup e) backed_up)
unfolding sync_feature backup_feature is_feature_gate_enabled lookup text_eq split parse_bool
enabled-synced_example =
    enabled-synced backups backed_up (set_gate_status backup (text "enabled") backed_up) 3 4 refl
      refl
