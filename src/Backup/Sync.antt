-- ===== src/Backup/Sync.antt =====
-- pkg/backup/backup.go, the comparison and the synchronisation of the EtcdBackup, and
-- pkg/featureprovider/providers/backup/backup.go, the feature.
use kstone.Base.{Bool, true, false, not, Option, none, some, [], ◌++◌, if◌then◌else◌, get_or}
use kstone.Base.Text.{Text, text, text_eq}
use kstone.Base.Dict.{find}
use kstone.Base.Effect.{Go, Error, new_error, pure, ◌>>=◌}
use kstone.Api.{Cluster}
use kstone.Interfaces.{Result, ok, err, FeatureProvider}
use kstone.FeatureGate.{is_feature_gate_enabled, status_disabled}
use kstone.Backup.{
  BackupConfig, EtcdBackup, BackupEnv, backup, is_missing, is_missing_in, unless_missing,
  create_error, parse_backup_config, secured,
}

unfoldable pub failed : {A : Type 0} → Result A → Option Error
failed (ok a) = none
failed (err e) = some e

module _ {W X O : Type 0} (env : BackupEnv W X O) where
  unfoldable pub encoded : Result O → Result (EtcdBackup X)
  encoded (err e) = err e
  encoded (ok o) = env.encode o

  unfoldable pub get_etcd_backup : Text → Text → Go W (Result (EtcdBackup X))
  unfolding encoded
  get_etcd_backup name namespace = do r ← env.get namespace name; pure (encoded r)

  unfoldable pub create_object : Text → Result O → Go W (Option Error)
  unfolding create_error
  create_object namespace (err e) =
      pure (some (new_error (text "decode backup failed, err is " ++ e.message)))
  create_object namespace (ok o) = do e ← env.create namespace o; pure (create_error e)

  unfoldable pub create_etcd_backup_by_yaml : EtcdBackup X → Go W (Option Error)
  unfolding create_object
  create_etcd_backup_by_yaml b = create_object b.namespace (env.decode b)

  unfoldable pub update_object : Text → O → Result O → Go W (Result (EtcdBackup X))
  unfolding encoded
  update_object namespace o (err e) = pure (err e)
  update_object namespace o (ok old) = do
    r ← env.update namespace (env.set_resource_version (env.resource_version old) o)
    pure (encoded r)

  unfoldable pub update_decoded : EtcdBackup X → Result O → Go W (Result (EtcdBackup X))
  unfolding update_object
  update_decoded b (err e) =
      pure (err (new_error (text "decode backup failed, err is " ++ e.message)))
  update_decoded b (ok o) = do old ← env.get b.namespace b.name; update_object b.namespace o old

  unfoldable pub update_etcd_backup : EtcdBackup X → Go W (Result (EtcdBackup X))
  unfolding update_decoded
  update_etcd_backup b = update_decoded b (env.decode b)

  unfoldable pub delete_etcd_backup : Text → Text → Go W (Option Error)
  unfolding unless_missing
  delete_etcd_backup name namespace = do e ← env.delete namespace name; pure (unless_missing e)

  unfoldable pub init_parsed :
      Cluster X → Result (BackupConfig X × Text) → Go W (Result (EtcdBackup X))
  unfolding secured
  init_parsed c (err e) = pure (err e)
  init_parsed c (ok (cfg, secret)) = do
    config ← env.client_config (c.namespace ++ (text "/" ++ c.name)) secret
    pure (secured c cfg secret config)

  unfoldable pub init_etcd_backup : Cluster X → Go W (Result (EtcdBackup X))
  unfolding init_parsed parse_backup_config
  init_etcd_backup c = init_parsed c (parse_backup_config env.unmarshal c)

  unfoldable pub check_equal_if_disabled : Cluster X → Go W Bool
  unfolding get_etcd_backup is_missing_in
  check_equal_if_disabled c = do r ← get_etcd_backup c.name c.namespace; pure (is_missing_in r)

  -- reflect.DeepEqual of a pointer to a backup and a pointer to such a pointer: the types differ.
  unfoldable pub deep_equal : Result (EtcdBackup X) → EtcdBackup X → Bool
  deep_equal old new = false

  unfoldable pub compared : Result (EtcdBackup X) → Result (EtcdBackup X) → Bool
  unfolding deep_equal
  compared old (err e) = false
  compared old (ok new) = deep_equal old new

  unfoldable pub compare_found : Cluster X → Result (EtcdBackup X) → Bool → Go W Bool
  unfolding compared init_etcd_backup
  compare_found c old true = pure false
  compare_found c old false = do new ← init_etcd_backup c; pure (compared old new)

  unfoldable pub check_equal_if_enabled : Cluster X → Go W Bool
  unfolding compare_found get_etcd_backup is_missing_in
  check_equal_if_enabled c = do
    old ← get_etcd_backup c.name c.namespace
    compare_found c old (is_missing_in old)

  unfoldable pub updated : Result (EtcdBackup X) → Result (EtcdBackup X) → Bool
  unfolding deep_equal
  updated old (err e) = false
  updated old (ok new) = not (deep_equal old new)

  unfoldable pub equal_found : Cluster X → Result (EtcdBackup X) → Go W Bool
  unfolding updated init_etcd_backup is_missing
  equal_found c (err e) = pure (is_missing e)
  equal_found c (ok old) = do new ← init_etcd_backup c; pure (updated (ok old) new)

  -- Server.Equal, which no feature calls.
  unfoldable pub equal : Cluster X → Go W Bool
  unfolding equal_found get_etcd_backup
  equal c = do old ← get_etcd_backup c.name c.namespace; equal_found c old

  unfoldable pub clean_backup : Cluster X → Go W (Option Error)
  unfolding delete_etcd_backup
  clean_backup c = delete_etcd_backup c.name c.namespace

  unfoldable pub put_backup : EtcdBackup X → Result (EtcdBackup X) → Go W (Option Error)
  unfolding create_etcd_backup_by_yaml update_etcd_backup failed is_missing
  put_backup b (ok old) = do r ← update_etcd_backup b; pure (failed r)
  put_backup b (err e) = if is_missing e then create_etcd_backup_by_yaml b else pure (some e)

  unfoldable pub put_owned : Cluster X → Result (EtcdBackup X) → Go W (Option Error)
  unfolding put_backup get_etcd_backup
  put_owned c (err e) = pure (some e)
  put_owned c (ok b) = do old ← get_etcd_backup c.name c.namespace; put_backup b old

  unfoldable pub own : Cluster X → Result (EtcdBackup X) → Go W (Option Error)
  unfolding put_owned
  own c (err e) = pure (some e)
  own c (ok b) = put_owned c (env.set_owner_reference c b)

  unfoldable pub sync_backup : Cluster X → Go W (Option Error)
  unfolding own init_etcd_backup
  sync_backup c = do b ← init_etcd_backup c; own c b

  unfoldable pub equal_gate : Cluster X → Bool → Go W Bool
  unfolding check_equal_if_enabled check_equal_if_disabled
  equal_gate c true = check_equal_if_enabled c
  equal_gate c false =
      if text_eq (get_or (find backup c.status.feature_gates_status) []) status_disabled
      then pure true
      else check_equal_if_disabled c

  unfoldable pub sync_gate : Cluster X → Bool → Go W (Option Error)
  unfolding clean_backup sync_backup
  sync_gate c true = sync_backup c
  sync_gate c false = clean_backup c

  unfoldable pub backup_feature : FeatureProvider W X
  unfolding equal_gate sync_gate
  backup_feature = record {
    equal = λ c. equal_gate c (is_feature_gate_enabled c.annotations backup);
    sync = λ c. (do e ← sync_gate c (is_feature_gate_enabled c.annotations backup); pure (c, e));
    perform = λ i. pure none;
  }
