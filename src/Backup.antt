-- ===== src/Backup.antt =====
-- pkg/backup/backup.go, and pkg/featureprovider/providers/backup/backup.go: the EtcdBackup that a
-- cluster has while its backup feature is enabled. The dynamic client, JSON and the client
-- configuration are parameters. `X` is a part of the backup configuration that is passed on.
pub mod Sync
pub mod Equality
use kstone.Base.{
  Bool, true, false, not, ◌&&◌, Option, none, some, List, [], ◌∷◌, ◌++◌, if◌then◌else◌, is_some,
  get_or,
}
use kstone.Base.Text.{Text, text, text_eq, split}
use kstone.Base.Dict.{Dict, find}
use kstone.Base.Effect.{Go, Error, Reason, new_error, pure, ◌>>=◌}
use kstone.Api.{Cluster, Spec, Status, AuthConfig}
use kstone.Interfaces.{Result, ok, err, ClientConfig, SecureConfig}
use kstone.Controller.{cert_name}

-- Config: the policy and the source are values of etcd-operator.
pub record BackupConfig (X : Type 0) : Type 0 where
  pub storage_type : Text
  pub policy : X
  pub source : X

-- EtcdBackup, with the fields that kstone sets.
pub record EtcdBackup (X : Type 0) : Type 0 where
  pub namespace : Text
  pub name : Text
  pub labels : Option (Dict Text)
  pub owner : Option Text
  pub etcd_endpoints : List Text
  pub storage_type : Text
  pub policy : X
  pub source : X
  pub client_tls_secret : Text
  pub insecure_skip_verify : Bool
  pub basic_auth_secret : Text

-- `O` is an object of the dynamic client: `decode` and `encode` convert from and to it, and the
-- calls name a namespace and a name. `client_config` is clientConfigGetter.New.
pub record BackupEnv (W X O : Type 0) : Type 0 where
  pub unmarshal : Text → Option (BackupConfig X)
  pub client_config : Text → Text → Go W (Result ClientConfig)
  pub set_owner_reference : Cluster X → EtcdBackup X → Result (EtcdBackup X)
  pub decode : EtcdBackup X → Result O
  pub encode : O → Result (EtcdBackup X)
  pub resource_version : O → Text
  pub set_resource_version : Text → O → O
  pub get : Text → Text → Go W (Result O)
  pub delete : Text → Text → Go W (Option Error)
  pub create : Text → O → Go W (Option Error)
  pub update : Text → O → Go W (Result O)

abbrev pub backup : Text
backup = text "backup"

-- strings.Contains(s, "/"), and the second part of the name then.
unfoldable pub second_part : Text → List Text → Text
second_part s (a ∷ b ∷ more) = b
second_part s _ = s

unfoldable pub backup_secret : Text → Text
unfolding second_part
backup_secret s = second_part s (split b'/' s)

unfoldable pub is_missing : Error → Bool
is_missing e = elim e.reason [ Reason.not_found ↦ true | _ ↦ false ]

unfoldable pub is_missing_in : {A : Type 0} → Result A → Bool
unfolding is_missing
is_missing_in (ok a) = false
is_missing_in (err e) = is_missing e

unfoldable pub unless_missing : Option Error → Option Error
unfolding is_missing
unless_missing none = none
unless_missing (some e) = if is_missing e then none else some e

-- CreateEtcdBackupByYaml ignores an object that is there.
unfoldable pub create_error : Option Error → Option Error
create_error none = none
create_error (some e) = elim e.reason [
  | Reason.already_exists ↦ none
  | _ ↦ some (new_error (text "create etcdbackup failed, err is " ++ e.message))
]

module _ {X : Type 0} where
  unfoldable pub decoded : Text → Option (BackupConfig X) → Result (BackupConfig X × Text)
  decoded secret none = err (new_error (text "backup config parse failed"))
  decoded secret (some cfg) = ok (cfg, secret)

  -- TLS needs the annotation certName.
  unfoldable pub configured :
      (Text → Option (BackupConfig X)) → Cluster X → Text → Result (BackupConfig X × Text)
  unfolding decoded backup_secret
  configured unmarshal c text_config =
      if c.spec.auth_config.enable_tls && not (is_some (find cert_name c.annotations))
      then err (new_error (text "secretName not found"))
      else decoded (backup_secret (get_or (find cert_name c.annotations) []))
          (unmarshal text_config)

  unfoldable pub parse_backup_config :
      (Text → Option (BackupConfig X)) → Cluster X → Result (BackupConfig X × Text)
  unfolding configured
  parse_backup_config unmarshal c = elim (find backup c.annotations) [
    | none ↦ err (new_error (text "backup config not found"))
    | some text_config ↦ configured unmarshal c text_config
  ]

  unfoldable pub backup_of : Cluster X → BackupConfig X → EtcdBackup X
  backup_of c cfg = record {
    namespace = c.namespace;
    name = c.name;
    labels = c.labels;
    owner = none;
    etcd_endpoints = c.status.service_name ∷ [];
    storage_type = cfg.storage_type;
    policy = cfg.policy;
    source = cfg.source;
    client_tls_secret = [];
    insecure_skip_verify = false;
    basic_auth_secret = [];
  }

  unfoldable pub with_user : Text → SecureConfig → EtcdBackup X → EtcdBackup X
  with_user secret s b =
      if text_eq s.username [] then b else record b { basic_auth_secret = secret }

  unfoldable pub with_ca : Text → SecureConfig → EtcdBackup X → EtcdBackup X
  with_ca secret s b =
      if text_eq s.ca_cert []
      then b
      else record b { client_tls_secret = secret; insecure_skip_verify = true }

  unfoldable pub secured :
      Cluster X → BackupConfig X → Text → Result ClientConfig → Result (EtcdBackup X)
  unfolding backup_of with_user with_ca
  secured c cfg secret (err e) = err e
  secured c cfg secret (ok config) =
      ok (with_ca secret config.secure (with_user secret config.secure (backup_of c cfg)))
