-- ===== src/BackupCheck.antt =====
-- pkg/inspection/backupcheck.go, with GetBackupConfig of pkg/backup/util.go and the Stat of the two
-- storages under pkg/backup/providers: the count of the backups of the last day.
pub mod Counts
pub mod Failed
use kstone.Base.{
  ℕ, zero, suc, ◌-◌, ◌*◌, ◌/◌, Bool, true, false, Option, none, some, List, [], ◌∷◌, ◌++◌, ltb,
  if◌then◌else◌,
}
use mathlib.Core.List.{reverse}
use kstone.Base.Text.{Text, text, cat}
use kstone.Base.Int.{ℤ, quotient, greater, minus_floor}
use kstone.Base.Dict.{Dict, find}
use kstone.Base.Effect.{Go, Error, Reason, new_error, pure, panic, ◌>>=◌, ◌>>◌}
use kstone.Api.{Cluster, Inspection}
use kstone.Interfaces.{Result, ok, err}
use kstone.Metrics.{Metric, Change, Collector, cluster_name, count_failure}

abbrev pub one_day_seconds : ℕ
one_day_seconds = 24 * 60 * 60

-- BackupPolicy of etcd-operator, as far as it is read.
pub record Policy : Type 0 where
  pub interval_in_second : ℤ
  pub max_backups : ℤ

pub record Config : Type 0 where
  pub storage_type : Text
  pub policy : Option Policy

-- Storage; `O` stands for the objects that are listed.
pub record Storage (W X O : Type 0) : Type 0 where
  pub list : Cluster X → Go W (Result O)
  pub stat : O → Go W (Result ℕ)

-- `unmarshal` is json.Unmarshal into a Config, `storage` the registry of the storages.
pub record CheckEnv (W X O : Type 0) : Type 0 where
  pub get_cluster : Text → Text → Go W (Result (Cluster X))
  pub unmarshal : Text → Result Config
  pub storage : Text → Go W (Result (Storage W X O))
  pub collector : Collector W

abbrev pub anno_backup_config : Text
anno_backup_config = text "backup"

-- The times count nanoseconds. An object that is older than a day ends the count.
abbrev pub is_old : ℕ → ℕ → Bool
is_old now modified = ltb one_day_seconds ((now - modified) / 1_000_000_000)

unfoldable pub counted_one : Result ℕ → Result ℕ
counted_one (err e) = err e
counted_one (ok n) = ok (suc n)

-- The reading of the clock that follows the first.
abbrev pub later : (ℕ → ℕ) → ℕ → ℕ
later clock n = clock (suc n)

-- The loop of the storage COS, from the last object on; `none` is a time that time.Parse refuses.
-- `clock` gives the readings of the clock, one for each object.
unfoldable pub count_parsed : (ℕ → ℕ) → List (Option ℕ) → Result ℕ
unfolding counted_one
count_parsed clock [] = ok 0
count_parsed clock (none ∷ objects) = err (new_error (text "can not parse COS time"))
count_parsed clock (some t ∷ objects) =
    let rest = counted_one (count_parsed (later clock) objects) in
    if is_old (clock 0) t then ok 0 else rest

-- The objects as the type assertion finds them, if it succeeds.
unfoldable pub stat_cos : (ℕ → ℕ) → Option (List (Option ℕ)) → Result ℕ
unfolding count_parsed
stat_cos clock none = err (new_error (text "can not decode objects to COS objects"))
stat_cos clock (some objects) = count_parsed clock (reverse objects)

unfoldable pub count_recent : (ℕ → ℕ) → List ℕ → ℕ
count_recent clock [] = 0
count_recent clock (t ∷ objects) =
    let rest = suc (count_recent (later clock) objects) in if is_old (clock 0) t then 0 else rest

unfoldable pub stat_s3 : (ℕ → ℕ) → Option (List ℕ) → Result ℕ
unfolding count_recent
stat_s3 clock none = err (new_error (text "can not decode objects to S3 objects"))
stat_s3 clock (some objects) = ok (count_recent clock (reverse objects))

abbrev pub config_missing : {X : Type 0} → Cluster X → Error
config_missing c = new_error (
    cat (
      text "backup config not found, annotation key "
      ∷ anno_backup_config
      ∷ text " not exists, namespace is "
      ∷ c.namespace
      ∷ text ", name is "
      ∷ c.name
      ∷ []))

-- The files that should be there: one for each interval of a day, and no more than are kept.
unfoldable pub capped : ℤ → ℤ → ℤ
capped desired max = if greater desired max then max else desired

unfoldable pub failed_files : ℕ → Policy → Option ℕ
unfolding capped
failed_files actual p = elim (quotient one_day_seconds p.interval_in_second) [
  | none ↦ none
  | some desired ↦ some (minus_floor (capped desired p.max_backups) actual)
]

unfoldable pub failed_by : ℕ → Option Policy → Option ℕ
unfolding failed_files
failed_by actual none = none
failed_by actual (some p) = failed_files actual p

-- The error that is returned, and the one that the deferred function counts.
abbrev pub Outcome : Type 0
Outcome = Option Error × Option Error

abbrev pub failed_with : Error → Outcome
failed_with e = (some e, some e)

-- A cluster that is gone is no error, but is counted as one.
unfoldable pub cluster_error : Error → Outcome
cluster_error e = elim e.reason [ Reason.not_found ↦ (none, some e) | _ ↦ failed_with e ]

module _ {W X O : Type 0} (env : CheckEnv W X O) where
  unfoldable pub get_backup_config : Cluster X → Result Config
  get_backup_config c = elim (find anno_backup_config c.annotations) [
    | none ↦ err (config_missing c)
    | some cfg ↦ env.unmarshal cfg
  ]

  -- A missing policy and an interval of zero panic.
  unfoldable pub report : Text → ℕ → Option ℕ → Go W Outcome
  report name actual none = panic
  report name actual (some failed) = do
    env.collector Metric.etcd_backup_files ((cluster_name, name) ∷ []) (Change.set_to actual)
    env.collector Metric.etcd_failed_backup_files ((cluster_name, name) ∷ []) (Change.set_to failed)
    pure (none, none)

  unfoldable pub stat_done : Text → Config → Result ℕ → Go W Outcome
  unfolding report failed_by
  stat_done name cfg (err e) = pure (failed_with e)
  stat_done name cfg (ok actual) = report name actual (failed_by actual cfg.policy)

  unfoldable pub listed : Text → Config → Storage W X O → Result O → Go W Outcome
  unfolding stat_done
  listed name cfg storage (err e) = pure (failed_with e)
  listed name cfg storage (ok objects) = do n ← storage.stat objects; stat_done name cfg n

  unfoldable pub with_storage : Text → Cluster X → Config → Result (Storage W X O) → Go W Outcome
  unfolding listed
  with_storage name c cfg (err e) = pure (failed_with e)
  with_storage name c cfg (ok storage) = do
    objects ← storage.list c
    listed name cfg storage objects

  unfoldable pub with_config : Text → Cluster X → Result Config → Go W Outcome
  unfolding with_storage
  with_config name c (err e) = pure (failed_with e)
  with_config name c (ok cfg) = do
    storage ← env.storage cfg.storage_type
    with_storage name c cfg storage

  unfoldable pub with_found : Text → Result (Cluster X) → Go W Outcome
  unfolding with_config cluster_error get_backup_config
  with_found name (err e) = pure (cluster_error e)
  with_found name (ok c) = with_config name c (get_backup_config c)

  unfoldable pub stat_backup_files : Inspection → Go W (Option Error)
  unfolding with_found count_failure
  stat_backup_files i = do
    c ← env.get_cluster i.namespace i.spec.cluster_name
    (returned, counted) ← with_found i.spec.cluster_name c
    count_failure env.collector i.spec.cluster_name (text "backupcheck") counted
    pure returned
