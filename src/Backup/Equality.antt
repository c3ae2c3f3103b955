-- ===== src/Backup/Equality.antt =====
-- The backup feature in the pass of the cluster controller, and the secret that a backup names.
use kstone.Base.{◌≡◌, ◌↔◌, refl, sym, ◌∙◌, subst, Bool, true, false, Option, some, ◌++◌, arith}
use kstone.Base.Text.{Text, text}
use kstone.Base.Split.{is_free}
use kstone.Base.Effect.{Error, pure, >>=-eq-some, paired-eq-some}
use kstone.Api.{Cluster}
use kstone.Interfaces.{Result, ok, err}
use kstone.FeatureGate.{is_feature_gate_enabled}
use kstone.Controller.Reconcile.{after_equal, set_gate_status, synced_text, sync_feature}
use kstone.ClientSecret.{secret_ref}
use kstone.ClientSecret.Reference.{split-path, secret_ref-split}
use kstone.Backup.{BackupEnv, EtcdBackup, backup, second_part, backup_secret, is_missing_in}
use kstone.Backup.Sync.{
  init_etcd_backup, compared, deep_equal, compare_found, get_etcd_backup, check_equal_if_enabled,
  equal_gate, sync_gate, sync_backup, backup_feature,
}

-- A backup reads the secret b in the namespace of the cluster when the annotation certName is a/b,
-- and so the one that the controller reads exactly if a is that namespace.
pub backup_secret-secret_ref :
    (namespace name a b : Text)
    → is_free b'/' namespace ≡ true
    → is_free b'/' name ≡ true
    → is_free b'/' a ≡ true
    → is_free b'/' b ≡ true
    → let path = namespace ++ (text "/" ++ name) in
      let cert = a ++ (text "/" ++ b) in
      (secret_ref path (backup_secret cert) ≡ ok (namespace, b))
      × ((secret_ref path (backup_secret cert) ≡ secret_ref path cert) ↔ (a ≡ namespace))
unfolding backup_secret second_part
backup_secret-secret_ref namespace name a b h₁ h₂ h₃ h₄ =
    let (full, local) = secret_ref-split namespace name a b h₁ h₂ h₃ h₄ in
    rw (split-path a b h₃ h₄) (local, rw (full, local) (λ e. cc, λ e. cc))

module _ {W X O : Type 0} (env : BackupEnv W X O) (c : Cluster X) where
  never_equal : (b : Bool) (w w' : W) → check_equal_if_enabled env c w ≡ some (b, w') → b ≡ false
  unfolding check_equal_if_enabled compare_found compared deep_equal
  never_equal b w w' h =
      let (old, w₁, p, q) =
        >>=-eq-some (λ old. compare_found env c old (is_missing_in old))
          (get_etcd_backup env c.name c.namespace) w h in
      look old (is_missing_in old) w₁ q
    where
      compared-false : (old new : Result (EtcdBackup X)) → compared env old new ≡ false
      compared-false old (err e) = refl
      compared-false old (ok new) = refl

      look :
          (old : Result (EtcdBackup X)) (m : Bool) (w₁ : W)
          → compare_found env c old m w₁ ≡ some (b, w')
          → b ≡ false
      look old true w₁ q = ground arith
      look old false w₁ q =
          let (new, w₂, p, r) =
            >>=-eq-some (λ new. pure (compared env old new)) (init_etcd_backup env c) w₁ q in
          let d : b ≡ compared env old new = ground arith in d ∙ compared-false old new

  -- In every pass over a cluster whose backup gate is enabled the backup is synchronised, whatever
  -- is stored already, and the status of the gate is the result of that.
  pub enabled-synced :
      (c' : Cluster X) (w w' : W)
      → is_feature_gate_enabled c.annotations backup ≡ true
      → sync_feature backup (pure (ok (backup_feature env))) c w ≡ some (c', w')
      → (e : Option Error) × (w₁ : W) × (sync_backup env c w₁ ≡ some (e, w'))
        × (c' ≡ set_gate_status backup (synced_text c.annotations backup e) c)
  unfolding sync_feature after_equal backup_feature equal_gate sync_gate
  enabled-synced c' w w' g h =
      let (same, w₁, p, q) =
        >>=-eq-some (after_equal backup (backup_feature env) c) ((backup_feature env).equal c) w
          h in
      let f = never_equal same w w₁ (subst (λ b. equal_gate env c b w ≡ some (same, w₁)) g p) in
      let q' : after_equal backup (backup_feature env) c false w₁ ≡ some (c', w') =
        subst (λ b. after_equal backup (backup_feature env) c b w₁ ≡ some (c', w')) f q in
      let ((c₂, e), w₂, r', s) = >>=-eq-some _ ((backup_feature env).sync c) w₁ q' in
      let gate = is_feature_gate_enabled c.annotations backup in
      let (r, y) = paired-eq-some (sync_gate env c gate) c (c₂, e) w₁ w₂ r' in
      let d : w₂ ≡ w' = ground arith in
      let t : set_gate_status backup (synced_text c.annotations backup e) c ≡ c' = cc in
      (
        e,
        w₁,
        subst (λ v. sync_backup env c w₁ ≡ some (e, v)) d
            (subst (λ b. sync_gate env c b w₁ ≡ some (e, w₂)) g r),
        sym t,
      )
