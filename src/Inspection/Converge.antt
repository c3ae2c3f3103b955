-- ===== src/Inspection/Converge.antt =====
-- Sync against Equal of pkg/inspection/inspection.go, over an API server that keeps what it says.
use kstone.Base.{◌≡◌, refl, ◌∙◌, subst, Bool, true, false, Option, none, some, [], arith, get_or}
use kstone.Base.Text.{Text, text_eq}
use kstone.Base.Dict.{find}
use kstone.Base.Effect.{Error, pure, >>=-eq-some, >>=-some}
use kstone.Api.{Cluster, Inspection}
use kstone.Interfaces.{Result, ok, err}
use kstone.FeatureGate.{is_feature_gate_enabled, status_disabled}
use kstone.Inspection.{
  Inspections, unless_found, unless_exists, is_not_found, is_ok, task_name, init_task,
  delete_etcd_inspection, create_etcd_inspection, check_equal_if_enabled, equal_disabled,
  equal_gate, equal, create_owned, sync_inspection_task, clean_inspection_task, sync_gate, sync,
}

-- After a creation that succeeds or finds the object there, the object is read; after a deletion
-- that succeeds or does not find it, it is not found. An owner reference renames nothing.
pub record InspectionLaws {W X : Type 0} (api : Inspections W X) : Type 0 where
  pub created :
      (i : Inspection) (e : Option Error) (w w' : W)
      → api.create i w ≡ some (e, w')
      → unless_exists e ≡ none
      → (r : Result Inspection) × (w₁ : W) × (api.get i.namespace i.name w' ≡ some (r, w₁))
        × (is_ok r ≡ true)
  pub deleted :
      (namespace name : Text) (e : Option Error) (w w' : W)
      → api.delete namespace name w ≡ some (e, w')
      → unless_found e ≡ none
      → (r : Result Inspection) × (w₁ : W) × (api.get namespace name w' ≡ some (r, w₁))
        × (is_not_found r ≡ true)
  pub owned :
      (c : Cluster X) (i j : Inspection)
      → api.set_owner_reference c i ≡ ok j
      → (j.namespace ≡ i.namespace) × (j.name ≡ i.name)

module _ {W X : Type 0} {api : Inspections W X} (laws : InspectionLaws api) (c : Cluster X)
    (feature : Text) where
  cleaned :
      (w w' : W)
      → clean_inspection_task api c feature w ≡ some (none, w')
      → (w₁ : W) × (equal_gate api c feature false w' ≡ some (true, w₁))
  unfolding clean_inspection_task delete_etcd_inspection equal_gate
  cleaned w w' h =
      let (e, w₁, p, q) =
        >>=-eq-some (λ e. pure (unless_found e)) (api.delete c.namespace (task_name c feature)) w
          h in
      let a : unless_found e ≡ none = ground arith in
      let b : w₁ ≡ w' = ground arith in
      let (r, w₂, g, n) = laws.deleted c.namespace (task_name c feature) e w w₁ p a in
      look (text_eq (get_or (find feature c.status.feature_gates_status) []) status_disabled) r w₂
        (subst (λ v. api.get c.namespace (task_name c feature) v ≡ some (r, w₂)) b g) n
    where
      look :
          (b : Bool) (r : Result Inspection) (w₂ : W)
          → api.get c.namespace (task_name c feature) w' ≡ some (r, w₂)
          → is_not_found r ≡ true
          → (w₁ : W) × (equal_disabled api c feature b w' ≡ some (true, w₁))
      look true r w₂ g n = (w', refl)
      look false r w₂ g n = (
        w₂,
        >>=-some (λ r. pure (is_not_found r)) (api.get c.namespace (task_name c feature)) g
            ∙ rw n refl,
      )

  made_owned :
      (w w' : W) (j : Inspection)
      → api.set_owner_reference c (init_task c feature (api.now w)) ≡ ok j
      → create_etcd_inspection api j w ≡ some (none, w')
      → (w₁ : W) × (check_equal_if_enabled api c feature w' ≡ some (true, w₁))
  unfolding create_etcd_inspection check_equal_if_enabled init_task
  made_owned w w' j o h =
      let (e, w₁, p, q) = >>=-eq-some (λ e. pure (unless_exists e)) (api.create j) w h in
      let a : unless_exists e ≡ none = ground arith in
      let b : w₁ ≡ w' = ground arith in
      let (r, w₂, g, n) = laws.created j e w w₁ p a in
      let (ns, name) = laws.owned c (init_task c feature (api.now w)) j o in
      let k : api.get c.namespace (task_name c feature) w' ≡ some (r, w₂) = cc (b, g, ns, name) in
      (w₂, >>=-some (λ r. pure (is_ok r)) (api.get c.namespace (task_name c feature)) k ∙ rw n refl)

  made :
      (w w' : W)
      → sync_inspection_task api c feature w ≡ some (none, w')
      → (w₁ : W) × (equal_gate api c feature true w' ≡ some (true, w₁))
  unfolding sync_inspection_task equal_gate
  made w w' h = from (api.set_owner_reference c (init_task c feature (api.now w))) refl h
    where
      from :
          (r : Result Inspection)
          → api.set_owner_reference c (init_task c feature (api.now w)) ≡ r
          → create_owned api r w ≡ some (none, w')
          → (w₁ : W) × (equal_gate api c feature true w' ≡ some (true, w₁))
      from (err x) o q = absurd (ground arith)
      from (ok j) o q = made_owned w w' j o q

  -- Once Sync returned no error, Equal answers true, with the gate enabled or disabled, if the API
  -- server keeps what it says.
  pub sync-equal :
      (w w' : W)
      → sync api c feature w ≡ some (none, w')
      → (w₁ : W) × (equal api c feature w' ≡ some (true, w₁))
  unfolding sync equal
  sync-equal w w' h = go (is_feature_gate_enabled c.annotations feature) h
    where
      go :
          (b : Bool)
          → sync_gate api c feature b w ≡ some (none, w')
          → (w₁ : W) × (equal_gate api c feature b w' ≡ some (true, w₁))
      go false q = cleaned w w' q
      go true q = made w w' q
