-- ===== src/Operator/Compare.antt =====
-- pkg/clusterprovider/providers/kstone/kstone.go, Equal and resourceEqual: whether the EtcdCluster of
-- etcd-operator is as the EtcdCluster of kstone wants it.
use kstone.Base.{
  ℕ, ◌-◌, Bool, true, false, not, ◌&&◌, Option, none, some, List, [], ◌∷◌, ◌++◌, if◌then◌else◌, ltb,
  ◌==◌,
}
use kstone.Base.Text.{Text, text, text_eq, trim_left, trim_right2}
use kstone.Base.Decimal.{itoa}
use kstone.Base.Effect.{Error}
use kstone.Api.{Cluster}
use kstone.Interfaces.{Result, ok, err}
use kstone.Unstructured.{Value, Accessors}
use kstone.Operator.{Foreign}

-- strconv.Itoa(int(x)) of a uint: from 2^63 on the int is negative.
unfoldable pub itoa_of_uint : ℕ → Text
itoa_of_uint n =
    if ltb n 9223372036854775808 then itoa n else text "-" ++ itoa (18446744073709551616 - n)

-- corev1.ResourceName, in the order of resourceTypeNames.
pub data ResourceName : Type 0 where
  requests_cpu requests_memory limits_cpu limits_memory : ResourceName

unfoldable pub resource_type : ResourceName → Text
resource_type requests_cpu = text "requests"
resource_type requests_memory = text "requests"
resource_type limits_cpu = text "limits"
resource_type limits_memory = text "limits"

unfoldable pub resource_name : ResourceName → Text
resource_name requests_cpu = text "cpu"
resource_name requests_memory = text "memory"
resource_name limits_cpu = text "cpu"
resource_name limits_memory = text "memory"

abbrev pub resource_type_names : List ResourceName
resource_type_names = requests_cpu ∷ requests_memory ∷ limits_cpu ∷ limits_memory ∷ []

abbrev pub storage_path : List Text
storage_path =
    text "spec"
    ∷ text "template"
    ∷ text "persistentVolumeClaimSpec"
    ∷ text "resources"
    ∷ text "requests"
    ∷ text "storage"
    ∷ []

abbrev is_empty {ℓ} : {A : Type ℓ} → List A → Bool
is_empty [] = true
is_empty (x ∷ xs) = false

-- The default value "0" stands for a resource that is not set.
unfoldable pub get_old_resource : Accessors → Value → ResourceName → Text
unfolding resource_type resource_name
get_old_resource a etcd r =
    let resource =
      a.nested_string etcd (
        text "spec"
        ∷ text "template"
        ∷ text "resources"
        ∷ resource_type r
        ∷ resource_name r
        ∷ []) in
    if text_eq resource [] then text "0" else resource

module _ {X : Type 0} (a : Accessors) (k : Foreign X) where
  unfoldable pub get_desired_resource : Cluster X → ResourceName → Text
  get_desired_resource c requests_cpu = k.cpu_text c.spec.requests
  get_desired_resource c requests_memory = k.memory_text c.spec.requests
  get_desired_resource c limits_cpu = k.cpu_text c.spec.limits
  get_desired_resource c limits_memory = k.memory_text c.spec.limits

  unfoldable pub resources_equal : Cluster X → Value → List ResourceName → Bool
  unfolding get_old_resource get_desired_resource
  resources_equal c etcd [] = true
  resources_equal c etcd (r ∷ rs) =
      if not (text_eq (get_old_resource a etcd r) (get_desired_resource c r))
      then false
      else resources_equal c etcd rs

  unfoldable pub resource_equal : Cluster X → Value → Bool
  unfolding resources_equal
  resource_equal c etcd = resources_equal c etcd resource_type_names

  -- Two empty lists are equal, whether nil or not.
  unfoldable pub env_equal : Cluster X → Result (List X) → Bool × Option Error
  env_equal c (err e) = (true, some e)
  env_equal c (ok old) =
      if is_empty old && is_empty c.spec.env
      then (true, none)
      else if not (k.env_equal old c.spec.env)
      then (false, none)
      else (true, none)

  unfoldable pub object_equal : Cluster X → Value → Bool × Option Error
  object_equal c etcd =
      if not (c.spec.size == a.nested_int64 etcd (text "spec" ∷ text "size" ∷ []))
      then (false, none)
      else if not (
          text_eq (trim_left b'v' (a.nested_string etcd (text "spec" ∷ text "version" ∷ [])))
            (trim_left b'v' c.spec.version))
      then (false, none)
      else if not (
          text_eq (trim_right2 b'G' b'i' (a.nested_string etcd storage_path))
            (itoa_of_uint c.spec.disk_size))
      then (false, none)
      else if not (resource_equal c etcd)
      then (false, none)
      else env_equal c
          (k.decode_env (a.nested_slice etcd (text "spec" ∷ text "template" ∷ text "env" ∷ [])))
