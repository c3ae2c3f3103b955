-- ===== src/Operator/Provider.antt =====
-- pkg/clusterprovider/providers/kstone/kstone.go: the hooks that call etcd-operator through the
-- dynamic client, Status, and the value of clusterprovider.Cluster that they make up.
use kstone.Base.{
  Bool, true, false, not, ◌||◌, Option, none, some, List, [], ◌∷◌, if◌then◌else◌, ◌==◌, length,
}
use kstone.Base.Text.{Text, text}
use kstone.Base.Dict.{find}
use kstone.Base.Effect.{Go, Error, Reason, pure, ◌>>=◌}
use kstone.Api.{Phase, MemberStatus, Cluster, Status, is_running}
use kstone.Interfaces.{Result, ok, err, ClientConfig, ClusterProvider, leave}
use kstone.Unstructured.{Value, null, str, obj, end, fields, copy_dict, Accessors}
use kstone.Members.{MemberEnv, get_storage_member_endpoints}
use kstone.Members.Runtime.{get_runtime_etcd_members, get_etcd_cluster_member_status}
use kstone.Operator.{Foreign, rounds, annotation, imported_addr, ext_client_url, after_create}
use kstone.Operator.Generate.{generate_etcd_spec, update_etcd_spec}
use kstone.Operator.Compare.{object_equal}

-- controllerutil.SetOwnerReference and the dynamic client of etcdclusters.etcd.tkestack.io; the
-- text is a namespace, a second one a name.
pub record OperatorClient (W X : Type 0) : Type 0 where
  pub set_owner_reference : Cluster X → Value → Result Value
  pub create : Text → Value → Go W (Option Error)
  pub get : Text → Text → Go W (Result Value)
  pub update : Text → Value → Go W (Option Error)

unfoldable pub is_unknown_phase : Phase → Bool
is_unknown_phase Phase.unknown = true
is_unknown_phase _ = false

-- The endpoints that Status asks, with the status it goes on with: the imported address stands in
-- for members that are not known yet.
unfoldable pub endpoints_or : Status → List Text → Option Text → Option (List Text × Status)
endpoints_or s [] none = none
endpoints_or s [] (some addr) = some (addr ∷ [], record s { service_name = addr })
endpoints_or s (ep ∷ eps) addr = some (ep ∷ eps, s)

unfoldable pub status_endpoints : {X : Type 0} → Cluster X → Option (List Text × Status)
unfolding get_storage_member_endpoints endpoints_or
status_endpoints c =
    endpoints_or c.status (get_storage_member_endpoints c) (find imported_addr c.annotations)

-- What a failed or an incomplete listing of the members makes of the phase.
unfoldable pub lost : Status → Status
lost status = if is_running status.phase then record status { phase = Phase.unknown } else status

unfoldable pub checked : Status → List MemberStatus × Phase → Status
unfolding is_unknown_phase
checked status (members, phase) =
    let status' = record status { members = members } in
    if is_running status.phase || not (is_unknown_phase phase)
    then record status' { phase = phase }
    else status'

-- An EtcdCluster that is there already is as good as a new one.
unfoldable pub keep_unless_exists : Option Error → Option Error
keep_unless_exists none = none
keep_unless_exists (some e) = elim e.reason [ Reason.already_exists ↦ none | _ ↦ some e ]

module _ {W X : Type 0} (env : MemberEnv W) where
  -- What Status makes of the members that it was given.
  unfoldable pub status_of_members :
      ClientConfig
      → Cluster X
      → Status
      → List MemberStatus × Option Error
      → Go W (Status × Option Error)
  unfolding lost checked get_etcd_cluster_member_status
  status_of_members config c status (ms, some e) = pure (lost status, some e)
  status_of_members config c status (ms, none) =
      if not (rounds c.spec.size == length ms) || (length ms == 0)
      then pure (lost status, none)
      else (get_etcd_cluster_member_status env ms config >>= λ r. pure (checked status r, none))

  -- The listing stores the endpoints in the configuration behind the pointer.
  unfoldable pub status_from :
      ClientConfig → Cluster X → Option (List Text × Status) → Go W (Status × Option Error)
  unfolding status_of_members get_runtime_etcd_members
  status_from config c none = pure (record c.status { phase = Phase.creating }, none)
  status_from config c (some (endpoints, status)) = do
    r ←
        get_runtime_etcd_members env c.spec.storage_backend endpoints (annotation c ext_client_url)
          config
    status_of_members (record config { endpoints = endpoints }) c status r

  unfoldable pub status : ClientConfig → Cluster X → Go W (Status × Option Error)
  unfolding status_endpoints status_from
  status config c = status_from config c (status_endpoints c)

module _ {W X : Type 0} (k : Foreign X) (a : Accessors) (client : OperatorClient W X)
    (env : MemberEnv W) where
  unfoldable pub operator_cluster : Cluster X → Value
  unfolding generate_etcd_spec
  operator_cluster c = obj (
      fields (
        (text "apiVersion", str (text "etcd.tkestack.io/v1alpha1"))
        ∷ (text "kind", str (text "EtcdCluster"))
        ∷ (
          text "metadata",
          obj (
              fields (
                (text "name", str c.name)
                ∷ (text "namespace", str c.namespace)
                ∷ (
                  text "annotations",
                  elim c.annotations [ none ↦ null | some m ↦ obj (copy_dict m end) ],
                )
                ∷ [])),
        )
        ∷ (text "spec", obj (generate_etcd_spec k c))
        ∷ []))

  unfoldable pub create_operator_cluster :
      Cluster X → Result Value → Go W (Cluster X × Option Error)
  unfolding keep_unless_exists
  create_operator_cluster c (err e) = pure (c, some e)
  create_operator_cluster c (ok request) = do
    e ← client.create c.namespace request
    pure (c, keep_unless_exists e)

  unfoldable pub create : Cluster X → Go W (Cluster X × Option Error)
  unfolding operator_cluster create_operator_cluster
  create c = create_operator_cluster c (client.set_owner_reference c (operator_cluster c))

  unfoldable pub put_operator_cluster : Cluster X → Result Value → Go W (Cluster X × Option Error)
  put_operator_cluster c (err e) = pure (c, some e)
  put_operator_cluster c (ok etcd) = do e ← client.update c.namespace etcd; pure (c, e)

  unfoldable pub update_got : Cluster X → Result Value → Go W (Cluster X × Option Error)
  unfolding put_operator_cluster update_etcd_spec
  update_got c (err e) = pure (c, some e)
  update_got c (ok etcd) = put_operator_cluster c (update_etcd_spec k a etcd c)

  unfoldable pub update : Cluster X → Go W (Cluster X × Option Error)
  unfolding update_got
  update c = do r ← client.get c.namespace c.name; update_got c r

  unfoldable pub equal_got : Cluster X → Result Value → Bool × Option Error
  unfolding object_equal
  equal_got c (err e) = (true, some e)
  equal_got c (ok etcd) = object_equal a k c etcd

  unfoldable pub equal : Cluster X → Go W (Bool × Option Error)
  unfolding equal_got
  equal c = do r ← client.get c.namespace c.name; pure (equal_got c r)

  unfoldable pub kstone_provider : ClusterProvider W X
  unfolding create after_create update equal status
  kstone_provider = record {
    before_create = leave;
    create = create;
    after_create = after_create;
    before_update = leave;
    update = update;
    after_update = leave;
    equal = equal;
    status = status env;
  }
