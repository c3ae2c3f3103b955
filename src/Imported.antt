-- ===== src/Imported.antt =====
-- pkg/clusterprovider/providers/imported/cluster.go: the provider of clusters that kstone only
-- watches.
pub mod Contract
use kstone.Base.{Bool, true, false, Option, none, some, List, [], ◌∷◌}
use kstone.Base.Text.{Text}
use kstone.Base.Dict.{find}
use kstone.Base.Effect.{Go, Error, pure, ◌>>=◌}
use kstone.Api.{Phase, MemberStatus, Cluster, Spec, Status}
use kstone.Interfaces.{ClientConfig, ClusterProvider, leave}
use kstone.Members.{MemberEnv}
use kstone.Members.Runtime.{get_runtime_etcd_members, get_etcd_cluster_member_status}
use kstone.Operator.{annotation, ext_client_url}
use kstone.Operator.Provider.{status_endpoints}

abbrev pub taken : Status → Option Error → List MemberStatus × Phase → Status × Option Error
taken status e (members, phase) = (record status { members = members; phase = phase }, e)

module _ {W : Type 0} (env : MemberEnv W) where
  -- An error beside members that were listed does not stop the check of these.
  unfoldable pub status_of_members :
      ClientConfig → Status → List MemberStatus × Option Error → Go W (Status × Option Error)
  unfolding get_etcd_cluster_member_status
  status_of_members config status ([], some e) =
      pure (record status { phase = Phase.unknown }, some e)
  status_of_members config status (ms, e) = do
    r ← get_etcd_cluster_member_status env ms config
    pure (taken status e r)

module _ {W X : Type 0} (env : MemberEnv W) where
  abbrev pub equal : Cluster X → Go W (Bool × Option Error)
  equal c = pure (true, none)

  unfoldable pub status_from :
      ClientConfig → Cluster X → Option (List Text × Status) → Go W (Status × Option Error)
  unfolding status_of_members get_runtime_etcd_members
  status_from config c none = pure (record c.status { phase = Phase.unknown }, none)
  status_from config c (some (endpoints, status)) = do
    r ←
        get_runtime_etcd_members env c.spec.storage_backend endpoints (annotation c ext_client_url)
          config
    status_of_members env (record config { endpoints = endpoints }) status r

  unfoldable pub status : ClientConfig → Cluster X → Go W (Status × Option Error)
  unfolding status_endpoints status_from
  status config c = status_from config c (status_endpoints c)

  unfoldable pub imported_provider : ClusterProvider W X
  unfolding status
  imported_provider = record {
    before_create = leave;
    create = leave;
    after_create = leave;
    before_update = leave;
    update = leave;
    after_update = leave;
    equal = equal;
    status = status;
  }
