-- ===== src/Members/Runtime.antt =====
-- pkg/clusterprovider/helper.go, GetRuntimeEtcdMembers and GetEtcdClusterMemberStatus: the calls of
-- an etcd client and of the health check.
use kstone.Base.{Option, none, some, List, [], ◌∷◌}
use kstone.Base.Text.{Text, split}
use kstone.Base.Dict.{Dict}
use kstone.Base.Effect.{Go, Error, pure, panic, ◌>>=◌, ◌>>◌}
use kstone.Api.{Phase, MemberStatus}
use kstone.Interfaces.{Result, ok, err, ClientConfig}
use kstone.Members.{
  Member, VersionClient, MemberEnv, get_etcd_client_provider, populate_extension_client_url_map,
  extension_client_url, unanswered, answered, cons_some, member_phase, lower,
}

module _ {W : Type 0} where
  abbrev pub or_panic : {A : Type 0} → Option A → Go W A
  or_panic none = panic
  or_panic (some a) = pure a

  unfoldable pub probe_url :
      VersionClient W → Text → Option (Dict Text) → Member → Text → Go W (Option MemberStatus)
  unfolding unanswered answered extension_client_url
  probe_url client setting urls m url = do
    let extension = extension_client_url setting urls url
    s ← or_panic (unanswered m url extension (split b':' url))
    (rsp, e) ← client.status extension
    s' ← or_panic (answered m s rsp e)
    pure (some s')

  -- A member with no client URLs is skipped; an empty slice of them panics.
  unfoldable pub probe :
      VersionClient W
      → Text
      → Option (Dict Text)
      → Member
      → Option (List Text)
      → Go W (Option MemberStatus)
  unfolding probe_url
  probe client setting urls m none = pure none
  probe client setting urls m (some []) = panic
  probe client setting urls m (some (url ∷ more)) = probe_url client setting urls m url

  unfoldable pub probe_members :
      VersionClient W → Text → Option (Dict Text) → List Member → Go W (List MemberStatus)
  unfolding probe cons_some
  probe_members client setting urls [] = pure []
  probe_members client setting urls (m ∷ ms) = do
    s ← probe client setting urls m m.client_urls
    rest ← probe_members client setting urls ms
    pure (cons_some s rest)

  unfoldable pub list_members :
      VersionClient W
      → Text
      → Result (List Member)
      → Option (Dict Text) × Option Error
      → Go W (List MemberStatus × Option Error)
  unfolding probe_members
  list_members client setting (err e) urls = pure ([], some e)
  list_members client setting (ok ms) (urls, some e) = pure ([], some e)
  list_members client setting (ok ms) (urls, none) = do
    members ← probe_members client setting urls ms
    pure (members, none)

  unfoldable pub with_client :
      Text → Result (VersionClient W) → Go W (List MemberStatus × Option Error)
  unfolding list_members populate_extension_client_url_map
  with_client setting (err e) = pure ([], some e)
  with_client setting (ok client) = do
    rsp ← client.member_list
    r ← list_members client setting rsp (populate_extension_client_url_map setting)
    client.close
    pure r

  unfoldable pub get_runtime_etcd_members :
      MemberEnv W → Text → List Text → Text → ClientConfig → Go W (List MemberStatus × Option Error)
  unfolding get_etcd_client_provider with_client
  get_runtime_etcd_members env storage_backend endpoints setting config = do
    r ← get_etcd_client_provider env storage_backend (record config { endpoints = endpoints })
    with_client setting r

  -- The loop of GetEtcdClusterMemberStatus, with clusterStatus as its accumulator.
  unfoldable pub check_members :
      MemberEnv W → ClientConfig → Phase → List MemberStatus → Go W (List MemberStatus × Phase)
  unfolding member_phase lower
  check_members env config phase [] = pure ([], phase)
  check_members env config phase (m ∷ ms) = do
    (healthy, e) ← env.member_healthy m.extension_client_url config
    let s = member_phase healthy e
    (rest, last) ← check_members env config (lower phase s) ms
    pure (record m { status = s } ∷ rest, last)

  unfoldable pub get_etcd_cluster_member_status :
      MemberEnv W → List MemberStatus → ClientConfig → Go W (List MemberStatus × Phase)
  unfolding check_members
  get_etcd_cluster_member_status env members config = check_members env config Phase.running members
