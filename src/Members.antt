-- ===== src/Members.antt =====
-- pkg/clusterprovider/helper.go: the members of an etcd cluster and their health, and
-- pkg/etcd/client: the interface of the two client versions and its registry.
pub mod Runtime
pub mod Urls
pub mod Health
use kstone.Base.{
  ◌≡◌, Bool, true, false, not, ◌&&◌, Option, none, some, List, [], ◌∷◌, ◌++◌, map, if◌then◌else◌,
}
use kstone.Base.Text.{Text, text, text_eq, split, split2, has_prefix, trim_prefix}
use kstone.Base.Dict.{Dict, lookup, insert, find}
use kstone.Base.Effect.{Go, Error, new_error, pure, panic, ◌>>=◌, ◌>>◌}
use kstone.Api.{Phase, MemberPhase, MemberRole, MemberStatus, Cluster, Status, is_running}
use kstone.Interfaces.{Result, ok, err, ClientConfig}

-- client.Member; `client_urls` is `none` for a nil slice.
pub record Member : Type 0 where
  pub id : Text
  pub name : Text
  pub peer_urls : List Text
  pub client_urls : Option (List Text)
  pub version : Text
  pub is_learner : Bool
  pub leader : Text

pub record VersionClient (W : Type 0) : Type 0 where
  pub member_list : Go W (Result (List Member))
  pub status : Text → Go W (Option Member × Option Error)
  pub close : Go W (Unit {0})

-- The registry of the client versions, and the health check of a member.
pub record MemberEnv (W : Type 0) : Type 0 where
  pub factories : Dict (ClientConfig → Go W (Result (VersionClient W)))
  pub member_healthy : Text → ClientConfig → Go W (Bool × Option Error)

-- A cluster with no storage backend is read as v3.
unfoldable pub get_etcd_client_provider :
    {W : Type 0} → MemberEnv W → Text → ClientConfig → Go W (Result (VersionClient W))
get_etcd_client_provider env name config =
    elim (lookup (if text_eq name [] then text "v3" else name) env.factories) [
      | none ↦ pure (err (new_error (text "fatal error,etcd cluster provider not found")))
      | some factory ↦ factory config
    ]

unfoldable pub get_storage_member_endpoints : {X : Type 0} → Cluster X → List Text
get_storage_member_endpoints c = map (λ m. m.extension_client_url) c.status.members

-- One item `from->to` of the annotation extClientURL.
unfoldable pub populate_item : Text → List Text → Dict Text → Result (Dict Text)
populate_item item (from ∷ to ∷ []) urls = ok (insert from to urls)
populate_item item _ urls = err (new_error (text "invalid extensionClientURLs " ++ item))

unfoldable pub populate_items : List Text → Dict Text → Option (Dict Text) × Option Error
unfolding populate_item
populate_items [] urls = (some urls, none)
populate_items (item ∷ items) urls = elim (populate_item item (split2 b'-' b'>' item) urls) [
  | err e ↦ (some urls, some e)
  | ok urls' ↦ populate_items items urls'
]

unfoldable pub populate_extension_client_url_map : Text → Option (Dict Text) × Option Error
unfolding populate_items
populate_extension_client_url_map urls =
    if text_eq urls [] then (none, none) else populate_items (split b',' urls) []

abbrev pub https : Text
https = text "https://"

abbrev pub http : Text
http = text "http://"

unfoldable pub replace_host : Text → Option (Dict Text) → Text → Text → Text
replace_host scheme urls url ep = elim (find ep urls) [ none ↦ url | some to ↦ scheme ++ to ]

unfoldable pub extension_client_url : Text → Option (Dict Text) → Text → Text
unfolding replace_host
extension_client_url setting urls url =
    if text_eq setting []
    then url
    else if has_prefix url https
    then replace_host https urls url (trim_prefix url https)
    else replace_host http urls url (trim_prefix url http)

unfoldable pub role_of : Member → Member → MemberRole
role_of m rsp =
    if rsp.is_learner
    then MemberRole.learner
    else if text_eq rsp.leader m.id
    then MemberRole.leader
    else MemberRole.follower

-- What the answer of a member makes of its entry. With neither an answer nor an error, the call
-- err.Error() panics.
unfoldable pub answered : Member → MemberStatus → Option Member → Option Error → Option MemberStatus
unfolding role_of
answered m s (some rsp) none =
    some (record s { status = MemberPhase.running; version = rsp.version; role = role_of m rsp })
answered m s none (some e) = some (record s { errors = e.message ∷ [] })
answered m s (some rsp) (some e) = some (record s { errors = e.message ∷ [] })
answered m s none none = none

-- The entry of a member that did not answer yet; the host and the port are the second and the third
-- part of the URL, which panics if they are missing.
unfoldable pub unanswered : Member → Text → Text → List Text → Option MemberStatus
unanswered m url extension (scheme ∷ host ∷ port ∷ rest) = some (record {
  name = m.name;
  member_id = m.id;
  status = MemberPhase.unstarted;
  version = [];
  endpoint = trim_prefix host (text "//");
  port = port;
  client_url = url;
  extension_client_url = extension;
  role = MemberRole.unknown;
  errors = [];
})
unanswered m url extension _ = none

unfoldable pub cons_some : Option MemberStatus → List MemberStatus → List MemberStatus
cons_some none ms = ms
cons_some (some m) ms = m ∷ ms

unfoldable pub member_phase : Bool → Option Error → MemberPhase
member_phase healthy (some e) = MemberPhase.unknown
member_phase true none = MemberPhase.running
member_phase false none = MemberPhase.unhealthy

unfoldable pub runs : MemberPhase → Bool
runs MemberPhase.running = true
runs _ = false

unfoldable pub lower : Phase → MemberPhase → Phase
unfolding runs
lower phase s = if not (runs s) && is_running phase then Phase.unhealthy else phase
