-- ===== src/Router.antt =====
-- pkg/router/router.go: the reverse proxy to the API server, the keys of an etcd cluster and the list
-- of its backups. gin, the clients and the parts of Encoding, ClientSecret and EtcdClient that call
-- out are parameters; a handler answers a status and a body.
pub mod Replies
use kstone.Base.{
  ℕ, Bool, true, false, not, ◌&&◌, ◌||◌, Option, none, some, List, [], ◌∷◌, ◌++◌, ◌==◌,
  if◌then◌else◌, get_or,
}
use kstone.Base.Text.{Text, text, text_eq, cat}
use kstone.Base.Dict.{Dict, find, insert}
use kstone.Base.Effect.{Go, Error, pure, panic, ◌>>=◌, ◌>>◌}
use kstone.Api.{Cluster}
use kstone.Interfaces.{Result, ok, err, ClientConfig}
use kstone.Controller.{cert_name}
use kstone.EtcdClient.{EtcdLibrary, new_client_v3}
use kstone.Encoding.{Serializers, detect_and_extract}
use kstone.Encoding.Convert.{convert_to_data, convert_to_json}
use kstone.BackupCheck.{CheckEnv, Config, Storage, get_backup_config}

pub data Method : Type 0 where
  get_method post_method other_method : Method

abbrev pub group_name : Text
group_name = text "kstone.tkestack.io"

abbrev pub version_name : Text
version_name = text "v1alpha2"

abbrev pub api_path : Text → Text → Text
api_path namespace resource =
    cat (text "/api/v1/namespaces/" ∷ namespace ∷ text "/" ∷ resource ∷ [])

abbrev pub group_path : Text → Text → Text
group_path namespace resource = cat (
    text "/apis/"
    ∷ group_name
    ∷ text "/"
    ∷ version_name
    ∷ text "/namespaces/"
    ∷ namespace
    ∷ text "/"
    ∷ resource
    ∷ [])

abbrev pub reads_or_posts : Method → Bool
reads_or_posts Method.get_method = true
reads_or_posts Method.post_method = true
reads_or_posts Method.other_method = false

-- The path of a named resource, or of the collection.
unfoldable pub core_path : Text → Text → Text → Method → Text
core_path namespace resource name method =
    if text_eq name []
    then (if reads_or_posts method then api_path namespace resource else [])
    else api_path namespace resource ++ (text "/" ++ name)

unfoldable pub cluster_path : Text → Text → Text → Text
cluster_path namespace resource name =
    if text_eq name []
    then group_path namespace resource
    else group_path namespace resource ++ (text "/" ++ name)

unfoldable pub proxy_path : Text → Text → Text → Method → Text
unfolding core_path cluster_path
proxy_path namespace resource name method =
    if text_eq resource (text "etcdclusters")
    then cluster_path namespace resource name
    else if text_eq resource (text "secrets")
    then core_path namespace resource name method
    else if text_eq resource (text "configmaps")
    then core_path namespace resource name method
    else []

-- The request that the proxy sends.
pub record Proxied : Type 0 where
  pub scheme : Text
  pub host : Text
  pub headers : Dict Text
  pub path : Text

unfoldable pub director : (target token namespace resource name : Text) → Method → Proxied
unfolding proxy_path
director target token namespace resource name method = record {
  scheme = text "https";
  host = target;
  headers = (text "Authorization", text "Bearer " ++ token) ∷ [];
  path = proxy_path namespace resource name method;
}

-- A body: an error, the keys, no value, the value in several forms, the value as it is, or objects.
pub data Body (O : Type 0) : Type 0 where
  failure : Error → Body O
  key_list : List Text → Body O
  no_value : Body O
  converted : Text → List (Text × Text) → Body O
  plain : Text → Body O
  objects : O → Body O

pub record Reply (O : Type 0) : Type 0 where
  pub status : ℕ
  pub body : Body O

abbrev pub internal_error : {O : Type 0} → Error → Reply O
internal_error e = record { status = 500; body = failure e }

-- The values that etcd answers for a key, with their count.
pub record Values : Type 0 where
  pub count : ℕ
  pub values : List Text

pub record RouterEnv (W X Client : Type 0) : Type 0 where
  pub build_config : Go W (Option Error)
  pub new_clientset : Go W (Option Error)
  pub get_cluster : Text → Go W (Result (Cluster X))
  pub client_config : Text → Text → Go W (Result ClientConfig)
  pub get_keys : Client → Go W (Result (List Text))
  pub get_values : Client → Text → Go W (Result Values)
  pub close : Client → Go W (Unit {0})

abbrev pub is_kubernetes : {X : Type 0} → Cluster X → Text → Bool
is_kubernetes c key =
    text_eq (get_or (find (text "kubernetes") c.annotations) []) (text "true")
    && not (text_eq key (text "compact_rev_key"))

abbrev pub keys_reply : {O : Type 0} → Result (List Text) → Reply O
keys_reply (err e) = internal_error e
keys_reply (ok keys) = record { status = 200; body = key_list keys }

abbrev pub or_panic : {W O : Type 0} → Option (Reply O) → Go W (Reply O)
or_panic none = panic
or_panic (some r) = pure r

-- An error of the conversion is reported beside what could be made.
unfoldable pub with_json : {O : Type 0} → Text → Result (Dict Text) → Reply O
with_json js (err e) = record {
  status = 200;
  body = converted e.message (insert (text "json") js []);
}
with_json js (ok data_of) = record {
  status = 200;
  body = converted [] (insert (text "json") js data_of);
}

module _ {Meta Info Version Codec Object O : Type 0}
    (codecs : Serializers Meta Info Version Codec Object) where
  -- `none` is fuel that ran out.
  unfoldable pub converted_value : Text → Option (Result (Text × Text)) → Option (Reply O)
  unfolding with_json convert_to_data convert_to_json
  converted_value value none = none
  converted_value value (some (err e)) = some (internal_error e)
  converted_value value (some (ok (media, s))) =
      some (with_json (convert_to_json codecs value) (convert_to_data codecs media s))

  unfoldable pub show_value : Bool → Text → Option (Reply O)
  unfolding converted_value detect_and_extract
  show_value true value = converted_value value (detect_and_extract codecs value)
  show_value false value = some (record { status = 200; body = plain value })

  unfoldable pub first_value : Bool → List Text → Option (Reply O)
  unfolding show_value
  first_value kubernetes [] = none
  first_value kubernetes (v ∷ more) = show_value kubernetes v

  unfoldable pub value_reply : {X : Type 0} → Cluster X → Text → Result Values → Option (Reply O)
  unfolding first_value
  value_reply c key (err e) = some (internal_error e)
  value_reply c key (ok rsp) =
      if rsp.count == 0
      then some (record { status = 404; body = no_value })
      else first_value (is_kubernetes c key) rsp.values

  module _ {W X K Client2 Client : Type 0} (lib : EtcdLibrary W K Client2 Client)
      (env : RouterEnv W X Client) where
    unfoldable pub read_client : Cluster X → Text → Bool → Client → Go W (Reply O)
    unfolding value_reply
    read_client c key true client = do r ← env.get_keys client; pure (keys_reply r)
    read_client c key false client = do
      r ← env.get_values client key
      or_panic (value_reply c key r)

    unfoldable pub with_client : Cluster X → Text → Result Client → Go W (Reply O)
    unfolding read_client
    with_client c key (err e) = pure (internal_error e)
    with_client c key (ok client) = do
      r ← read_client c key (text_eq key []) client
      env.close client
      pure r

    unfoldable pub with_client_config : Cluster X → Text → Result ClientConfig → Go W (Reply O)
    unfolding with_client new_client_v3
    with_client_config c key (err e) = pure (internal_error e)
    with_client_config c key (ok config) = do
      (used, client) ← new_client_v3 lib (record config { endpoints = c.status.service_name ∷ [] })
      with_client c key client

    unfoldable pub with_cluster : Text → Result (Cluster X) → Go W (Reply O)
    unfolding with_client_config
    with_cluster key (err e) = pure (internal_error e)
    with_cluster key (ok c) = do
      config ←
          env.client_config (c.namespace ++ (text "/" ++ c.name))
            (get_or (find cert_name c.annotations) [])
      with_client_config c key config

    unfoldable pub with_clientset : Text → Text → Option Error → Go W (Reply O)
    unfolding with_cluster
    with_clientset name key (some e) = pure (internal_error e)
    with_clientset name key none = do c ← env.get_cluster name; with_cluster key c

    unfoldable pub with_config : Text → Text → Option Error → Go W (Reply O)
    unfolding with_clientset
    with_config name key (some e) = pure (internal_error e)
    with_config name key none = do e ← env.new_clientset; with_clientset name key e

    unfoldable pub etcd_key_list : Text → Text → Go W (Reply O)
    unfolding with_config
    etcd_key_list name key = do e ← env.build_config; with_config name key e

-- BackupList: without a backup configuration the error is written, the handler goes on, and reads a
-- field of the nil configuration.
module _ {W X O : Type 0} (env : RouterEnv W X O) (check : CheckEnv W X O) where
  unfoldable pub objects_reply : Result O → Reply O
  objects_reply (err e) = internal_error e
  objects_reply (ok o) = record { status = 200; body = objects o }

  unfoldable pub list_storage : Cluster X → Result (Storage W X O) → Go W (Reply O)
  unfolding objects_reply
  list_storage c (err e) = pure (internal_error e)
  list_storage c (ok storage) = do r ← storage.list c; pure (objects_reply r)

  unfoldable pub list_backups : Cluster X → Result Config → Go W (Reply O)
  unfolding list_storage
  list_backups c (err e) = panic
  list_backups c (ok cfg) = do s ← check.storage cfg.storage_type; list_storage c s

  unfoldable pub backups_of : Result (Cluster X) → Go W (Reply O)
  unfolding list_backups get_backup_config
  backups_of (err e) = pure (internal_error e)
  backups_of (ok c) = list_backups c (get_backup_config check c)

  unfoldable pub backups_from : Text → Option Error → Go W (Reply O)
  unfolding backups_of
  backups_from name (some e) = pure (internal_error e)
  backups_from name none = do c ← env.get_cluster name; backups_of c

  unfoldable pub backup_list : Text → Go W (Reply O)
  unfolding backups_from
  backup_list name = do e ← env.new_clientset; backups_from name e
