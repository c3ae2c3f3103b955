-- ===== src/Examples/Etcd.antt =====
-- The theorems on the values, the certificates and the members of etcd at concrete inputs.
use kstone.Base.{
  ℕ, ◌+◌, ◌≡◌, ◌≢◌, ◌⊎◌, refl, sym, false, ◌||◌, none, some, [], ◌∷◌, ◌++◌, if◌then◌else◌,
}
use kstone.Base.Text.{Text, text, text_eq, has_prefix, split, trim_prefix}
use kstone.Base.Decimal.{itoa}
use kstone.Base.Dict.{Dict, insert, lookup, lookup-insert}
use kstone.Base.Effect.{new_error, pure}
use kstone.Api.{MemberStatus, MemberPhase, MemberRole}
use kstone.Interfaces.{Result, ok, err, ClientConfig}
use kstone.Interfaces.Results.{◌>>=◌}
use kstone.Members.{Member}
use kstone.Members.Runtime.{probe_members}
use kstone.Encoding.{
  Serializers, storage_binary_media_type, json_media_type, yaml_media_type, detect_and_extract,
}
use kstone.Encoding.Search.{drop, index, index_any}
use kstone.Encoding.Detect.{Detected, detect_and_extract-Detected}
use kstone.Encoding.Convert.{decode_type_meta, convert_to, convert_to_data}
use kstone.Encoding.Outputs.{detected-decode_type_meta, convert_to_data-outputs}
use kstone.EtcdClient.{EtcdLibrary}
use kstone.EtcdClient.Files.{FileSystem, get_tls_config_path}
use kstone.EtcdClient.Files.Stored.{FileLaws, Certified, get_tls_config_path-stored}
use kstone.EtcdClient.Versions.{StatusV3, Calls, client_v3}
use kstone.EtcdClient.Roles.{Every, ReadFrom, probe_members-ReadFrom}
use kstone.EtcdHealth.{HealthLibrary}
use kstone.EtcdHealth.Verdict.{Verdict}
use kstone.Examples.{config}

-- A serializer that takes every text as an object, and only `{}` as JSON.
abbrev pub codecs : Serializers Text Text Text Text Text
codecs = record {
  raw_message = λ t. if text_eq t (text "{}") then ok t else err (new_error (text "json"));
  json_meta = λ t. ok (text "v1");
  yaml_meta = λ t. ok (text "v1");
  unmarshal_unknown = λ t. ok (t, text "v1");
  supported = text "json" ∷ [];
  info_for_media_type = λ t. some t;
  api_version = λ t. t;
  parse_group_version = λ t. ok t;
  codec_for = λ i v. i;
  decode = λ c t. ok t;
  encode = λ c o. ok o;
  universal_decode = λ t. ok t;
  json_encode = λ o. ok o;
}

abbrev prefixed : Text
prefixed = text "a{}"

abbrev braces : Text
braces = text "{}"

detect_and_extract-Detected_example :
    (r : Result (Text × Text)) × (detect_and_extract codecs prefixed ≡ some r)
    × Detected codecs prefixed r
detect_and_extract-Detected_example = detect_and_extract-Detected codecs prefixed

braces_found : detect_and_extract codecs prefixed ≡ some (ok (json_media_type, braces))
unfolding detect_and_extract index has_prefix index_any drop text_eq
braces_found = refl

detected-decode_type_meta_example :
    ((json_media_type ≡ storage_binary_media_type)
      × (decode_type_meta codecs json_media_type braces
          ≡ (codecs.unmarshal_unknown (drop 4 braces) >>= λ u. ok u.1)))
    ⊎ ((json_media_type ≡ json_media_type)
        × (decode_type_meta codecs json_media_type braces ≡ codecs.json_meta braces))
detected-decode_type_meta_example =
    detected-decode_type_meta codecs prefixed json_media_type braces braces_found

abbrev both : Dict Text
both = (text "json", braces ++ 10 ∷ []) ∷ (text "yaml", braces) ∷ []

both_converted : convert_to_data codecs json_media_type braces ≡ ok both
unfolding convert_to_data text_eq insert lookup
both_converted = refl

convert_to_data-outputs_example :
    (j : Text) × (y : Text) × (both ≡ (text "json", j) ∷ (text "yaml", y) ∷ [])
    × (convert_to codecs json_media_type braces json_media_type ≡ ok j)
    × (convert_to codecs json_media_type braces yaml_media_type ≡ ok y)
    × ((json_media_type ≢ json_media_type) ⊎ (j ≡ braces ++ 10 ∷ []))
    × ((json_media_type ≢ yaml_media_type) ⊎ (y ≡ braces))
convert_to_data-outputs_example =
    convert_to_data-outputs codecs json_media_type braces both both_converted

-- A file system that is a map from paths to contents.
abbrev disk : FileSystem (Dict Text)
disk = record {
  temp_dir = λ pattern w. some (ok (text "/tmp/c"), w);
  write_file = λ p d w. some (none, insert p d w);
}

disk-FileLaws : FileLaws disk (λ w p. lookup p w)
disk-FileLaws = record {
  stored = λ p d w w' h q. let e : insert p d w ≡ w' = cc in rw (sym e) (lookup-insert p q d w);
}

abbrev files : Dict Text
files =
    (text "/tmp/c/client.pem", text "cert")
    ∷ (text "/tmp/c/client-key.pem", text "key")
    ∷ (text "/tmp/c/ca.pem", text "ca")
    ∷ []

abbrev paths : Text × Text × Text
paths = (text "/tmp/c/ca.pem", text "/tmp/c/client.pem", text "/tmp/c/client-key.pem")

files_written :
    get_tls_config_path disk (text "ns/c") (text "cert") (text "key") (text "ca") []
    ≡ some (ok paths, files)
unfolding get_tls_config_path text_eq insert
files_written = refl

get_tls_config_path-stored_example :
    Certified disk-FileLaws [] files paths
      (text "cert")
      (text "key")
      (text "ca")
      (text_eq (text "cert") [] || (text_eq (text "key") [] || text_eq (text "ca") []))
get_tls_config_path-stored_example =
    get_tls_config_path-stored disk-FileLaws (text "ns/c") (text "cert") (text "key") (text "ca")
      paths [] files files_written

-- Every member answers that it is healthy, and each request is counted.
abbrev health : HealthLibrary ℕ Text Text
health = record {
  read_ca = λ p w. some (ok p, w);
  load_pair = λ c k w. some (ok c, w);
  material = λ ca p. ca;
  get = λ tls url w. some (ok (text "true", none), w + 1);
  health_field = λ body. ok body;
  server_field = λ body. ok body;
  stats_fields = λ body. err (new_error body);
}

abbrev pub etcd_library : EtcdLibrary ℕ Text ℕ ℕ
etcd_library = record {
  client_config = λ i. pure (err (new_error (text "tls")));
  new_transport = λ i t. pure none;
  new_v3 = λ c. pure (ok 3);
  new_v2 = λ c. pure (ok 2);
}

abbrev leader_is_two : StatusV3
leader_is_two = record { version = text "3.4.3"; is_learner = false; leader = 2 }

-- The member a runs the version 3.4.3 and names 2 as the leader, and b runs another version.
abbrev calls : Calls ℕ ℕ ℕ
calls = record {
  member_list_v3 = λ c. pure (ok []);
  status_v3 = λ url c w. some (
    if text_eq url (text "http://a:2379")
        then ok leader_is_two
        else ok (record { version = text "3.5.0"; is_learner = false; leader = 2 }),
    w,
  );
  close_v3 = λ c. pure tt;
  member_list_v2 = λ c. pure (ok []);
}

abbrev of_a : ClientConfig
of_a = record config { endpoints = text "http://a:2379" ∷ [] }

abbrev member_b : Member
member_b = record {
  id = text "2";
  name = text "b";
  peer_urls = [];
  client_urls = some (text "http://b:2379" ∷ []);
  version = [];
  is_learner = false;
  leader = [];
}

abbrev listed_b : MemberStatus
listed_b = record {
  name = text "b";
  member_id = text "2";
  status = MemberPhase.running;
  version = text "3.4.3";
  endpoint = text "b";
  port = text "2379";
  client_url = text "http://b:2379";
  extension_client_url = text "http://b:2379";
  role = MemberRole.leader;
  errors = [];
}

b_probed :
    probe_members (client_v3 etcd_library health calls of_a 3) [] none (member_b ∷ []) 0
    ≡ some (listed_b ∷ [], 0)
unfolding probe_members client_v3 split text_eq trim_prefix itoa
b_probed = refl

probe_members-ReadFrom_example : Every (ReadFrom leader_is_two) (listed_b ∷ [])
unfolding text_eq
probe_members-ReadFrom_example =
    probe_members-ReadFrom etcd_library health calls of_a (text "http://a:2379") [] refl 3
      leader_is_two (λ w. refl) [] none (member_b ∷ []) (listed_b ∷ []) 0 0 b_probed
