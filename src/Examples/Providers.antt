-- ===== src/Examples/Providers.antt =====
-- The theorems on the providers, the members and the gates at concrete inputs.
use kstone.Base.{
  ℕ, ◌+◌, ◌≡◌, ◌<◌, refl, ap, ◌&&◌, ◌==◌, ==_refl, Bool, true, false, Option, none, some, List, [],
  ◌∷◌, arith,
}
use kstone.Base.Text.{Text, text, text_eq, join, split, trim_prefix}
use kstone.Base.Split.{is_free}
use kstone.Base.Dict.{Dict, lookup, find, insert}
use kstone.Base.Effect.{pure}
use kstone.Api.{Phase, MemberPhase, MemberRole, MemberStatus, Status, Cluster}
use kstone.Interfaces.{Result, ok, err}
use kstone.FeatureGate.{is_feature_gate_enabled}
use kstone.FeatureGate.Laws.{gates_roundtrip}
use kstone.Members.{populate_extension_client_url_map}
use kstone.Members.Urls.{populate-join}
use kstone.Members.Runtime.{get_etcd_cluster_member_status, get_runtime_etcd_members}
use kstone.Members.Health.{member_runs, member_status-phase}
use kstone.Unstructured.{
  Value, Values, Accessors, AccessorLaws, int, get, obj, nil, cons, end, field, put, at, as_text,
  as_int, as_values,
}
use kstone.Operator.{Foreign, after_create, url_key, url_value, ext_client_url}
use kstone.Operator.Generate.{update_etcd_spec}
use kstone.Operator.Compare.{object_equal}
use kstone.Operator.Converge.{ForeignLaws, update-equal}
use kstone.Operator.Annotations.{after_create-read}
use kstone.Operator.Provider.{status, kstone_provider, OperatorClient}
use kstone.Operator.Health.{Complete, status-running}
use kstone.Operator.Contract.{kstone_provider-Frames}
use kstone.Imported.Contract.{imported_status-running}
use kstone.Imported.{imported_provider}
use kstone.Controller.Conditions.{Frames}
use kstone.Examples.{World, config, members, cluster, boom, fresh_status}

abbrev entry : MemberPhase → MemberStatus
entry phase = record {
  name = text "m0";
  member_id = text "1";
  status = phase;
  version = text "3.5";
  endpoint = text "a";
  port = text "2379";
  client_url = text "http://a:2379";
  extension_client_url = text "http://a:2379";
  role = MemberRole.leader;
  errors = [];
}

member_status-phase_example :
    (Phase.running ≡ Phase.running)
    × (entry MemberPhase.unknown ∷ [] ≡ entry MemberPhase.unknown ∷ [])
unfolding get_etcd_cluster_member_status
member_status-phase_example =
    member_status-phase members config (entry MemberPhase.unstarted ∷ [])
      (entry MemberPhase.running ∷ []) Phase.running 0 0 refl

abbrev seen : Status
seen = record fresh_status {
  phase = Phase.running;
  members = entry MemberPhase.running ∷ [];
  service_name = text "http://a:2379";
}

status-running_example : Complete 1 seen
unfolding status get_runtime_etcd_members get_etcd_cluster_member_status lookup text_eq split
    trim_prefix
status-running_example = status-running members config cluster seen none 0 0 refl refl

imported_status-running_example : member_runs (entry MemberPhase.running) ≡ true
unfolding kstone.Imported.status get_runtime_etcd_members get_etcd_cluster_member_status lookup
    text_eq split trim_prefix
imported_status-running_example =
    imported_status-running members config cluster seen none 0 0 refl refl

abbrev encode : List ℕ → Values
encode [] = nil
encode (n ∷ ns) = cons (int n) (encode ns)

abbrev cons_ok : ℕ → Result (List ℕ) → Result (List ℕ)
cons_ok n (ok ns) = ok (n ∷ ns)
cons_ok n (err e) = err e

abbrev decode : Values → Result (List ℕ)
decode nil = ok []
decode (cons (int n) vs) = cons_ok n (decode vs)
decode (cons _ vs) = err boom

decode-encode : (ns : List ℕ) → decode (encode ns) ≡ ok ns
decode-encode [] = refl
decode-encode (n ∷ ns) = ap (cons_ok n) (decode-encode ns)

abbrev same_list : List ℕ → List ℕ → Bool
same_list [] [] = true
same_list [] (n ∷ ns) = false
same_list (m ∷ ms) [] = false
same_list (m ∷ ms) (n ∷ ns) = (m == n) && same_list ms ns

same_list_refl : (ns : List ℕ) → same_list ns ns ≡ true
same_list_refl [] = refl
same_list_refl (n ∷ ns) = rw (==_refl n) (same_list_refl ns)

abbrev foreign : Foreign ℕ
foreign = record {
  cpu_text = λ o. text "0";
  memory_text = λ o. text "0";
  env_values = encode;
  decode_env = decode;
  env_equal = same_list;
  affinity_fields = λ x. none;
  toleration_values = encode;
}

foreign-ForeignLaws : ForeignLaws foreign
foreign-ForeignLaws = record {
  cpu_ne_nil = λ o h. cc;
  memory_ne_nil = λ o h. cc;
  cpu_none = refl;
  memory_none = refl;
  decode = decode-encode;
  equal = same_list_refl;
}

abbrev set_in : Value → Value → Text → Result Value
set_in (obj fs) v k = ok (obj (put k v fs))
set_in _ v k = err boom

abbrev is_object : Option Value → Bool
is_object (some (obj fs)) = true
is_object _ = false

abbrev accessors : Accessors
accessors = record {
  nested_string = λ v path. as_text (at path v);
  nested_int64 = λ v path. as_int (at path v);
  nested_slice = λ v path. as_values (at path v);
  has_map = λ v k. is_object (at (k ∷ []) v);
  set_field = set_in;
}

accessors-AccessorLaws : AccessorLaws accessors
accessors-AccessorLaws = record {
  string = λ v path. refl;
  int64 = λ v path. refl;
  slice = λ v path. refl;
  set = λ fs v k. refl;
}

update-equal_example :
    (o : Value) × (update_etcd_spec foreign accessors
        (obj (field (text "spec") (obj end) end))
        cluster
      ≡ ok o)
    × (object_equal accessors foreign cluster o ≡ (true, none))
unfolding at get text_eq
update-equal_example =
    update-equal accessors foreign cluster (field (text "spec") (obj end) end)
      accessors-AccessorLaws foreign-ForeignLaws refl (omega arith)

abbrev annotations : Dict Text
annotations = (text "scheme", text "https") ∷ []

after_create-read_example :
    (created : Cluster ℕ) × (written : Text) × (urls : Dict Text) × (after_create {W = World}
        (record cluster { annotations = some annotations })
        3
      ≡ some ((created, none), 3))
    × (find ext_client_url created.annotations ≡ some written)
    × (populate_extension_client_url_map written ≡ (some urls, none))
    × ((i : ℕ)
        → i < 1
        → lookup (url_key (text "c") i) urls ≡ some (url_value (text "c") (text "ns") i))
unfolding is_free
after_create-read_example =
    after_create-read {W = World} (record cluster { annotations = some annotations }) annotations 3
      refl refl refl (omega arith) (omega arith)

abbrev operator_client : OperatorClient World ℕ
operator_client = record {
  set_owner_reference = λ c v. ok v;
  create = λ namespace v w. some (none, w + 1);
  get = λ namespace name. pure (ok (obj (field (text "spec") (obj end) end)));
  update = λ namespace v w. some (none, w + 1);
}

kstone_provider-Frames_example : Frames (kstone_provider foreign accessors operator_client members)
kstone_provider-Frames_example = kstone_provider-Frames foreign accessors operator_client members

abbrev gates : Dict Text
gates = (text "featureGates", text "monitor=true,backup=false") ∷ []

gates_roundtrip_example : is_feature_gate_enabled (some gates) (text "monitor") ≡ true
unfolding lookup text_eq join is_free
gates_roundtrip_example =
    gates_roundtrip gates (text "monitor") (text "monitor", true) ((text "backup", false) ∷ []) refl
      refl

populate-join_example :
    populate_extension_client_url_map (text "a:1->b:2,c:3->d:4")
    ≡ (some ((text "a:1", text "b:2") ∷ (text "c:3", text "d:4") ∷ []), none)
unfolding join is_free insert text_eq
populate-join_example = populate-join (text "a:1", text "b:2") ((text "c:3", text "d:4") ∷ []) refl
