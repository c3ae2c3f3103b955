-- ===== src/Examples.antt =====
-- Concrete inputs of the controller and of the providers, and the theorems at these inputs.
mod Etcd
mod Inspections
mod Monitors
mod Controllers
mod Providers
mod Accounts
mod Services
mod Backups
use kstone.Base.{
  ℕ, ◌+◌, ◌≡◌, refl, Bool, true, false, Option, none, some, List, [], ◌∷◌, if◌then◌else◌,
}
use kstone.Base.Text.{Text, text, text_eq}
use kstone.Base.Dict.{Dict}
use kstone.Base.Effect.{Go, Error, new_error, pure}
use kstone.Api.{
  Phase, ConditionType, ConditionStatus, is_true, is_false, Condition, AuthConfig, Spec, Status,
  Cluster, MemberPhase, MemberRole, MemberStatus,
}
use kstone.Interfaces.{
  Result, ok, err, SecureConfig, ClientConfig, ClusterProvider, FeatureProvider, Env, leave,
}
use kstone.Members.{Member, VersionClient, MemberEnv}
use kstone.Imported.{imported_provider}

-- The world counts the calls that change it.
abbrev pub World : Type 0
World = ℕ

abbrev pub config : ClientConfig
config = record {
  endpoints = [];
  dial_timeout = 5;
  dial_keep_alive_time = 0;
  dial_keep_alive_timeout = 0;
  secure = record { cert = []; key = []; ca_cert = []; username = []; password = [] };
}

abbrev pub member : Member
member = record {
  id = text "1";
  name = text "m0";
  peer_urls = [];
  client_urls = some (text "http://a:2379" ∷ []);
  version = text "3.5";
  is_learner = false;
  leader = text "1";
}

abbrev pub client : VersionClient World
client = record {
  member_list = pure (ok (member ∷ []));
  status = λ url. pure (some member, none);
  close = pure tt;
}

abbrev pub members : MemberEnv World
members = record {
  factories = (text "v3", λ c. pure (ok client)) ∷ [];
  member_healthy = λ url c. pure (true, none);
}

abbrev pub spec : Spec ℕ
spec = record {
  name = text "c";
  description = [];
  auth_config = record { enable_tls = false; san = []; tls_secret = [] };
  disk_type = [];
  disk_size = 10;
  size = 1;
  affinity = 0;
  args = [];
  env = [];
  storage_backend = [];
  version = text "3.5";
  repository = [];
  cluster_type = text "imported";
  limits = none;
  requests = none;
  tolerations = [];
}

abbrev pub fresh_status : Status
fresh_status = record {
  conditions = [];
  phase = Phase.unset;
  members = [];
  feature_gates_status = none;
  service_name = [];
}

abbrev pub cluster : Cluster ℕ
cluster = record {
  namespace = text "ns";
  name = text "c";
  annotations = some ((text "importedAddr", text "http://a:2379") ∷ []);
  labels = none;
  spec = spec;
  status = fresh_status;
}

abbrev pub boom : Error
boom = new_error (text "boom")

-- A feature that is never as it should be, and whose synchronisation works.
abbrev pub monitor : FeatureProvider World ℕ
monitor = record {
  equal = λ c. pure false;
  sync = λ c w. some ((c, none), w + 1);
  perform = λ i. pure none;
}

abbrev pub env : Env World ℕ
env = record {
  now = λ w. w;
  update_cluster = λ c w. some (ok c, w + 1);
  eventf = λ c reason e. pure tt;
  get_cluster = λ namespace name. pure (ok cluster);
  cluster_provider = λ name. pure (ok (imported_provider members));
  features = (text "monitor", pure (ok monitor)) ∷ [];
  client_config = λ cluster name. pure (ok config);
}

-- A provider whose AfterCreate fails.
abbrev pub failing : ClusterProvider World ℕ
failing = record {
  before_create = leave;
  create = leave;
  after_create = λ c. pure (c, some boom);
  before_update = leave;
  update = leave;
  after_update = leave;
  equal = λ c. pure (true, none);
  status = λ config c. pure (c.status, none);
}

abbrev pub condition : ConditionType → ConditionStatus → ℕ → ℕ → Text → Condition
condition type status start end reason = record {
  type = type;
  status = status;
  start_time = start;
  end_time = end;
  reason = reason;
  message = [];
}
