-- ===== src/Interfaces.antt =====
-- The interfaces between the controllers and what they call: clusterprovider.Cluster
-- (pkg/clusterprovider/etcdcluster.go), featureprovider.Feature (pkg/featureprovider/feature.go) and
-- the services behind clients (the API server, the event recorder, the clock, the secrets). `W` is
-- the state of everything outside the controller.
pub mod Results
use kstone.Base.{ℕ, Bool, Option, none, List}
use kstone.Base.Text.{Text}
use kstone.Base.Effect.{Go, Error, pure}
use kstone.Api.{Cluster, Status, Inspection}

-- A Go result (T, error) whose T is read only beside a nil error.
pub data Result (A : Type 0) : Type 0 where
  ok : A → Result A
  err : Error → Result A

-- etcd.SecureConfig
pub record SecureConfig : Type 0 where
  pub cert : Text
  pub key : Text
  pub ca_cert : Text
  pub username : Text
  pub password : Text

-- etcd.ClientConfig; the durations count nanoseconds.
pub record ClientConfig : Type 0 where
  pub endpoints : List Text
  pub dial_timeout : ℕ
  pub dial_keep_alive_time : ℕ
  pub dial_keep_alive_timeout : ℕ
  pub secure : SecureConfig

-- A hook may change the cluster behind the pointer that it is given, also when it fails.
pub record ClusterProvider (W X : Type 0) : Type 0 where
  pub before_create : Cluster X → Go W (Cluster X × Option Error)
  pub create : Cluster X → Go W (Cluster X × Option Error)
  pub after_create : Cluster X → Go W (Cluster X × Option Error)
  pub before_update : Cluster X → Go W (Cluster X × Option Error)
  pub update : Cluster X → Go W (Cluster X × Option Error)
  pub after_update : Cluster X → Go W (Cluster X × Option Error)
  pub equal : Cluster X → Go W (Bool × Option Error)
  pub status : ClientConfig → Cluster X → Go W (Status × Option Error)

-- A hook that does nothing.
abbrev pub leave : {W X : Type 0} → Cluster X → Go W (Cluster X × Option Error)
leave c = pure (c, none)

pub record FeatureProvider (W X : Type 0) : Type 0 where
  pub equal : Cluster X → Go W Bool
  pub sync : Cluster X → Go W (Cluster X × Option Error)
  pub perform : Inspection → Go W (Option Error)

-- What the cluster controller calls. `features` lists the map EtcdFeatureProviders in the order of
-- an iteration, each with its factory.
pub record Env (W X : Type 0) : Type 0 where
  pub now : W → ℕ
  pub update_cluster : Cluster X → Go W (Result (Cluster X))
  pub eventf : Cluster X → Text → Error → Go W (Unit {0})
  pub get_cluster : Text → Text → Go W (Result (Cluster X))
  pub cluster_provider : Text → Go W (Result (ClusterProvider W X))
  pub features : List (Text × Go W (Result (FeatureProvider W X)))
  pub client_config : Text → Text → Go W (Result ClientConfig)
