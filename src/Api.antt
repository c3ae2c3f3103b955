-- ===== src/Api.antt =====
-- pkg/apis/kstone/v1alpha2/types.go: the EtcdCluster and EtcdInspection resources.
-- `X` is the type of the values of k8s.io/api that kstone passes on without looking into them
-- (Affinity, EnvVar, Toleration, ResourceList). Times are numbers.
use kstone.Base.{ℕ, Bool, Option, List, []}
use kstone.Base.Text.{Text, text}
use kstone.Base.Dict.{Dict}

-- The zero value of the Go type, the empty string, is `unset`.
pub data Phase : Type 0 where
  unset initing creating running updating deleting deleted unknown unhealthy : Phase

unfoldable pub phase_text : Phase → Text
phase_text unset = []
phase_text initing = text "Initing"
phase_text creating = text "Creating"
phase_text running = text "Running"
phase_text updating = text "Updating"
phase_text deleting = text "Deleting"
phase_text deleted = text "Deleted"
phase_text unknown = text "Unknown"
phase_text unhealthy = text "UnHealthy"

pub data ConditionType : Type 0 where
  create import update delete : ConditionType

-- corev1.ConditionStatus
pub data ConditionStatus : Type 0 where
  is_true is_false is_unknown : ConditionStatus

pub record Condition : Type 0 where
  pub type : ConditionType
  pub status : ConditionStatus
  pub start_time : ℕ
  pub end_time : ℕ
  pub reason : Text
  pub message : Text

pub record AuthConfig : Type 0 where
  pub enable_tls : Bool
  pub san : List Text
  pub tls_secret : Text

-- `disk_size` and `size` are Go uints. A nil ResourceList is `none`.
pub record Spec (X : Type 0) : Type 0 where
  pub name : Text
  pub description : Text
  pub auth_config : AuthConfig
  pub disk_type : Text
  pub disk_size : ℕ
  pub size : ℕ
  pub affinity : X
  pub args : List Text
  pub env : List X
  pub storage_backend : Text
  pub version : Text
  pub repository : Text
  pub cluster_type : Text
  pub limits : Option X
  pub requests : Option X
  pub tolerations : List X

pub data MemberPhase : Type 0 where
  unstarted unknown running unhealthy : MemberPhase

pub data MemberRole : Type 0 where
  learner unknown follower leader : MemberRole

pub record MemberStatus : Type 0 where
  pub name : Text
  pub member_id : Text
  pub status : MemberPhase
  pub version : Text
  pub endpoint : Text
  pub port : Text
  pub client_url : Text
  pub extension_client_url : Text
  pub role : MemberRole
  pub errors : List Text

pub record Status : Type 0 where
  pub conditions : List Condition
  pub phase : Phase
  pub members : List MemberStatus
  pub feature_gates_status : Option (Dict Text)
  pub service_name : Text

-- The fields of ObjectMeta that kstone reads or writes; a nil map is `none`.
pub record Cluster (X : Type 0) : Type 0 where
  pub namespace : Text
  pub name : Text
  pub annotations : Option (Dict Text)
  pub labels : Option (Dict Text)
  pub spec : Spec X
  pub status : Status

pub record InspectionSpec : Type 0 where
  pub cluster_name : Text
  pub inspection_type : Text
  pub inspection_provider : Text
  pub interval_in_second : ℕ

pub record Inspection : Type 0 where
  pub namespace : Text
  pub name : Text
  pub labels : Option (Dict Text)
  pub owner : Option Text
  pub spec : InspectionSpec
  pub last_updated_time : ℕ

abbrev pub is_running : Phase → Bool
is_running Phase.running = Bool.true
is_running _ = Bool.false
