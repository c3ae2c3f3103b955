-- ===== src/Controller.antt =====
-- pkg/controllers/etcdcluster/etcdclusters_controller.go: the handlers that create, update or read
-- the status of a cluster, by the conditions in its status. A handler takes the cluster behind the
-- Go pointer and returns it with the error.
pub mod Reconcile
pub mod Conditions
pub mod Retry
pub mod Actions
pub mod Lifecycle
pub mod Labels
pub mod Features
use kstone.Base.{
  ℕ, ◌-◌, Bool, true, false, Option, none, some, List, [], ◌∷◌, ◌++◌, if◌then◌else◌, length, last?,
  init, get_or,
}
use kstone.Base.Text.{Text, text}
use kstone.Base.Dict.{find}
use kstone.Base.Effect.{Go, Error, pure, panic, ◌>>=◌, ◌>>◌}
use kstone.Api.{
  Phase, ConditionType, ConditionStatus, is_true, is_false, is_unknown, Condition, Status, Cluster,
  phase_text,
}
use kstone.Interfaces.{Result, ok, err, ClusterProvider, Env, ClientConfig}

-- util.ClusterTLSSecretName
abbrev pub cert_name : Text
cert_name = text "certName"

-- The `switch` of getDesiredAction: an operation that is under way is taken up again.
unfoldable pub unfinished : ConditionType → ConditionStatus → Option Phase
unfinished ConditionType.create is_false = some Phase.creating
unfinished ConditionType.update is_false = some Phase.updating
unfinished _ _ = none

unfoldable pub compared : Bool × Option Error → Phase × Option Error
compared (equal, some e) = (Phase.unknown, some e)
compared (true, none) = (Phase.running, none)
compared (false, none) = (Phase.updating, none)

unfoldable pub same_type : ConditionType → ConditionType → Bool
same_type ConditionType.create ConditionType.create = true
same_type ConditionType.import ConditionType.import = true
same_type ConditionType.update ConditionType.update = true
same_type ConditionType.delete ConditionType.delete = true
same_type _ _ = false

unfoldable pub started : ConditionType → ℕ → Condition
started type now = record {
  type = type;
  status = is_false;
  start_time = now;
  end_time = 0;
  reason = [];
  message = [];
}

-- Behind a last condition: whether it is over, and of which type it is.
unfoldable pub next_conditions :
    List Condition → ConditionStatus → ConditionType → ConditionType → ℕ → List Condition
unfolding same_type started
next_conditions conditions is_true last next now =
    (if same_type last next then init conditions else conditions) ++ started next now ∷ []
next_conditions conditions is_false last next now = conditions
next_conditions conditions is_unknown last next now = conditions

unfoldable pub generate_conditions : List Condition → ConditionType → ℕ → List Condition
unfolding next_conditions started
generate_conditions conditions next now = elim (last? conditions) [
  | none ↦ conditions ++ started next now ∷ []
  | some l ↦ next_conditions conditions l.status l.type next now
]

-- `conditions[i] = f(conditions[i])`; `none` is the panic of an index out of range.
unfoldable pub modify_at : ℕ → (Condition → Condition) → List Condition → Option (List Condition)
modify_at i f [] = none
modify_at ℕ.zero f (c ∷ cs) = some (f c ∷ cs)
modify_at (ℕ.suc i) f (c ∷ cs) = elim (modify_at i f cs) [ none ↦ none | some ds ↦ some (c ∷ ds) ]

module _ {X : Type 0} where
  abbrev pub with_conditions : Cluster X → List Condition → Cluster X
  with_conditions c conditions = record c { status = record (c.status) { conditions = conditions } }

  abbrev pub with_phase : Cluster X → Phase → Cluster X
  with_phase c phase = record c { status = record (c.status) { phase = phase } }

module _ {W X : Type 0} where
  -- An unfinished operation is chosen without a look at the provider.
  unfoldable pub choose :
      ClusterProvider W X → Cluster X → Option Phase → Go W (Phase × Option Error)
  unfolding compared
  choose provider c (some action) = pure (action, none)
  choose provider c none = do r ← provider.equal c; pure (compared r)

  unfoldable pub get_desired_action : ClusterProvider W X → Cluster X → Go W (Phase × Option Error)
  unfolding unfinished choose
  get_desired_action provider c = elim (last? c.status.conditions) [
    | none ↦ pure (Phase.creating, none)
    | some l ↦ choose provider c (unfinished l.type l.status)
  ]

  unfoldable pub set_condition : ℕ → (Condition → Condition) → Cluster X → Go W (Cluster X)
  unfolding modify_at
  set_condition i f c = elim (modify_at i f c.status.conditions) [
    | none ↦ panic
    | some conditions ↦ pure (with_conditions c conditions)
  ]

  -- A hook, with the block `if err != nil` behind it.
  unfoldable pub try_hook :
      ℕ
      → (Cluster X → Go W (Cluster X × Option Error))
      → (Cluster X → Go W (Cluster X × Option Error))
      → Cluster X
      → Go W (Cluster X × Option Error)
  unfolding set_condition
  try_hook i hook rest c = do
    (c', e) ← hook c
    elim e [
      | some e ↦ do
        c'' ← set_condition i (λ d. record d { reason = e.message }) c'
        pure (c'', some e)
      | none ↦ rest c'
    ]

  unfoldable pub finish : ℕ → (W → ℕ) → Cluster X → Go W (Cluster X × Option Error)
  unfolding set_condition
  finish i clock c w =
      (do
        c' ← set_condition i (λ d. record d { reason = []; end_time = clock w; status = is_true }) c
        pure (c', none))
        w

  unfoldable pub handle_cluster_create :
      Env W X → Cluster X → ClusterProvider W X → Go W (Cluster X × Option Error)
  unfolding generate_conditions try_hook finish
  handle_cluster_create env c provider w =
      let conditions = generate_conditions c.status.conditions ConditionType.create (env.now w) in
      let i = length conditions - 1 in
      try_hook i provider.before_create
        (try_hook i provider.create (try_hook i provider.after_create (finish i env.now)))
        (with_phase (with_conditions c conditions) Phase.creating) w

  unfoldable pub handle_cluster_update :
      Env W X → Cluster X → ClusterProvider W X → Go W (Cluster X × Option Error)
  unfolding generate_conditions try_hook finish
  handle_cluster_update env c provider w =
      let conditions = generate_conditions c.status.conditions ConditionType.update (env.now w) in
      let i = length conditions - 1 in
      try_hook i provider.before_update
        (try_hook i provider.update (try_hook i provider.after_update (finish i env.now)))
        (with_phase (with_conditions c conditions) Phase.updating) w

  unfoldable pub status_event : Env W X → Cluster X → Option Error → Go W (Unit {0})
  status_event env c none = pure tt
  status_event env c (some e) = env.eventf c (text "EtcdClusterUpdateStatus") e

  -- An error of provider.Status is an event only: the status is taken over all the same.
  unfoldable pub take_status :
      Env W X
      → ClusterProvider W X
      → Cluster X
      → Result ClientConfig
      → Go W (Cluster X × Option Error)
  unfolding status_event
  take_status env provider c (err e) = pure (c, some e)
  take_status env provider c (ok config) = do
    (status, e) ← provider.status config c
    status_event env c e
    pure (record c { status = status }, none)

  -- The secret's name is the annotation certName, or empty.
  unfoldable pub client_config_of : Env W X → Cluster X → Go W (Result ClientConfig)
  client_config_of env c =
      env.client_config (c.namespace ++ (text "/" ++ c.name))
        (get_or (find cert_name c.annotations) [])

  unfoldable pub handle_cluster_status :
      Env W X → Cluster X → ClusterProvider W X → Go W (Cluster X × Option Error)
  unfolding client_config_of take_status
  handle_cluster_status env c provider = do
    config ← client_config_of env c
    take_status env provider c config

  unfoldable pub update_status : Env W X → Cluster X → Go W (Cluster X × Option Error)
  update_status env c = do
    r ← env.update_cluster c
    elim r [ err e ↦ pure (c, some e) | ok c' ↦ pure (c', none) ]

  unfoldable pub run_action :
      Env W X → Phase → Cluster X → ClusterProvider W X → Go W (Cluster X × Option Error)
  unfolding handle_cluster_create handle_cluster_update handle_cluster_status
  run_action env Phase.creating = handle_cluster_create env
  run_action env Phase.updating = handle_cluster_update env
  run_action env _ = handle_cluster_status env

  unfoldable pub report :
      Env W X → Phase → Cluster X → Option Error → Go W (Cluster X × Option Error)
  report env action c none = pure (c, none)
  report env action c (some e) = do env.eventf c (phase_text action) e; pure (c, some e)

  -- The result of the update is dropped, its error too.
  unfoldable pub perform_action :
      Env W X → Phase → Cluster X → ClusterProvider W X → Go W (Cluster X × Option Error)
  unfolding run_action update_status report
  perform_action env action c provider = do
    (c', e) ← run_action env action c provider
    update_status env c'
    report env action c' e

  unfoldable pub act :
      Env W X
      → Cluster X
      → ClusterProvider W X
      → Phase × Option Error
      → Go W (Cluster X × Option Error)
  unfolding perform_action
  act env c provider (action, some e) = pure (c, some e)
  act env c provider (action, none) = perform_action env action c provider

  unfoldable pub manage :
      Env W X → Cluster X → Result (ClusterProvider W X) → Go W (Cluster X × Option Error)
  unfolding get_desired_action act
  manage env c (err e) = pure (c, some e)
  manage env c (ok provider) = do r ← get_desired_action provider c; act env c provider r

  unfoldable pub handle_cluster_management : Env W X → Cluster X → Go W (Cluster X × Option Error)
  unfolding manage
  handle_cluster_management env c = do p ← env.cluster_provider c.spec.cluster_type; manage env c p
