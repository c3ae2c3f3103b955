-- ===== src/Operator/Contract.antt =====
-- The provider of pkg/clusterprovider/providers/kstone/kstone.go as one that the cluster controller
-- can call.
use kstone.Base.{
  ◌≡◌, refl, ap, ◌∙◌, Bool, true, false, not, ◌||◌, Option, none, some, List, [], ◌∷◌, arith,
  if◌then◌else◌, ◌==◌, length,
}
use kstone.Base.Text.{Text}
use kstone.Base.Dict.{Dict}
use kstone.Base.Effect.{Go, Error, pure, ◌>>=◌, >>=-eq-some}
use kstone.Api.{Phase, MemberStatus, Cluster, Status}
use kstone.Interfaces.{Result, ok, err, ClientConfig, leave}
use kstone.Members.{MemberEnv}
use kstone.Members.Runtime.{get_runtime_etcd_members, get_etcd_cluster_member_status}
use kstone.Unstructured.{Accessors, Value}
use kstone.Controller.Conditions.{Hook, Keeps, Frames}
use kstone.Operator.{Foreign, rounds, annotation, ext_client_url, annotate, after_create}
use kstone.Operator.Generate.{update_etcd_spec}
use kstone.Operator.Provider.{
  OperatorClient, status_endpoints, endpoints_or, lost, checked, status_of_members, status_from,
  status, create, operator_cluster, create_operator_cluster, update, update_got,
  put_operator_cluster, kstone_provider, keep_unless_exists,
}

lost-conditions : (s : Status) → (lost s).conditions ≡ s.conditions
unfolding lost
lost-conditions s = ground arith

checked-conditions :
    (s : Status) (r : List MemberStatus × Phase) → (checked s r).conditions ≡ s.conditions
unfolding checked
checked-conditions s (ms, p) = ground arith

pub endpoints_or-conditions :
    (s : Status) (eps : List Text) (addr : Option Text) (r : List Text) (s' : Status)
    → endpoints_or s eps addr ≡ some (r, s')
    → s'.conditions ≡ s.conditions
unfolding endpoints_or
endpoints_or-conditions s [] none r s' h = ground arith
endpoints_or-conditions s [] (some a) r s' h = ground arith
endpoints_or-conditions s (ep ∷ eps) addr r s' h = ground arith

-- What a status answers, when its conditions are those of `s`.
abbrev pub KeepsStatus : {W : Type 0} → Status → Go W (Status × Option Error) → Type 0
KeepsStatus {W} s m =
    (s' : Status) (e : Option Error) (w w' : W)
    → m w ≡ some ((s', e), w')
    → s'.conditions ≡ s.conditions

module _ {W X : Type 0} (env : MemberEnv W) (config : ClientConfig) (c : Cluster X) where
  lost-Keeps : (s : Status) (x : Option Error) → KeepsStatus {W = W} s (pure (lost s, x))
  lost-Keeps s x s' e w w' r =
      let t : s' ≡ lost s = ground arith in ap (λ (d : Status). d.conditions) t ∙ lost-conditions s

  checked-Keeps :
      (s : Status) (ms : List MemberStatus)
      → KeepsStatus s
          (get_etcd_cluster_member_status env ms config >>= λ r. pure (checked s r, none))
  checked-Keeps s ms s' e w w' r =
      let (m, w₁, a, q) =
        >>=-eq-some {B = Status × Option Error} (λ r. pure (checked s r, none))
          (get_etcd_cluster_member_status env ms config) w r in
      let t : s' ≡ checked s m = ground arith in
      ap (λ (d : Status). d.conditions) t ∙ checked-conditions s m

  of_members-Keeps :
      (s : Status) (r : List MemberStatus × Option Error)
      → KeepsStatus s (status_of_members env config c s r)
  unfolding status_of_members
  of_members-Keeps s (ms, some x) = lost-Keeps s (some x)
  of_members-Keeps s (ms, none) = split (not (rounds c.spec.size == length ms) || (length ms == 0))
    where
      split :
          (b : Bool)
          → KeepsStatus s (
              if b
              then pure (lost s, none)
              else (get_etcd_cluster_member_status env ms config >>= λ r. pure (checked s r, none)))
      split true = lost-Keeps s none
      split false = checked-Keeps s ms

module _ {W X : Type 0} (env : MemberEnv W) (config : ClientConfig) (c : Cluster X) where
  endpoints-conditions :
      (o : Option (List Text × Status))
      → status_endpoints c ≡ o
      → KeepsStatus c.status (status_from env config c o)
  unfolding status_endpoints status_from
  endpoints-conditions none h s' e w w' r = ground arith
  endpoints-conditions (some (endpoints, s)) h s' e w w' r =
      let (m, w₁, a, b) =
        >>=-eq-some (status_of_members env (record config { endpoints = endpoints }) c s)
          (get_runtime_etcd_members env c.spec.storage_backend endpoints
            (annotation c ext_client_url) config)
          w r in
      let k = endpoints_or-conditions c.status _ _ endpoints s h in
      of_members-Keeps env (record config { endpoints = endpoints }) c s m s' e w₁ w' b ∙ k

  status-Keeps : KeepsStatus c.status (status env config c)
  unfolding status
  status-Keeps = endpoints-conditions (status_endpoints c) refl

-- A hook that changes no part of the status.
abbrev pub SameStatus : {W X : Type 0} → Hook W X → Type 0
SameStatus {W} {X} hook =
    (c c' : Cluster X) (e : Option Error) (w w' : W)
    → hook c w ≡ some ((c', e), w')
    → c'.status ≡ c.status

pub same-Keeps : {W X : Type 0} (hook : Hook W X) → SameStatus hook → Keeps hook
same-Keeps hook h c c' e w w' r = ap (λ (s : Status). s.conditions) (h c c' e w w' r)

after_create-SameStatus : {W X : Type 0} → SameStatus {W = W} {X = X} after_create
unfolding after_create annotate
after_create-SameStatus c c' e w w' r = split c.annotations r
  where
    split : (o : Option (Dict Text)) → annotate c o w ≡ some ((c', e), w') → c'.status ≡ c.status
    split none q = absurd (ground arith)
    split (some m) q = ground arith

pub leave-SameStatus : {W X : Type 0} → SameStatus {W = W} {X = X} leave
leave-SameStatus c c' e w w' r = ground arith

-- A computation that answers with the cluster that it was given.
abbrev Returns : {W X : Type 0} → Cluster X → Go W (Cluster X × Option Error) → Type 0
Returns {W} {X} c m =
    (c' : Cluster X) (e : Option Error) (w w' : W) → m w ≡ some ((c', e), w') → c'.status ≡ c.status

pure-Returns : {W X : Type 0} (c : Cluster X) (e : Option Error) → Returns {W = W} c (pure (c, e))
pure-Returns c x c' e w w' r = ground arith

after-Returns :
    {W X A : Type 0} (c : Cluster X) (m : Go W A) (f : A → Option Error)
    → Returns c (m >>= λ x. pure (c, f x))
after-Returns {X = X} c m f c' e w w' r =
    let (x, w₁, p, q) = >>=-eq-some {B = Cluster X × Option Error} (λ x. pure (c, f x)) m w r in
    ground arith

module _ {W X : Type 0} (k : Foreign X) (a : Accessors) (client : OperatorClient W X)
    (env : MemberEnv W) where
  create-Returns :
      (c : Cluster X) (r : Result Value) → Returns c (create_operator_cluster k a client env c r)
  unfolding create_operator_cluster
  create-Returns c (err e) = pure-Returns c (some e)
  create-Returns c (ok v) = after-Returns c (client.create c.namespace v) keep_unless_exists

  put-Returns :
      (c : Cluster X) (r : Result Value) → Returns c (put_operator_cluster k a client env c r)
  unfolding put_operator_cluster
  put-Returns c (err e) = pure-Returns c (some e)
  put-Returns c (ok v) = after-Returns c (client.update c.namespace v) (λ e. e)

  got-Returns : (c : Cluster X) (r : Result Value) → Returns c (update_got k a client env c r)
  unfolding update_got
  got-Returns c (err e) = pure-Returns c (some e)
  got-Returns c (ok v) = put-Returns c (update_etcd_spec k a v c)

  create-SameStatus : SameStatus (create k a client env)
  unfolding create
  create-SameStatus c =
      create-Returns c (client.set_owner_reference c (operator_cluster k a client env c))

  update-SameStatus : SameStatus (update k a client env)
  unfolding update
  update-SameStatus c c' e w w' r =
      let (x, w₁, p, q) =
        >>=-eq-some (update_got k a client env c) (client.get c.namespace c.name) w r in
      got-Returns c x c' e w₁ w' q

  -- No method of the etcd-operator provider touches the conditions, whatever the API server, the
  -- members and the accessors answer.
  pub kstone_provider-Frames : Frames (kstone_provider k a client env)
  unfolding kstone_provider
  kstone_provider-Frames = record {
    before_create = same-Keeps leave leave-SameStatus;
    create = same-Keeps (create k a client env) create-SameStatus;
    after_create = same-Keeps after_create after_create-SameStatus;
    before_update = same-Keeps leave leave-SameStatus;
    update = same-Keeps (update k a client env) update-SameStatus;
    after_update = same-Keeps leave leave-SameStatus;
    status = λ config c. status-Keeps env config c;
  }
