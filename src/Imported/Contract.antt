-- ===== src/Imported/Contract.antt =====
-- The provider of pkg/clusterprovider/providers/imported/cluster.go as one that the cluster
-- controller can call, and its Status.
use kstone.Base.{
  ◌≡◌, refl, ◌∙◌, Bool, true, false, Option, none, some, List, [], ◌∷◌, all, arith, if◌then◌else◌,
}
use kstone.Base.Text.{Text}
use kstone.Base.Effect.{Go, Error, pure, ◌>>=◌, >>=-eq-some}
use kstone.Api.{Phase, MemberStatus, Cluster, Status, is_running}
use kstone.Interfaces.{ClientConfig, leave}
use kstone.Members.{MemberEnv}
use kstone.Members.Runtime.{get_runtime_etcd_members, get_etcd_cluster_member_status}
use kstone.Members.Health.{member_runs, member_status-phase}
use kstone.Controller.Conditions.{Frames}
use kstone.Operator.{annotation, ext_client_url}
use kstone.Operator.Provider.{status_endpoints}
use kstone.Operator.Contract.{same-Keeps, leave-SameStatus, endpoints_or-conditions}
use kstone.Imported.{taken, status_of_members, status_from, status, imported_provider}

-- The phase is Running only if all members run.
abbrev Agrees : Status → Type 0
Agrees s = is_running s.phase ≡ true → all member_runs s.members ≡ true

-- The conditions of an answer are those of `s`, and its phase agrees with its members.
abbrev Answers : {W : Type 0} → Status → Go W (Status × Option Error) → Type 0
Answers {W} s m =
    (s' : Status) (e : Option Error) (w w' : W)
    → m w ≡ some ((s', e), w')
    → (s'.conditions ≡ s.conditions) × Agrees s'

module _ {W : Type 0} (env : MemberEnv W) (config : ClientConfig) where
  checked-Answers :
      (s : Status) (ms : List MemberStatus) (x : Option Error)
      → Answers s (get_etcd_cluster_member_status env ms config >>= λ r. pure (taken s x r))
  checked-Answers s ms x s' e w w' r =
      let ((ms', p), w₁, a, q) =
        >>=-eq-some {B = Status × Option Error} (λ r. pure (taken s x r))
          (get_etcd_cluster_member_status env ms config) w r in
      let (p_eq, same) = member_status-phase env config ms ms' p w w₁ a in
      let c : s'.conditions ≡ s.conditions = ground arith in
      let m : s'.members ≡ ms' = ground arith in
      let h : s'.phase ≡ p = ground arith in (c, rw (m, h, p_eq) (runs-all (all member_runs ms')))
    where
      runs-all :
          (b : Bool) → is_running (if b then Phase.running else Phase.unhealthy) ≡ true → b ≡ true
      runs-all true k = refl
      runs-all false k = k

  of_members-Answers :
      (s : Status) (r : List MemberStatus × Option Error)
      → Answers s (status_of_members env config s r)
  unfolding status_of_members
  of_members-Answers s ([], some x) s' e w w' r = ground arith
  of_members-Answers s ([], none) s' e w w' r = checked-Answers s [] none s' e w w' r
  of_members-Answers s (m ∷ ms, x) s' e w w' r = checked-Answers s (m ∷ ms) x s' e w w' r

module _ {W : Type 0} (env : MemberEnv W) (config : ClientConfig) where
  from-Answers :
      {X : Type 0} (c : Cluster X) (o : Option (List Text × Status))
      → status_endpoints c ≡ o
      → Answers c.status (status_from env config c o)
  unfolding status_from status_endpoints
  from-Answers c none h s' e w w' r = ground arith
  from-Answers c (some (endpoints, s)) h s' e w w' r =
      let (m, w₁, a, b) =
        >>=-eq-some (status_of_members env (record config { endpoints = endpoints }) s)
          (get_runtime_etcd_members env c.spec.storage_backend endpoints
            (annotation c ext_client_url) config)
          w r in
      let k = endpoints_or-conditions c.status _ _ endpoints s h in
      let (q, t) =
        of_members-Answers env (record config { endpoints = endpoints }) s m s' e w₁ w' b in
      (q ∙ k, t)

  -- If Status of the provider of imported clusters reports Running, all members that it lists run.
  pub imported_status-running :
      {X : Type 0} (c : Cluster X) (s' : Status) (e : Option Error) (w w' : W)
      → status env config c w ≡ some ((s', e), w')
      → is_running s'.phase ≡ true
      → all member_runs s'.members ≡ true
  unfolding status
  imported_status-running c s' e w w' r = (from-Answers c (status_endpoints c) refl s' e w w' r).1

module _ {W X : Type 0} (env : MemberEnv W) where
  -- No method of the provider of imported clusters touches the conditions.
  pub imported_provider-Frames : Frames (imported_provider {X = X} env)
  unfolding imported_provider status
  imported_provider-Frames = record {
    before_create = same-Keeps leave leave-SameStatus;
    create = same-Keeps leave leave-SameStatus;
    after_create = same-Keeps leave leave-SameStatus;
    before_update = same-Keeps leave leave-SameStatus;
    update = same-Keeps leave leave-SameStatus;
    after_update = same-Keeps leave leave-SameStatus;
    status =
        λ config c s e w w' r. (from-Answers env config c (status_endpoints c) refl s e w w' r).0;
  }
