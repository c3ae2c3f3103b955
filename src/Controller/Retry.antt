-- ===== src/Controller/Retry.antt =====
-- What the next synchronisation does after an operation that failed, and after one that succeeded.
use kstone.Base.{ℕ, ◌≡◌, Option, none, some, List, [], ◌∷◌, last?, arith}
use kstone.Base.Effect.{Error, pure, ◌>>=◌}
use kstone.Api.{Phase, ConditionType, is_true, is_false, Condition, Cluster}
use kstone.Interfaces.{ClusterProvider, Env}
use kstone.Controller.{
  unfinished, compared, choose, generate_conditions, get_desired_action, run_action,
}
use kstone.Controller.Conditions.{Outcome, Frames, create-Outcome, update-Outcome}
use kstone.Controller.Actions.{IsLifecycle, Allows}

-- The two actions that have hooks.
pub data Operation : Phase → ConditionType → Type 0 where
  creates : Operation Phase.creating ConditionType.create
  updates : Operation Phase.updating ConditionType.update

abbrev pub FailedWith : ConditionType → Error → Option Condition → Type 0
FailedWith type x none = ⊥
FailedWith type x (some l) = (l.type ≡ type) × (l.status ≡ is_false) × (l.reason ≡ x.message)

abbrev pub Finished : ConditionType → Option Condition → Type 0
Finished type none = ⊥
Finished type (some l) = (l.type ≡ type) × (l.status ≡ is_true) × (l.reason ≡ [])

create-failed :
    (cs ds : List Condition) (now : ℕ) (x : Error)
    → IsLifecycle cs
    → Allows cs Phase.creating
    → Outcome (generate_conditions cs ConditionType.create now) ds (some x)
    → FailedWith ConditionType.create x (last? ds)
unfolding generate_conditions
create-failed [] ds now x v a o = ground arith
create-failed (c ∷ []) ds now x v a o = ground arith
create-failed (c ∷ d ∷ []) ds now x v a o = ground arith
create-failed (c ∷ d ∷ b ∷ cs) ds now x v a o = absurd v

update-failed :
    (cs ds : List Condition) (now : ℕ) (x : Error)
    → IsLifecycle cs
    → Allows cs Phase.updating
    → Outcome (generate_conditions cs ConditionType.update now) ds (some x)
    → FailedWith ConditionType.update x (last? ds)
unfolding generate_conditions
update-failed [] ds now x v a o = ground arith
update-failed (c ∷ []) ds now x v a o = ground arith
update-failed (c ∷ d ∷ []) ds now x v a o = ground arith
update-failed (c ∷ d ∷ b ∷ cs) ds now x v a o = absurd v

create-Finished :
    (cs ds : List Condition) (now : ℕ)
    → IsLifecycle cs
    → Allows cs Phase.creating
    → Outcome (generate_conditions cs ConditionType.create now) ds none
    → Finished ConditionType.create (last? ds)
unfolding generate_conditions
create-Finished [] ds now v a o = ground arith
create-Finished (c ∷ []) ds now v a o = ground arith
create-Finished (c ∷ d ∷ []) ds now v a o = ground arith
create-Finished (c ∷ d ∷ b ∷ cs) ds now v a o = absurd v

update-Finished :
    (cs ds : List Condition) (now : ℕ)
    → IsLifecycle cs
    → Allows cs Phase.updating
    → Outcome (generate_conditions cs ConditionType.update now) ds none
    → Finished ConditionType.update (last? ds)
unfolding generate_conditions
update-Finished [] ds now v a o = ground arith
update-Finished (c ∷ []) ds now v a o = ground arith
update-Finished (c ∷ d ∷ []) ds now v a o = ground arith
update-Finished (c ∷ d ∷ b ∷ cs) ds now v a o = absurd v

module _ {W X : Type 0} where
  chosen-again :
      (action : Phase) (type : ConditionType) (x : Error) (q : ClusterProvider W X) (c : Cluster X)
      (v : W)
      → Operation action type
      → FailedWith type x (last? c.status.conditions)
      → get_desired_action q c v ≡ some ((action, none), v)
  unfolding get_desired_action choose unfinished
  chosen-again action type x q c v creates h = ground arith
  chosen-again action type x q c v updates h = ground arith

  -- After a create or an update that returned an error, the last condition is False and holds the
  -- error's message, and the next synchronisation does the same operation again: it does not ask
  -- the provider first. The conditions before are in their life cycle and allow the operation, and
  -- the provider leaves them alone.
  pub failure_retried :
      (env : Env W X) (p q : ClusterProvider W X) {action : Phase} {type : ConditionType}
      (c c' : Cluster X) (x : Error) (w w' v : W)
      → Operation action type
      → Frames p
      → IsLifecycle c.status.conditions
      → Allows c.status.conditions action
      → run_action env action c p w ≡ some ((c', some x), w')
      → FailedWith type x (last? c'.status.conditions)
        × (get_desired_action q c' v ≡ some ((action, none), v))
  unfolding run_action
  failure_retried env p q c c' x w w' v creates f l a r =
      let h = create-failed _ _ (env.now w) x l a (create-Outcome env p c c' (some x) w w' f r) in
      (h, chosen-again Phase.creating ConditionType.create x q c' v creates h)
  failure_retried env p q c c' x w w' v updates f l a r =
      let h = update-failed _ _ (env.now w) x l a (update-Outcome env p c c' (some x) w w' f r) in
      (h, chosen-again Phase.updating ConditionType.update x q c' v updates h)

  compared-again :
      (type : ConditionType) (q : ClusterProvider W X) (c : Cluster X) (v : W)
      → Finished type (last? c.status.conditions)
      → get_desired_action q c v ≡ ◌>>=◌ (q.equal c) (λ r. pure (compared r)) v
  unfolding get_desired_action choose unfinished
  compared-again type q c v h = ground arith

  -- After a create or an update without an error, the last condition is True and of the
  -- operation's type, and the next action depends on the provider's comparison alone. The conditions
  -- before are in their life cycle and allow the operation, and the provider leaves them alone.
  pub success_compared :
      (env : Env W X) (p q : ClusterProvider W X) {action : Phase} {type : ConditionType}
      (c c' : Cluster X) (w w' v : W)
      → Operation action type
      → Frames p
      → IsLifecycle c.status.conditions
      → Allows c.status.conditions action
      → run_action env action c p w ≡ some ((c', none), w')
      → Finished type (last? c'.status.conditions)
        × (get_desired_action q c' v ≡ ◌>>=◌ (q.equal c') (λ r. pure (compared r)) v)
  unfolding run_action
  success_compared env p q c c' w w' v creates f l a r =
      let h = create-Finished _ _ (env.now w) l a (create-Outcome env p c c' none w w' f r) in
      (h, compared-again ConditionType.create q c' v h)
  success_compared env p q c c' w w' v updates f l a r =
      let h = update-Finished _ _ (env.now w) l a (update-Outcome env p c c' none w w' f r) in
      (h, compared-again ConditionType.update q c' v h)
