-- ===== src/Controller/Lifecycle.antt =====
-- The conditions of a cluster under handleClusterManagement.
use kstone.Base.{◌≡◌, refl, sym, Option, none, some, arith, subst}
use kstone.Base.Text.{Text}
use kstone.Base.Effect.{Error, pure, >>=-eq-some}
use kstone.Api.{Phase, Cluster, phase_text}
use kstone.Interfaces.{Result, ok, err, ClusterProvider, Env, ClientConfig}
use kstone.Controller.{
  get_desired_action, handle_cluster_status, run_action, perform_action, handle_cluster_management,
  update_status, take_status, client_config_of, status_event, report, act, manage,
}
use kstone.Controller.Conditions.{Frames, create-Outcome, update-Outcome}
use kstone.Controller.Actions.{
  IsLifecycle, Allows, get_desired_action-Allows, create-IsLifecycle, update-IsLifecycle,
}

-- The methods of every provider that the controller can be given leave the conditions alone.
abbrev pub SoundProviders : {W X : Type 0} → Env W X → Type 0
SoundProviders {W} {X} env =
    (name : Text) (p : ClusterProvider W X) (w w' : W)
    → env.cluster_provider name w ≡ some (ok p, w')
    → Frames p

module _ {W X : Type 0} (env : Env W X) (p : ClusterProvider W X) (f : Frames p) where
  take_status-conditions :
      (config : Result ClientConfig) (c c' : Cluster X) (e : Option Error) (w w' : W)
      → take_status env p c config w ≡ some ((c', e), w')
      → c'.status.conditions ≡ c.status.conditions
  unfolding take_status
  take_status-conditions (err x) c c' e w w' r = ground arith
  take_status-conditions (ok config) c c' e w w' r =
      let ((s, e₁), w₁, m, n) = >>=-eq-some _ (p.status config c) w r in
      let (u, w₂, m₂, n₂) =
        >>=-eq-some (λ _. pure (record c { status = s }, none)) (status_event env c e₁) w₁ n in
      ground (arith, f.status config c s e₁ w w₁ m)

  run_action-IsLifecycle :
      (action : Phase) (c c' : Cluster X) (e : Option Error) (w w' : W)
      → IsLifecycle c.status.conditions
      → Allows c.status.conditions action
      → run_action env action c p w ≡ some ((c', e), w')
      → IsLifecycle c'.status.conditions
  unfolding run_action handle_cluster_status
  run_action-IsLifecycle Phase.creating c c' e w w' v a r =
      create-IsLifecycle _ _ (env.now w) e v a (create-Outcome env p c c' e w w' f r)
  run_action-IsLifecycle Phase.updating c c' e w w' v a r =
      update-IsLifecycle _ _ (env.now w) e v a (update-Outcome env p c c' e w w' f r)
  run_action-IsLifecycle _ c c' e w w' v a r =
      let (config, w₁, m, n) = >>=-eq-some (take_status env p c) (client_config_of env c) w r in
      rw (take_status-conditions config c c' e w₁ w' n) v

  report-same :
      (action : Phase) (c : Cluster X) (e : Option Error) (c' : Cluster X) (e' : Option Error)
      (w w' : W)
      → report env action c e w ≡ some ((c', e'), w')
      → (c' ≡ c) × (e' ≡ e)
  unfolding report
  report-same action c none c' e' w w' r = (ground arith, ground arith)
  report-same action c (some x) c' e' w w' r =
      let (u, w₁, m, n) =
        >>=-eq-some {B = Cluster X × Option Error} (λ _. pure (c, some x))
          (env.eventf c (phase_text action) x) w r in
      (ground arith, ground arith)

  perform_action-IsLifecycle :
      (action : Phase) (c c' : Cluster X) (e : Option Error) (w w' : W)
      → IsLifecycle c.status.conditions
      → Allows c.status.conditions action
      → perform_action env action c p w ≡ some ((c', e), w')
      → IsLifecycle c'.status.conditions
  unfolding perform_action
  perform_action-IsLifecycle action c c' e w w' v a r =
      let ((c₁, e₁), w₁, m, n) = >>=-eq-some _ (run_action env action c p) w r in
      let (u, w₂, m₂, n₂) =
        >>=-eq-some (λ _. report env action c₁ e₁) (update_status env c₁) w₁ n in
      subst (λ d. IsLifecycle d.status.conditions) (sym (report-same action c₁ e₁ c' e w₂ w' n₂).0)
        (run_action-IsLifecycle action c c₁ e₁ w w₁ v a m)

module _ {W X : Type 0} (env : Env W X) (sound : SoundProviders env) where
  acted :
      (p : ClusterProvider W X) (action : Phase) (e₁ : Option Error) (c c' : Cluster X)
      (e : Option Error) (w w₁ w' : W)
      → Frames p
      → IsLifecycle c.status.conditions
      → get_desired_action p c w ≡ some ((action, e₁), w₁)
      → act env c p (action, e₁) w₁ ≡ some ((c', e), w')
      → IsLifecycle c'.status.conditions
  unfolding act
  acted p action none c c' e w w₁ w' f v m n =
      perform_action-IsLifecycle env p f action c c' e w₁ w' v
        (get_desired_action-Allows p c action w w₁ m) n
  acted p action (some x) c c' e w w₁ w' f v m n =
      let k : c ≡ c' = ground arith in
      subst (λ (d : Cluster X). IsLifecycle d.status.conditions) k v

  manage-IsLifecycle :
      (r : Result (ClusterProvider W X)) (c c' : Cluster X) (e : Option Error) (w w' : W)
      → ((p : ClusterProvider W X) → r ≡ ok p → Frames p)
      → IsLifecycle c.status.conditions
      → manage env c r w ≡ some ((c', e), w')
      → IsLifecycle c'.status.conditions
  unfolding manage act
  manage-IsLifecycle (err x) c c' e w w' f v q =
      let k : c ≡ c' = ground arith in
      subst (λ (d : Cluster X). IsLifecycle d.status.conditions) k v
  manage-IsLifecycle (ok p) c c' e w w' f v q =
      let ((action, e₁), w₁, m, n) = >>=-eq-some (act env c p) (get_desired_action p c) w q in
      acted p action e₁ c c' e w w₁ w' (f p refl) v m n

  -- The cluster controller keeps the list of conditions in its life cycle, of at most two
  -- conditions, whatever the hooks and the API server answer, if every provider leaves the conditions
  -- alone.
  pub management-IsLifecycle :
      (c c' : Cluster X) (e : Option Error) (w w' : W)
      → IsLifecycle c.status.conditions
      → handle_cluster_management env c w ≡ some ((c', e), w')
      → IsLifecycle c'.status.conditions
  unfolding handle_cluster_management
  management-IsLifecycle c c' e w w' v r =
      let (p, w₁, m, n) =
        >>=-eq-some (manage env c) (env.cluster_provider c.spec.cluster_type) w r in
      manage-IsLifecycle p c c' e w₁ w' (λ q h. sound _ q w w₁ (rw h at m)) v n
