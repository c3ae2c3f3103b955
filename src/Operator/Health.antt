-- ===== src/Operator/Health.antt =====
-- When Status of pkg/clusterprovider/providers/kstone/kstone.go reports a running cluster.
use kstone.Base.{
  ℕ, ◌≡◌, ◌≢◌, refl, sym, ap, ◌∙◌, subst, Bool, true, false, not, ◌||◌, Option, none, some, List,
  map, all, arith, if◌then◌else◌, ◌==◌, length, length-map,
}
use kstone.Base.Text.{Text}
use kstone.Base.Effect.{Error, pure, ◌>>=◌, >>=-eq-some}
use kstone.Api.{Phase, MemberStatus, Cluster, Status, is_running}
use kstone.Interfaces.{ClientConfig}
use kstone.Members.{MemberEnv}
use kstone.Members.Runtime.{get_runtime_etcd_members, get_etcd_cluster_member_status}
use kstone.Members.Health.{member_runs, identity, member_status-phase}
use kstone.Operator.{rounds, annotation, ext_client_url}
use kstone.Operator.Provider.{
  status_endpoints, lost, checked, status_of_members, status_from, status, is_unknown_phase,
}

lost-not_running : (s : Status) → is_running (lost s).phase ≡ false
unfolding lost
lost-not_running s = ground arith

-- A report of a running cluster: as many members as the size asks for, at least one, all running.
abbrev pub Complete : ℕ → Status → Type 0
Complete size s =
    (length s.members ≡ size) × (length s.members ≢ 0) × (all member_runs s.members ≡ true)

length-identity :
    (ms ms' : List MemberStatus) → map identity ms' ≡ map identity ms → length ms' ≡ length ms
length-identity ms ms' h = sym (length-map identity ms') ∙ ap length h ∙ length-map identity ms

checked-eq :
    (s : Status) (ms : List MemberStatus) (all_run : Bool)
    → let phase = if all_run then Phase.running else Phase.unhealthy in
      checked s (ms, phase) ≡ record s { members = ms; phase = phase }
unfolding checked is_unknown_phase
checked-eq s ms true = ground arith
checked-eq s ms false = ground arith

runs-all : (b : Bool) → is_running (if b then Phase.running else Phase.unhealthy) ≡ true → b ≡ true
runs-all true h = refl
runs-all false h = h

module _ {W X : Type 0} (env : MemberEnv W) (config : ClientConfig) (c : Cluster X) where
  checked-Complete :
      (s s' : Status) (ms : List MemberStatus) (e : Option Error) (size : ℕ) (w w' : W)
      → length ms ≡ size
      → length ms ≢ 0
      → ◌>>=◌ {B = Status × Option Error}
          (get_etcd_cluster_member_status env ms config)
          (λ r. pure (checked s r, none))
          w
        ≡ some ((s', e), w')
      → is_running s'.phase ≡ true
      → Complete size s'
  checked-Complete s s' ms e size w w' l z r h =
      let ((ms', p), w₁, a, q) =
        >>=-eq-some {B = Status × Option Error} (λ r. pure (checked s r, none))
          (get_etcd_cluster_member_status env ms config) w r in
      let (p_eq, same) = member_status-phase env config ms ms' p w w₁ a in
      let n = length-identity ms ms' same in
      let t : s' ≡ checked s (ms', p) = ground arith in
      let u = t ∙ (ap (λ q. checked s (ms', q)) p_eq ∙ checked-eq s ms' (all member_runs ms')) in
      subst (λ (d : Status). is_running d.phase ≡ true → Complete size d) (sym u)
        (λ k. (n ∙ l, λ y. z (sym n ∙ y), runs-all (all member_runs ms') k)) h

  of_members-Complete :
      (s s' : Status) (r : List MemberStatus × Option Error) (e : Option Error) (w w' : W)
      → status_of_members env config c s r w ≡ some ((s', e), w')
      → is_running s'.phase ≡ true
      → Complete (rounds c.spec.size) s'
  unfolding status_of_members
  of_members-Complete s s' (ms, some x) e w w' r h =
      let t : s' ≡ lost s = ground arith in let z = lost-not_running s in absurd (ground (arith, z))
  of_members-Complete s s' (ms, none) e w w' r h =
      split (not (rounds c.spec.size == length ms) || (length ms == 0)) refl r
    where
      split :
          (b : Bool)
          → not (rounds c.spec.size == length ms) || (length ms == 0) ≡ b
          → ◌≡◌ {A = Option ((Status × Option Error) × W)}
              ((if b
                  then pure (lost s, none)
                  else (get_etcd_cluster_member_status env ms config >>= λ r.
                      pure (checked s r, none)))
                w)
              (some ((s', e), w'))
          → Complete (rounds c.spec.size) s'
      split true k q =
          let t : s' ≡ lost s = ground arith in
          let z = lost-not_running s in absurd (ground (arith, z))
      split false k q =
          checked-Complete s s' ms e (rounds c.spec.size) w w' (ground arith) (λ y. ground arith) q
            h

module _ {W X : Type 0} (env : MemberEnv W) (config : ClientConfig) (c : Cluster X) where
  -- If Status of the etcd-operator provider reports Running, it does so for as many members as the
  -- size asks for, at least one, and found every one of them running.
  pub status-running :
      (s' : Status) (e : Option Error) (w w' : W)
      → status env config c w ≡ some ((s', e), w')
      → is_running s'.phase ≡ true
      → Complete (rounds c.spec.size) s'
  unfolding status status_from
  status-running s' e w w' r h = from (status_endpoints c) r
    where
      from :
          (o : Option (List Text × Status))
          → status_from env config c o w ≡ some ((s', e), w')
          → Complete (rounds c.spec.size) s'
      from none q = absurd (ground arith)
      from (some (endpoints, s)) q =
          let (m, w₁, a, b) =
            >>=-eq-some (status_of_members env (record config { endpoints = endpoints }) c s)
              (get_runtime_etcd_members env c.spec.storage_backend endpoints
                (annotation c ext_client_url) config)
              w q in
          of_members-Complete env (record config { endpoints = endpoints }) c s s' m e w₁ w' b h
