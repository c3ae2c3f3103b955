-- ===== src/Members/Health.antt =====
-- GetEtcdClusterMemberStatus: the phase of the cluster against the health of its members.
use kstone.Base.{◌≡◌, refl, ap, ◌∙◌, Bool, some, List, [], ◌∷◌, map, all, arith, if◌then◌else◌}
use kstone.Base.Effect.{>>=-eq-some}
use kstone.Api.{Phase, MemberPhase, MemberStatus, is_running}
use kstone.Interfaces.{ClientConfig}
use kstone.Members.{MemberEnv, member_phase, lower, runs}
use kstone.Members.Runtime.{check_members, get_etcd_cluster_member_status}

abbrev pub member_runs : MemberStatus → Bool
member_runs m = runs m.status

-- A member without its phase.
abbrev pub identity : MemberStatus → MemberStatus
identity m = record m { status = MemberPhase.unknown }

abbrev pub phase_after : Phase → List MemberStatus → Phase
phase_after phase ms =
    if is_running phase
    then (if all member_runs ms then Phase.running else Phase.unhealthy)
    else phase

lower-phase_after :
    (phase : Phase) (s : MemberPhase) (m : MemberStatus) (ms : List MemberStatus)
    → phase_after (lower phase s) ms ≡ phase_after phase (record m { status = s } ∷ ms)
unfolding lower runs
lower-phase_after phase s m ms = ground arith

module _ {W : Type 0} (env : MemberEnv W) (config : ClientConfig) where
  check_members-phase :
      (phase : Phase) (ms ms' : List MemberStatus) (p : Phase) (w w' : W)
      → check_members env config phase ms w ≡ some ((ms', p), w')
      → (p ≡ phase_after phase ms') × (map identity ms' ≡ map identity ms)
  unfolding check_members
  check_members-phase phase [] ms' p w w' r =
      let h : ms' ≡ [] = ground arith in rw h (ground arith, refl)
  check_members-phase phase (m ∷ ms) ms' p w w' r =
      let ((healthy, e), w₁, a, q) =
        >>=-eq-some _ (env.member_healthy m.extension_client_url config) w r in
      let s = member_phase healthy e in
      let ((rest, last), w₂, b, n) =
        >>=-eq-some _ (check_members env config (lower phase s) ms) w₁ q in
      let (h, k) = check_members-phase (lower phase s) ms rest last w₁ w₂ b in
      let t : ms' ≡ record m { status = s } ∷ rest = ground arith in
      let u : p ≡ last = ground arith in
      rw (t, u) (h ∙ lower-phase_after phase s m rest, ap (λ l. identity m ∷ l) k)

  -- The cluster is Running exactly if every member that was checked is, and UnHealthy otherwise:
  -- never Unknown. The check changes nothing but the phase of the members, and drops none.
  pub member_status-phase :
      (ms ms' : List MemberStatus) (p : Phase) (w w' : W)
      → get_etcd_cluster_member_status env ms config w ≡ some ((ms', p), w')
      → (p ≡ (if all member_runs ms' then Phase.running else Phase.unhealthy))
        × (map identity ms' ≡ map identity ms)
  unfolding get_etcd_cluster_member_status
  member_status-phase ms ms' p w w' r = check_members-phase Phase.running ms ms' p w w' r
