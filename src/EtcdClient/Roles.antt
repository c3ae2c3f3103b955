-- ===== src/EtcdClient/Roles.antt =====
-- GetRuntimeEtcdMembers of pkg/clusterprovider/helper.go over the client of version 3.
use kstone.Base.{◌≡◌, sym, subst, Option, none, some, List, [], ◌∷◌, arith, if◌then◌else◌}
use kstone.Base.Text.{Text, text_eq, split}
use kstone.Base.Decimal.{itoa}
use kstone.Base.Dict.{Dict}
use kstone.Base.Effect.{pure, >>=-eq-some, >>=-some}
use kstone.Api.{MemberPhase, MemberRole, MemberStatus}
use kstone.Interfaces.{ok, ClientConfig}
use kstone.Members.{
  Member, VersionClient, extension_client_url, role_of, unanswered, answered, cons_some,
}
use kstone.Members.Runtime.{or_panic, probe_url, probe, probe_members}
use kstone.EtcdHealth.{HealthLibrary}
use kstone.EtcdClient.{EtcdLibrary}
use kstone.EtcdClient.Versions.{StatusV3, Calls, status_of_v3, first_status, status_v3, client_v3}

abbrev pub Every : (MemberStatus → Type 0) → List MemberStatus → Type 0
Every P [] = Unit
Every P (s ∷ ss) = P s × Every P ss

-- The role by the status of a node that is asked.
abbrev pub role_by : StatusV3 → Text → MemberRole
role_by rsp id =
    if rsp.is_learner
    then MemberRole.learner
    else if text_eq (itoa rsp.leader) id
    then MemberRole.leader
    else MemberRole.follower

-- The entry of a member has what the status says.
abbrev pub ReadFrom : StatusV3 → MemberStatus → Type 0
ReadFrom rsp s =
    (s.version ≡ rsp.version)
    × (s.status ≡ MemberPhase.running)
    × (s.role ≡ role_by rsp s.member_id)

unanswered-id :
    (m : Member) (url extension : Text) (parts : List Text) (s : MemberStatus)
    → unanswered m url extension parts ≡ some s
    → s.member_id ≡ m.id
unfolding unanswered
unanswered-id m url extension [] s h = absurd (cc)
unanswered-id m url extension (a ∷ []) s h = absurd (cc)
unanswered-id m url extension (a ∷ b ∷ []) s h = absurd (cc)
unanswered-id m url extension (a ∷ b ∷ c ∷ rest) s h = ground arith

or_panic-eq-some :
    {W A : Type 0} (o : Option A) {a : A} (w : W) {w' : W}
    → or_panic o w ≡ some (a, w')
    → o ≡ some a
or_panic-eq-some none w h = absurd (cc)
or_panic-eq-some (some b) w h = cc

-- The entry of a member with the status.
entry :
    (rsp : StatusV3) (m : Member) (s t : MemberStatus)
    → s.member_id ≡ m.id
    → answered m s (status_of_v3 (ok rsp)).0 (status_of_v3 (ok rsp)).1 ≡ some t
    → ReadFrom rsp t
unfolding answered status_of_v3 role_of
entry rsp m s t i h = ground (arith, i, h)

module _ {W K Pair Client2 Client3 : Type 0} (lib : EtcdLibrary W K Client2 Client3)
    (health : HealthLibrary W K Pair) (calls : Calls W Client2 Client3) (config : ClientConfig)
    (first : Text) (more : List Text) (e : config.endpoints ≡ first ∷ more) (cli : Client3)
    (rsp : StatusV3) (stable : (w : W) → calls.status_v3 first cli w ≡ some (ok rsp, w)) where
  abbrev the_client : VersionClient W
  the_client = client_v3 lib health calls config cli

  answers :
      (endpoint : Text) (w : W) → the_client.status endpoint w ≡ some (status_of_v3 (ok rsp), w)
  unfolding client_v3 status_v3 first_status
  answers endpoint w =
      subst (λ l. first_status lib health calls l cli w ≡ some (status_of_v3 (ok rsp), w)) (sym e)
        (>>=-some (λ r. pure (status_of_v3 r)) (calls.status_v3 first cli) (stable w))

  abbrev Listed : Option MemberStatus → Type 0
  Listed none = Unit
  Listed (some s) = ReadFrom rsp s

  probe_url-Listed :
      (setting : Text) (urls : Option (Dict Text)) (m : Member) (url : Text)
      (o : Option MemberStatus) (w w' : W)
      → probe_url the_client setting urls m url w ≡ some (o, w')
      → Listed o
  unfolding probe_url
  probe_url-Listed setting urls m url o w w' h =
      let ext = extension_client_url setting urls url in
      let (s, w₁, x, k) = >>=-eq-some _ (or_panic (unanswered m url ext (split b':' url))) w h in
      let (a, w₂, y, l) = >>=-eq-some _ (the_client.status ext) w₁ k in
      let (t, w₃, z, q) = >>=-eq-some _ (or_panic (answered m s a.0 a.1)) w₂ l in
      let b : a ≡ status_of_v3 (ok rsp) = cc (y, answers ext w₁) in
      let i = unanswered-id m url ext (split b':' url) s (or_panic-eq-some _ w x) in
      let c = or_panic-eq-some (answered m s a.0 a.1) w₂ z in
      let d : some t ≡ o = cc in
      subst Listed d (entry rsp m s t i (subst (λ p. answered m s p.0 p.1 ≡ some t) b c))

  probe-Listed :
      (setting : Text) (urls : Option (Dict Text)) (m : Member) (us : Option (List Text))
      (o : Option MemberStatus) (w w' : W)
      → probe the_client setting urls m us w ≡ some (o, w')
      → Listed o
  unfolding probe
  probe-Listed setting urls m none o w w' h = let d : none ≡ o = cc in subst Listed d tt
  probe-Listed setting urls m (some []) o w w' h = absurd (cc)
  probe-Listed setting urls m (some (url ∷ us)) o w w' h =
      probe_url-Listed setting urls m url o w w' h

  cons_some-Every :
      (o : Option MemberStatus) (ss : List MemberStatus)
      → Listed o
      → Every (ReadFrom rsp) ss
      → Every (ReadFrom rsp) (cons_some o ss)
  unfolding cons_some
  cons_some-Every none ss l h = h
  cons_some-Every (some s) ss l h = (l, h)

  -- GetRuntimeEtcdMembers over the client of version 3 gives every member that it lists the version
  -- of the first endpoint of the configuration and the phase running, whichever member answers, and
  -- its role by the leader that this endpoint names, or the learner's if the endpoint is one. The
  -- status of the first endpoint does not change meanwhile.
  pub probe_members-ReadFrom :
      (setting : Text) (urls : Option (Dict Text)) (ms : List Member) (ss : List MemberStatus)
      (w w' : W)
      → probe_members (client_v3 lib health calls config cli) setting urls ms w ≡ some (ss, w')
      → Every (ReadFrom rsp) ss
  unfolding probe_members
  probe_members-ReadFrom setting urls [] ss w w' h =
      let d : [] ≡ ss = cc in subst (Every (ReadFrom rsp)) d tt
  probe_members-ReadFrom setting urls (m ∷ ms) ss w w' h =
      let (o, w₁, x, k) = >>=-eq-some _ (probe the_client setting urls m m.client_urls) w h in
      let (rest, w₂, y, l) = >>=-eq-some _ (probe_members the_client setting urls ms) w₁ k in
      let d : cons_some o rest ≡ ss = cc in
      subst (Every (ReadFrom rsp)) d (
        cons_some-Every o rest (probe-Listed setting urls m m.client_urls o w w₁ x)
          (probe_members-ReadFrom setting urls ms rest w₁ w₂ y))
