-- ===== src/Controller/Conditions.antt =====
-- What a chain of hooks leaves in the conditions of a cluster (handleClusterCreate and
-- handleClusterUpdate of pkg/controllers/etcdcluster/etcdclusters_controller.go).
use kstone.Base.{
  ℕ, ◌-◌, ◌≡◌, refl, ◌∙◌, ◌⊎◌, inl, inr, Option, none, some, List, [], ◌∷◌, ◌++◌, length, last?,
  modify_last, arith, Option-cases, subst,
}
use kstone.Base.Effect.{Go, Error, >>=-eq-some}
use kstone.Api.{
  ConditionType, ConditionStatus, is_true, is_false, is_unknown, Condition, Cluster, Status,
}
use kstone.Interfaces.{ClusterProvider, Env, ClientConfig}
use kstone.Controller.{
  modify_at, started, next_conditions, set_condition, try_hook, finish, with_conditions,
  generate_conditions, handle_cluster_create, handle_cluster_update,
}

abbrev pub closed : ℕ → Condition → Condition
closed t d = record d { reason = []; end_time = t; status = is_true }

abbrev pub broken : Error → Condition → Condition
broken x d = record d { reason = x.message }

-- The end of an operation that began with the conditions `cs`: the last one is closed, or it holds
-- the message of the error that is returned.
abbrev pub Outcome : List Condition → List Condition → Option Error → Type 0
Outcome cs ds e =
    ((e ≡ none) × ((t : ℕ) × (ds ≡ modify_last (closed t) cs)))
    ⊎ ((x : Error) × (e ≡ some x) × (ds ≡ modify_last (broken x) cs))

modify_at-last :
    (f : Condition → Condition) (c : Condition) (cs : List Condition)
    → modify_at (length cs) f (c ∷ cs) ≡ some (modify_last f (c ∷ cs))
unfolding modify_at
modify_at-last f c [] = refl
modify_at-last f c (d ∷ cs) = rw (modify_at-last f d cs)

abbrev pub Hook : Type 0 → Type 0 → Type 0
Hook W X = Cluster X → Go W (Cluster X × Option Error)

module _ {W X : Type 0} where
  -- A hook that leaves the conditions alone.
  abbrev pub Keeps : Hook W X → Type 0
  Keeps hook =
      (c c' : Cluster X) (e : Option Error) (w w' : W)
      → hook c w ≡ some ((c', e), w')
      → c'.status.conditions ≡ c.status.conditions

  abbrev pub Ends : List Condition → Hook W X → Type 0
  Ends cs hook =
      (c c' : Cluster X) (e : Option Error) (w w' : W)
      → c.status.conditions ≡ cs
      → hook c w ≡ some ((c', e), w')
      → Outcome cs c'.status.conditions e

module _ {W X : Type 0} (b : Condition) (bs : List Condition) where
  set_condition-last :
      (f : Condition → Condition) (c : Cluster X) (w : W)
      → c.status.conditions ≡ b ∷ bs
      → set_condition (length bs) f c w ≡ some (with_conditions c (modify_last f (b ∷ bs)), w)
  unfolding set_condition
  set_condition-last f c w h = rw (h, set_condition) (rw (modify_at-last f b bs))

  written :
      (f : Condition → Condition) (c c' : Cluster X) (w w' : W)
      → c.status.conditions ≡ b ∷ bs
      → set_condition (length bs) f c w ≡ some (c', w')
      → c'.status.conditions ≡ modify_last f (b ∷ bs)
  written f c c' w w' h r = ground (arith, set_condition-last f c w h)

  finish-Ends : (clock : W → ℕ) → Ends {W = W} {X = X} (b ∷ bs) (finish (length bs) clock)
  unfolding finish
  finish-Ends clock c c' e w w' h r =
      let (c'', w'', p, q) =
        >>=-eq-some (λ d v. some ((d, none), v)) (set_condition (length bs) (closed (clock w)) c) w
          r in
      inl (ground arith, (clock w, ground (arith, written (closed (clock w)) c c'' w w'' h p)))

  try_hook-Ends :
      (hook rest : Hook W X)
      → Keeps hook
      → Ends (b ∷ bs) rest
      → Ends (b ∷ bs) (try_hook (length bs) hook rest)
  unfolding try_hook
  try_hook-Ends hook rest keeps ends c c' e w w' h r =
      let ((c₁, e₁), w₁, p, q) = >>=-eq-some _ (hook c) w r in
      after c₁ e₁ w₁ (keeps c c₁ e₁ w w₁ p ∙ h) q
    where
      after :
          (c₁ : Cluster X) (e₁ : Option Error) (w₁ : W)
          → c₁.status.conditions ≡ b ∷ bs
          → try_hook (length bs) (λ d v. some ((c₁, e₁), w₁)) rest c w ≡ some ((c', e), w')
          → Outcome (b ∷ bs) c'.status.conditions e
      after c₁ none w₁ k q = ends c₁ c' e w₁ w' k q
      after c₁ (some x) w₁ k q =
          let (c₂, w₂, p₂, q₂) =
            >>=-eq-some (λ d v. some ((d, some x), v)) (set_condition (length bs) (broken x) c₁) w₁
              q in
          inr (x, ground arith, ground (arith, written (broken x) c₁ c₂ w₁ w₂ k p₂))

append-cons :
    (cs : List Condition) (d : Condition)
    → (b : Condition) × (bs : List Condition) × (cs ++ d ∷ [] ≡ b ∷ bs)
append-cons [] d = (d, [], refl)
append-cons (c ∷ cs) d = (c, cs ++ d ∷ [], refl)

next_conditions-cons :
    (c : Condition) (cs : List Condition) (status : ConditionStatus) (last next : ConditionType)
    (now : ℕ)
    → (b : Condition) × (bs : List Condition) × (next_conditions (c ∷ cs) status last next now
        ≡ b ∷ bs)
unfolding next_conditions
next_conditions-cons c cs is_true last next now = append-cons _ (started next now)
next_conditions-cons c cs is_false last next now = (c, cs, refl)
next_conditions-cons c cs is_unknown last next now = (c, cs, refl)

-- There is always a condition to write to.
generate_conditions-cons :
    (cs : List Condition) (next : ConditionType) (now : ℕ)
    → (b : Condition) × (bs : List Condition) × (generate_conditions cs next now ≡ b ∷ bs)
unfolding generate_conditions
generate_conditions-cons [] next now = (started next now, [], refl)
generate_conditions-cons (c ∷ cs) next now = elim (Option-cases (last? (c ∷ cs))) [
  | inl e ↦ rw (e, generate_conditions) (append-cons (c ∷ cs) (started next now))
  | inr (l, e) ↦ rw (e, generate_conditions) (next_conditions-cons c cs l.status l.type next now)
]

-- What the handlers rely on in a provider: its methods leave the conditions of the status alone.
pub record Frames {W X : Type 0} (p : ClusterProvider W X) : Type 0 where
  pub before_create : Keeps p.before_create
  pub create : Keeps p.create
  pub after_create : Keeps p.after_create
  pub before_update : Keeps p.before_update
  pub update : Keeps p.update
  pub after_update : Keeps p.after_update
  pub status :
      (config : ClientConfig) (c : Cluster X) (s : Status) (e : Option Error) (w w' : W)
      → p.status config c w ≡ some ((s, e), w')
      → s.conditions ≡ c.status.conditions

module _ {W X : Type 0} where
  chain-Ends :
      (cs : List Condition) (h₁ h₂ h₃ : Hook W X) (clock : W → ℕ)
      → (b : Condition) × (bs : List Condition) × (cs ≡ b ∷ bs)
      → Keeps h₁
      → Keeps h₂
      → Keeps h₃
      → let i = length cs - 1 in
        Ends cs (try_hook i h₁ (try_hook i h₂ (try_hook i h₃ (finish i clock))))
  chain-Ends cs h₁ h₂ h₃ clock (b, bs, e) k₁ k₂ k₃ = rw e (
      subst (λ i. Ends (b ∷ bs) (try_hook i h₁ (try_hook i h₂ (try_hook i h₃ (finish i clock)))))
        index
        (try_hook-Ends b bs h₁ _ k₁
          (try_hook-Ends b bs h₂ _ k₂ (try_hook-Ends b bs h₃ _ k₃ (finish-Ends b bs clock)))))
    where
      index : length bs ≡ length (b ∷ bs) - 1
      index = omega arith

  pub create-Outcome :
      (env : Env W X) (p : ClusterProvider W X) (c c' : Cluster X) (e : Option Error) (w w' : W)
      → Frames p
      → handle_cluster_create env c p w ≡ some ((c', e), w')
      → Outcome
          (generate_conditions c.status.conditions ConditionType.create (env.now w))
          c'.status.conditions
          e
  unfolding handle_cluster_create
  create-Outcome env p c c' e w w' f r =
      chain-Ends _ p.before_create p.create p.after_create env.now
        (generate_conditions-cons c.status.conditions ConditionType.create (env.now w))
        f.before_create f.create f.after_create _ c' e w w' refl r

  pub update-Outcome :
      (env : Env W X) (p : ClusterProvider W X) (c c' : Cluster X) (e : Option Error) (w w' : W)
      → Frames p
      → handle_cluster_update env c p w ≡ some ((c', e), w')
      → Outcome
          (generate_conditions c.status.conditions ConditionType.update (env.now w))
          c'.status.conditions
          e
  unfolding handle_cluster_update
  update-Outcome env p c c' e w w' f r =
      chain-Ends _ p.before_update p.update p.after_update env.now
        (generate_conditions-cons c.status.conditions ConditionType.update (env.now w))
        f.before_update f.update f.after_update _ c' e w w' refl r
