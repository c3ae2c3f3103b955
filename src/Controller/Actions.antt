-- ===== src/Controller/Actions.antt =====
-- The conditions of a cluster when the controller chooses an action, and when the action is over.
use kstone.Base.{
  ℕ, ◌≡◌, ◌≢◌, refl, ◌⊎◌, inl, inr, Bool, Option, none, some, List, [], ◌∷◌, last?, arith,
  Option-cases, subst,
}
use kstone.Base.Effect.{Error, pure, >>=-eq-some}
use kstone.Api.{
  Phase, ConditionType, ConditionStatus, is_true, is_false, is_unknown, Condition, Cluster,
}
use kstone.Interfaces.{ClusterProvider}
use kstone.Controller.{unfinished, compared, choose, generate_conditions, get_desired_action}
use kstone.Controller.Conditions.{Outcome}

abbrev pub IsLifecycle : List Condition → Type 0
IsLifecycle [] = Unit {0}
IsLifecycle (c ∷ []) = (c.type ≡ ConditionType.create) × (c.status ≢ is_unknown)
IsLifecycle (c ∷ d ∷ []) =
    (c.type ≡ ConditionType.create)
    × (c.status ≡ is_true)
    × (d.type ≡ ConditionType.update)
    × (d.status ≢ is_unknown)
IsLifecycle (c ∷ d ∷ b ∷ cs) = ⊥

-- What the conditions are when the controller chooses an action.
abbrev pub Allows : List Condition → Phase → Type 0
Allows cs Phase.creating =
    (last? cs ≡ none)
    ⊎ ((l : Condition) × (last? cs ≡ some l)
        × (l.type ≡ ConditionType.create)
        × (l.status ≡ is_false))
Allows cs Phase.updating =
    (l : Condition) × (last? cs ≡ some l)
    × ((l.type ≡ ConditionType.create) × (l.status ≡ is_false) → ⊥)
Allows cs _ = Unit {0}

unfinished-Allows :
    (cs : List Condition) (l : Condition) (type : ConditionType) (status : ConditionStatus)
    (action : Phase)
    → last? cs ≡ some l
    → l.type ≡ type
    → l.status ≡ status
    → unfinished type status ≡ some action
    → Allows cs action
unfolding unfinished
unfinished-Allows cs l type status Phase.creating h t s u = inr (l, h, ground arith, ground arith)
unfinished-Allows cs l type status Phase.updating h t s u = (l, h, λ k. ground arith)
unfinished-Allows cs l type status _ h t s u = tt

compared-Allows :
    (cs : List Condition) (l : Condition) (equal : Bool) (e : Option Error) (action : Phase)
    → last? cs ≡ some l
    → unfinished l.type l.status ≡ none
    → compared (equal, e) ≡ (action, none)
    → Allows cs action
unfolding compared unfinished
compared-Allows cs l equal e Phase.creating h u k = ground arith
compared-Allows cs l equal e Phase.updating h u k = (l, h, λ m. ground arith)
compared-Allows cs l equal e _ h u k = tt

module _ {W X : Type 0} (p : ClusterProvider W X) where
  pub get_desired_action-Allows :
      (c : Cluster X) (action : Phase) (w w' : W)
      → get_desired_action p c w ≡ some ((action, none), w')
      → Allows c.status.conditions action
  unfolding get_desired_action choose
  get_desired_action-Allows c action w w' r = elim (Option-cases (last? c.status.conditions)) [
    | inl h ↦ new h (rw (h, get_desired_action) at r)
    | inr (l, h) ↦ old l h (rw (h, get_desired_action) at r)
  ]
    where
      new :
          last? c.status.conditions ≡ none
          → pure {W = W} {A = Phase × Option Error} (Phase.creating, none) w
            ≡ some ((action, none), w')
          → Allows c.status.conditions action
      new h q =
          let k : Phase.creating ≡ action = ground arith in
          subst (Allows c.status.conditions) k (inl h)

      chosen :
          (l : Condition) (u : Option Phase)
          → last? c.status.conditions ≡ some l
          → unfinished l.type l.status ≡ u
          → choose p c u w ≡ some ((action, none), w')
          → Allows c.status.conditions action
      chosen l (some a) h k q =
          unfinished-Allows c.status.conditions l l.type l.status action h refl refl (ground arith)
      chosen l none h k q =
          let ((equal, e), w₁, m, n) = >>=-eq-some (λ r. pure (compared r)) (p.equal c) w q in
          compared-Allows c.status.conditions l equal e action h k (ground arith)

      old :
          (l : Condition)
          → last? c.status.conditions ≡ some l
          → choose p c (unfinished l.type l.status) w ≡ some ((action, none), w')
          → Allows c.status.conditions action
      old l h q = chosen l (unfinished l.type l.status) h refl q

pub create-IsLifecycle :
    (cs ds : List Condition) (now : ℕ) (e : Option Error)
    → IsLifecycle cs
    → Allows cs Phase.creating
    → Outcome (generate_conditions cs ConditionType.create now) ds e
    → IsLifecycle ds
unfolding generate_conditions
create-IsLifecycle [] ds now e v a (inl (_, (t, h))) = rw h (refl, λ u. cc)
create-IsLifecycle [] ds now e v a (inr (x, _, h)) = rw h (refl, λ u. cc)
create-IsLifecycle (c ∷ []) ds now e v a o = ground arith
create-IsLifecycle (c ∷ d ∷ []) ds now e v a o = ground arith
create-IsLifecycle (c ∷ d ∷ b ∷ cs) ds now e v a o = absurd v

pub update-IsLifecycle :
    (cs ds : List Condition) (now : ℕ) (e : Option Error)
    → IsLifecycle cs
    → Allows cs Phase.updating
    → Outcome (generate_conditions cs ConditionType.update now) ds e
    → IsLifecycle ds
unfolding generate_conditions
update-IsLifecycle [] ds now e v a o = ground arith
update-IsLifecycle (c ∷ []) ds now e v a o = ground arith
update-IsLifecycle (c ∷ d ∷ []) ds now e v a o = ground arith
update-IsLifecycle (c ∷ d ∷ b ∷ cs) ds now e v a o = absurd v
