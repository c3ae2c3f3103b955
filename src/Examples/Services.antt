-- ===== src/Examples/Services.antt =====
-- The theorems on inspection tasks and on the secrets of etcd clients at concrete inputs.
use kstone.Base.{
  ℕ, suc, ◌+◌, ◌==◌, all, any, ◌≡◌, refl, ap, Bool, true, false, Option, none, some, [], ◌∷◌,
  if◌then◌else◌, get_or,
}
use kstone.Base.Text.{Text, text, text_eq, text_eq_refl}
use kstone.Base.Split.{is_free}
use kstone.Base.Dict.{Dict, find, lookup}
use kstone.Base.Effect.{Error, Reason, pure}
use kstone.Api.{Inspection}
use kstone.Interfaces.{FeatureProvider, Result, ok, err}
use kstone.Controller.{cert_name}
use kstone.FeatureGate.{is_feature_gate_enabled}
use kstone.Inspection.{init_task, Inspections, is_ok, is_not_found, equal, sync}
use kstone.Inspection.Consistency.{spread, between, spread-bounds}
use kstone.Inspection.Converge.{InspectionLaws, sync-equal}
use kstone.ClientSecret.{secret_ref}
use kstone.ClientSecret.Reference.{created-secret_ref}
use kstone.Operator.{created_annotations}
use kstone.Registry.{Factories}
use kstone.WorkQueue.{Queue}
use kstone.WorkQueue.Outcome.{QueueLaws}
use kstone.InspectionController.{InspectionEnv}
use kstone.Examples.{cluster}

-- A server with room for one task.
abbrev Room : Type 0
Room = Option Inspection

abbrev missing : Error
missing = record { reason = Reason.not_found; message = text "not found" }

abbrev is_at : Text → Text → Inspection → Bool
is_at namespace name i = if text_eq i.namespace namespace then text_eq i.name name else false

abbrev answer : Bool → Inspection → Result Inspection
answer true i = ok i
answer false i = err missing

abbrev read_room : Text → Text → Room → Result Inspection
read_room namespace name none = err missing
read_room namespace name (some i) = answer (is_at namespace name i) i

-- A creation takes the room, and a deletion clears it.
abbrev api : Inspections Room ℕ
api = record {
  get = λ namespace name w. some (read_room namespace name w, w);
  delete = λ namespace name w. some (none, none);
  create = λ i w. some (none, some i);
  now = λ w. 5;
  set_owner_reference = λ c i. ok (record i { owner = some c.name });
}

is_at_refl : (i : Inspection) → is_at i.namespace i.name i ≡ true
is_at_refl i = rw (text_eq_refl i.namespace) (text_eq_refl i.name)

api-InspectionLaws : InspectionLaws api
unfolding is_ok is_not_found
api-InspectionLaws = record {
  created = λ i e w w' h n. (
    ok i,
    some i,
    (let a : w' ≡ some i = cc in rw a (ap (λ b. some (answer b i, some i)) (is_at_refl i))),
    refl,
  );
  deleted =
      λ namespace name e w w' h n. (err missing, none, (let a : w' ≡ none = cc in rw a refl), refl);
  owned = λ c i j h. (cc, cc);
}

sync-equal_example : (w₁ : Room) × (equal api cluster (text "healthy") none ≡ some (true, w₁))
unfolding sync is_feature_gate_enabled lookup text_eq
sync-equal_example = sync-equal api-InspectionLaws cluster (text "healthy") none none refl

abbrev annotations : Dict Text
annotations = (text "scheme", text "https") ∷ []

created-secret_ref_example :
    secret_ref
      (text "ns/c")
      (get_or (find cert_name (some (created_annotations cluster annotations))) [])
    ≡ ok (text "ns", text "c-etcd-client-cert")
unfolding is_free lookup text_eq
created-secret_ref_example = created-secret_ref cluster annotations refl refl refl

abbrev healthy : FeatureProvider ℕ ℕ
healthy = record {
  equal = λ c. pure true;
  sync = λ c. pure (c, none);
  perform = λ i. pure (some missing);
}

abbrev task : Inspection
task = init_task cluster (text "healthy") 5

abbrev factories : Factories ℕ ℕ (FeatureProvider ℕ ℕ)
factories = (text "healthy", λ context. pure (ok healthy)) ∷ []

-- The world counts the failures of the only key.
abbrev counter : Queue ℕ ℕ
counter = record {
  get = pure none;
  done = λ i. pure tt;
  forget = λ i n. some (tt, 0);
  add_rate_limited = λ i n. some (tt, suc n);
}

counter-QueueLaws : QueueLaws counter (λ n i. n) (λ n i. false)
counter-QueueLaws = record {
  forget = λ i n. (0, refl, refl);
  add_rate_limited = λ i n. (suc n, refl, refl);
  done = λ i n. (n, refl, refl, refl);
}

abbrev inspections : InspectionEnv ℕ ℕ ℕ
inspections = record {
  split_key = λ k. some (text "ns", text "c-healthy");
  get = λ namespace name. pure (ok task);
  features = factories;
  context = 0;
}

spread-bounds_example :
    (d lo : ℕ) × (spread (7 ∷ 3 ∷ 9 ∷ []) ≡ some d)
    × (all (between lo (lo + d)) (7 ∷ 3 ∷ 9 ∷ []) ≡ true)
    × (any (λ z. z == lo) (7 ∷ 3 ∷ 9 ∷ []) ≡ true)
    × (any (λ z. z == (lo + d)) (7 ∷ 3 ∷ 9 ∷ []) ≡ true)
spread-bounds_example = spread-bounds 7 (3 ∷ 9 ∷ [])
