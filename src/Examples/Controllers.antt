-- ===== src/Examples/Controllers.antt =====
-- The theorems on the cluster controller and its queue at concrete inputs.
use kstone.Base.{ℕ, suc, ◌≡◌, refl, subst, inl, Bool, true, false, none, some, [], ◌∷◌, arith}
use kstone.Base.Text.{text}
use kstone.Base.Effect.{pure}
use kstone.Api.{Phase, ConditionType, is_true, is_false, Cluster}
use kstone.Interfaces.{leave}
use kstone.Controller.{
  run_action, handle_cluster_management, with_conditions, with_phase, get_desired_action, compared,
}
use kstone.Controller.Conditions.{Frames}
use kstone.Controller.Actions.{IsLifecycle}
use kstone.Controller.Lifecycle.{SoundProviders, management-IsLifecycle}
use kstone.Controller.Retry.{creates, FailedWith, Finished, failure_retried, success_compared}
use kstone.Controller.Reconcile.{set_gate_status, desired_labels, handle_cluster_labels}
use kstone.Controller.Labels.{labels_shared}
use kstone.WorkQueue.{Queue, key, process_work_queue, requeue_error}
use kstone.WorkQueue.Outcome.{QueueLaws, key_settled}
use kstone.Imported.{imported_provider}
use kstone.Imported.Contract.{imported_provider-Frames}
use kstone.Operator.Contract.{same-Keeps, leave-SameStatus}
use kstone.Examples.{members, cluster, boom, env, failing, condition}

sound : SoundProviders env
sound name p w w' h =
    let e : imported_provider members ≡ p = cc in
    subst (λ q. Frames q) e (imported_provider-Frames members)

failing-Frames : Frames failing
failing-Frames = record {
  before_create = same-Keeps leave leave-SameStatus;
  create = same-Keeps leave leave-SameStatus;
  after_create = λ c c' e w w' r. ground arith;
  before_update = same-Keeps leave leave-SameStatus;
  update = same-Keeps leave leave-SameStatus;
  after_update = same-Keeps leave leave-SameStatus;
  status = λ config c s e w w' r. ground arith;
}

abbrev created : Cluster ℕ
created =
    with_phase (with_conditions cluster (condition ConditionType.create is_true 7 7 [] ∷ []))
      Phase.creating

abbrev failed : Cluster ℕ
failed =
    with_phase
      (with_conditions cluster (condition ConditionType.create is_false 7 0 (text "boom") ∷ []))
      Phase.creating

management-IsLifecycle_example : IsLifecycle created.status.conditions
unfolding handle_cluster_management imported_provider
management-IsLifecycle_example = management-IsLifecycle env sound cluster created none 7 8 tt refl

failure_retried_example :
    FailedWith ConditionType.create boom
      (some (condition ConditionType.create is_false 7 0 (text "boom")))
    × (get_desired_action failing failed 9 ≡ some ((Phase.creating, none), 9))
unfolding run_action
failure_retried_example =
    failure_retried env failing failing cluster failed boom 7 7 9 creates failing-Frames tt
      (inl refl) refl

success_compared_example :
    Finished ConditionType.create (some (condition ConditionType.create is_true 7 7 []))
    × (get_desired_action failing created 9 ≡ some ((Phase.running, none), 9))
unfolding run_action imported_provider compared
success_compared_example =
    success_compared env (imported_provider members) failing cluster created 7 7 9 creates
      (imported_provider-Frames members) tt (inl refl) refl

abbrev marked : Cluster ℕ
marked = set_gate_status (text "monitor") (text "disabled") created

abbrev labelled : Cluster ℕ
labelled = record cluster { labels = some ((text "app", text "etcd") ∷ []) }

labels_shared_example :
    handle_cluster_labels env labelled 7
    ≡ some (
      (
        record labelled {
          labels =
              some (desired_labels (text "monitor" ∷ []) labelled ((text "app", text "etcd") ∷ []));
        },
        none,
      ),
      7,
    )
labels_shared_example = labels_shared env labelled ((text "app", text "etcd") ∷ []) 7 refl

-- A queue of one item: whether it is busy, and its failures.
abbrev counted : Queue (Bool × ℕ) ℕ
counted = record {
  get = λ (busy, n). some (some (key (text "ns/c")), (true, n));
  done = λ i (busy, n). some (tt, (false, n));
  forget = λ i (busy, n). some (tt, (busy, 0));
  add_rate_limited = λ i (busy, n). some (tt, (busy, suc n));
}

counted-QueueLaws : QueueLaws counted (λ (busy, n) i. n) (λ (busy, n) i. busy)
counted-QueueLaws = record {
  forget = λ i (busy, n). ((busy, 0), refl, refl);
  add_rate_limited = λ i (busy, n). ((busy, suc n), refl, refl);
  done = λ i (busy, n). ((false, n), refl, refl, refl);
}

key_settled_example :
    (w' : Bool × ℕ) × (process_work_queue counted
        (λ k. pure (some boom))
        (key (text "ns/c"))
        (true, 2)
      ≡ some (some (requeue_error (text "ns/c") boom), w'))
    × (w'.0 ≡ false)
    × (w'.1 ≡ 3)
key_settled_example =
    key_settled counted-QueueLaws (λ k. pure (some boom)) (text "ns/c") (some boom) (true, 2)
      (true, 2) refl
