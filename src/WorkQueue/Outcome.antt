-- ===== src/WorkQueue/Outcome.antt =====
-- What ProcessWorkQueue leaves in the queue, over client-go's documented behaviour of the queue.
use kstone.Base.{ℕ, suc, ◌≡◌, ◌∙◌, Bool, false, Option, none, some, arith}
use kstone.Base.Text.{Text}
use kstone.Base.Effect.{Go, Error}
use kstone.WorkQueue.{Item, key, Queue, requeue_error, process_work_queue}

-- `failures` is NumRequeues, and `busy` says that an item is being processed. Forget clears the
-- failures of an item, AddRateLimited counts one more, and Done ends its processing.
pub record QueueLaws {W O : Type 0} (queue : Queue W O) (failures : W → Item O → ℕ)
    (busy : W → Item O → Bool) : Type 0 where
  pub forget :
      (i : Item O) (w : W) → (w' : W) × (queue.forget i w ≡ some (tt, w')) × (failures w' i ≡ 0)
  pub add_rate_limited :
      (i : Item O) (w : W)
      → (w' : W) × (queue.add_rate_limited i w ≡ some (tt, w'))
        × (failures w' i ≡ suc (failures w i))
  pub done :
      (i : Item O) (w : W)
      → (w' : W) × (queue.done i w ≡ some (tt, w'))
        × (failures w' i ≡ failures w i)
        × (busy w' i ≡ false)

abbrev pub reported : Text → Option Error → Option Error
reported k none = none
reported k (some e) = some (requeue_error k e)

abbrev pub failures_after : ℕ → Option Error → ℕ
failures_after n none = 0
failures_after n (some e) = suc n

module _ {W O : Type 0} {queue : Queue W O} {failures : W → Item O → ℕ} {busy : W → Item O → Bool}
    (laws : QueueLaws queue failures busy) where
  -- A key whose synchronisation returns is done; its failures are cleared if there was no error,
  -- and otherwise counted up by one, and the error is returned with the key. The queue behaves as
  -- client-go documents.
  pub key_settled :
      (sync_handler : Text → Go W (Option Error)) (k : Text) (r : Option Error) (w w₁ : W)
      → sync_handler k w ≡ some (r, w₁)
      → (w' : W) × (process_work_queue queue sync_handler (key k) w ≡ some (reported k r, w'))
        × (busy w' (key k) ≡ false)
        × (failures w' (key k) ≡ failures_after (failures w₁ (key k)) r)
  unfolding process_work_queue
  key_settled sync_handler k none w w₁ h =
      let (w₂, f, n) = laws.forget (key k) w₁ in
      let (w₃, d, m, b) = laws.done (key k) w₂ in (w₃, ground arith, b, m ∙ n)
  key_settled sync_handler k (some e) w w₁ h =
      let (w₂, f, n) = laws.add_rate_limited (key k) w₁ in
      let (w₃, d, m, b) = laws.done (key k) w₂ in (w₃, ground arith, b, m ∙ n)
