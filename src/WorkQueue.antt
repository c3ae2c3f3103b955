-- ===== src/WorkQueue.antt =====
-- pkg/controllers/util/util.go, ProcessWorkQueue, and processNextWorkItem of both controllers. The
-- queue is client-go's: its methods are parameters.
pub mod Outcome
use kstone.Base.{Bool, true, false, Option, none, some, ◌++◌}
use kstone.Base.Text.{Text, text}
use kstone.Base.Effect.{Go, Error, new_error, pure, ◌>>=◌, ◌>>◌}

-- An item is an interface value: a key, or a value that is no string.
pub data Item (O : Type 0) : Type 0 where
  key : Text → Item O
  alien : O → Item O

-- `get` returns `none` when the queue is shut down.
pub record Queue (W O : Type 0) : Type 0 where
  pub get : Go W (Option (Item O))
  pub done : Item O → Go W (Unit {0})
  pub forget : Item O → Go W (Unit {0})
  pub add_rate_limited : Item O → Go W (Unit {0})

unfoldable pub requeue_error : Text → Error → Error
requeue_error k e =
    new_error (text "error syncing '" ++ (k ++ (text "': " ++ (e.message ++ text ", requeuing"))))

module _ {W O : Type 0} where
  -- The body, before the deferred `queue.Done(obj)`.
  unfoldable pub process_item :
      Queue W O → (Text → Go W (Option Error)) → Item O → Go W (Option Error)
  unfolding requeue_error
  process_item queue sync_handler (alien o) = do queue.forget (alien o); pure none
  process_item queue sync_handler (key k) = do
    r ← sync_handler k
    elim r [
      | some e ↦ do queue.add_rate_limited (key k); pure (some (requeue_error k e))
      | none ↦ do queue.forget (key k); pure none
    ]

  unfoldable pub process_work_queue :
      Queue W O → (Text → Go W (Option Error)) → Item O → Go W (Option Error)
  unfolding process_item
  process_work_queue queue sync_handler obj = do
    e ← process_item queue sync_handler obj
    queue.done obj
    pure e

  -- The error is only logged; false stops the worker.
  unfoldable pub process_next_work_item : Queue W O → (Text → Go W (Option Error)) → Go W Bool
  unfolding process_work_queue
  process_next_work_item queue sync_handler = do
    r ← queue.get
    elim r [
      | none ↦ pure false
      | some obj ↦ do process_work_queue queue sync_handler obj; pure true
    ]
