-- ===== src/AsyncPeer/AcceptQueue.antt =====
-- `_AsyncAcceptQueue` of src/raknet/asyncio.py: entries are put from the pump thread through a
-- callback of the event loop. Each callback is one step of the loop.
pub mod Order
use raknet_python.Prelude.{Bool, Option, none, some, List, [], ◌∷◌, ◌++◌, if◌then◌else◌}

pub record AcceptQueue (A : Type 0) : Type 0 where
  pub queue : List A
  -- What the loop's pending callbacks will put, in the order in which they were handed over.
  pub scheduled : List A
  pub loop_closed : Bool

module _ {A : Type 0} where
  -- `put`; the `RuntimeError` of a closed loop is passed over.
  unfoldable pub put : AcceptQueue A → A → AcceptQueue A
  put self item =
      if self.loop_closed then self else record self { scheduled = self.scheduled ++ item ∷ [] }

  -- The loop runs its next callback, `self._queue.put_nowait(item)`.
  unfoldable pub run_next : AcceptQueue A → AcceptQueue A
  run_next self = elim self.scheduled [
    | [] ↦ self
    | item ∷ scheduled ↦ record self { queue = self.queue ++ item ∷ []; scheduled = scheduled }
  ]

  -- `get`; `none` is an `await` that goes on.
  unfoldable pub get : AcceptQueue A → Option A × AcceptQueue A
  get self = elim self.queue [
    | [] ↦ (none, self)
    | item ∷ queue ↦ (some item, record self { queue = queue })
  ]
