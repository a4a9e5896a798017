-- ===== src/AsyncMailbox.antt =====
-- `_AsyncMailbox` of src/raknet/asyncio.py, with the callbacks that other threads have handed to
-- its event loop by `call_soon_threadsafe` and that the loop has not run yet.
pub mod Counts
pub mod Order
pub mod Phases
pub mod Simulation
pub mod Refines
use raknet_python.Prelude.{
  ℕ, ◌+◌, ◌-◌, Bool, true, false, Option, none, some, List, [], ◌∷◌, ◌++◌, leb, if◌then◌else◌,
}
use raknet_python.Raw.Interface.{Bytes}
use raknet_python.Exceptions.{ConnectionClosed}

pub data Callback : Type 0 where
  puts : Bytes → Callback
  closes : ConnectionClosed → Callback

-- `none` in the queue is the mark `_CLOSED`.
pub record AsyncMailbox : Type 0 where
  pub queue : List (Option Bytes)
  pub exc : Option ConnectionClosed
  pub drained : Bool
  pub maxsize : Option ℕ
  pub size : ℕ
  pub scheduled : List Callback
  pub loop_closed : Bool

-- `_AsyncMailbox(loop, maxsize)` on a loop that runs.
unfoldable pub empty : Option ℕ → AsyncMailbox
empty maxsize = record {
  queue = [];
  exc = none;
  drained = false;
  maxsize = maxsize;
  size = 0;
  scheduled = [];
  loop_closed = false;
}

-- `call_soon_threadsafe`, whose `RuntimeError` on a closed loop is passed over.
unfoldable pub call_soon : Callback → AsyncMailbox → AsyncMailbox
call_soon callback self =
    if self.loop_closed then self else record self { scheduled = self.scheduled ++ callback ∷ [] }

unfoldable pub is_full : AsyncMailbox → Bool
is_full self = elim self.maxsize [ none ↦ false | some n ↦ leb n self.size ]

unfoldable pub put : AsyncMailbox → Bytes → Bool × AsyncMailbox
unfolding is_full call_soon
put self item =
    if is_full self
    then (false, self)
    else (true, call_soon (puts item) (record self { size = self.size + 1 }))

unfoldable pub close : AsyncMailbox → ConnectionClosed → AsyncMailbox
unfolding call_soon
close self exc = call_soon (closes exc) self

-- A callback, run by the loop.
unfoldable pub run_callback : Callback → AsyncMailbox → AsyncMailbox
run_callback (puts item) self = record self { queue = self.queue ++ some item ∷ [] }
run_callback (closes exc) self = elim self.exc [
  | none ↦ record self { exc = some exc; queue = self.queue ++ none ∷ [] }
  | some first ↦ self
]

-- The loop runs the callback that was handed to it first.
unfoldable pub run_next : AsyncMailbox → AsyncMailbox
unfolding run_callback
run_next self = elim self.scheduled [
  | [] ↦ self
  | callback ∷ scheduled ↦ run_callback callback (record self { scheduled = scheduled })
]

-- `suspended` is an `await` that goes on; `raised` holds what `raise self._exc` raises.
pub data Outcome : Type 0 where
  received : Bytes → Outcome
  raised : Option ConnectionClosed → Outcome
  suspended : Outcome

-- The end of `await self._queue.get()` and what follows it.
unfoldable pub take_next : AsyncMailbox → Outcome × AsyncMailbox
take_next self = elim self.queue [
  | [] ↦ (suspended, self)
  | none ∷ queue ↦ (raised self.exc, record self { drained = true; queue = queue ++ none ∷ [] })
  | some item ∷ queue ↦ (received item, record self { size = self.size - 1; queue = queue })
]

unfoldable pub get : AsyncMailbox → Outcome × AsyncMailbox
unfolding take_next
get self = if self.drained then (raised self.exc, self) else take_next self
