-- ===== src/Mailbox.antt =====
-- `_Mailbox` of src/raknet/_peer.py: the messages of one connection, under one condition variable.
-- Each `with self._cond` block is one step. A wait is a list of the steps that other threads make
-- meanwhile, with a look at the predicate after each; the list ends where the timeout does.
pub mod Order
pub mod Bounds
pub mod Waiting
use raknet_python.Prelude.{
  ℕ, zero, suc, Bool, true, false, Option, none, some, List, [], ◌∷◌, ◌++◌, length, leb,
  if◌then◌else◌,
}
use raknet_python.Raw.Interface.{Bytes}
use raknet_python.Exceptions.{ConnectionClosed, is_closed_ok}

pub record Mailbox : Type 0 where
  pub items : List Bytes
  pub exc : Option ConnectionClosed
  pub maxsize : Option ℕ

-- `_Mailbox(maxsize)`
unfoldable pub empty : Option ℕ → Mailbox
empty maxsize = record { items = []; exc = none; maxsize = maxsize }

unfoldable pub is_full : Mailbox → Bool
is_full self = elim self.maxsize [ none ↦ false | some n ↦ leb n (length self.items) ]

unfoldable pub put : Mailbox → Bytes → Bool × Mailbox
unfolding is_full
put self item =
    if is_full self then (false, self) else (true, record self { items = self.items ++ item ∷ [] })

unfoldable pub close : Mailbox → ConnectionClosed → Mailbox
close self exc = record self { exc = elim self.exc [ none ↦ some exc | some first ↦ some first ] }

-- The predicate of both waits: `self._items or self._exc is not None`.
unfoldable pub is_ready : Mailbox → Bool
is_ready self = elim self.items [
  | [] ↦ elim self.exc [ none ↦ false | some e ↦ true ]
  | item ∷ items ↦ true
]

-- What another thread does.
pub data Action : Type 0 where
  puts : Bytes → Action
  closes : ConnectionClosed → Action
  takes : Action

-- `blocked` is a wait with no timeout that nobody ends.
pub data Outcome : Type 0 where
  received : Bytes → Outcome
  raised : ConnectionClosed → Outcome
  timed_out blocked : Outcome

-- What follows a wait in `get`; the last case is the `assert`, which `get` never meets.
unfoldable pub take_first : Mailbox → Option Outcome × Mailbox
take_first self = elim self.items [
  | item ∷ items ↦ (some (received item), record self { items = items })
  | [] ↦ elim self.exc [ some e ↦ (some (raised e), self) | none ↦ (none, self) ]
]

unfoldable pub act : Mailbox → Action → Mailbox
unfolding put close take_first
act self (puts item) = (put self item).1
act self (closes exc) = close self exc
act self takes = (take_first self).1

-- `self._cond.wait_for`
unfoldable pub wait_for : List Action → Mailbox → Bool × Mailbox
unfolding is_ready act
wait_for [] self = (is_ready self, self)
wait_for (a ∷ actions) self =
    let rest = wait_for actions (act self a) in if is_ready self then (true, self) else rest

expired : Option ℕ → Outcome
expired none = blocked
expired (some timeout) = timed_out

unfoldable pub after_wait : Option ℕ → Bool × Mailbox → Outcome × Mailbox
unfolding expired take_first
after_wait timeout (false, self) = (expired timeout, self)
after_wait timeout (true, self) = elim (take_first self).0 [
  | none ↦ (blocked, self)
  | some outcome ↦ (outcome, (take_first self).1)
]

-- `get(timeout)`, which is `Connection.recv`.
unfoldable pub get : Option ℕ → List Action → Mailbox → Outcome × Mailbox
unfolding wait_for after_wait
get timeout actions self = after_wait timeout (wait_for actions self)

unfoldable pub poll : List Action → Mailbox → Bool × Mailbox
unfolding wait_for
poll actions self = wait_for actions self

-- How `Connection.__iter__` ends.
pub data IterationEnd : Type 0 where
  stops : IterationEnd
  raises : ConnectionClosed → IterationEnd
  waits : IterationEnd

unfoldable pub at_end : Outcome → IterationEnd
unfolding is_closed_ok
at_end (received item) = waits
at_end (raised e) = if is_closed_ok e then stops else raises e
at_end timed_out = waits
at_end blocked = waits

-- `Connection.__iter__` for at most so many messages, with no other thread at work: what it
-- yields, and how it ends.
unfoldable pub iterate : ℕ → Mailbox → List Bytes × IterationEnd
unfolding get at_end
iterate zero self = ([], waits)
iterate (suc n) self =
    let (outcome, self') = get none [] self in
    let (items, end) = iterate n self' in
    elim outcome [
      | received item ↦ (item ∷ items, end)
      | raised e ↦ ([], at_end (raised e))
      | timed_out ↦ ([], waits)
      | blocked ↦ ([], waits)
    ]
