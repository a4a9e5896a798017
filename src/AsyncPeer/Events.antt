-- ===== src/AsyncPeer/Events.antt =====
-- `_ThreadsafeEvent` of src/raknet/asyncio.py: the pump thread sets the event through a callback of
-- the event loop. Each callback is one step of the loop.
use raknet_python.Prelude.{
  ℕ, zero, suc, ◌≡◌, ◌∙◌, refl, Bool, true, false, ◌||◌, List, [], ◌∷◌, if◌then◌else◌,
}

pub record Event : Type 0 where
  -- `self._event.is_set()`
  pub is_set : Bool
  -- How many calls of `self._event.set` the loop has still to run.
  pub scheduled : ℕ
  pub loop_closed : Bool

-- `_ThreadsafeEvent(loop)`, on a loop that runs.
unfoldable pub new_event : Event
new_event = record { is_set = false; scheduled = 0; loop_closed = false }

-- `set`; the `RuntimeError` of a closed loop is passed over.
unfoldable pub set : Event → Event
set self = if self.loop_closed then self else record self { scheduled = suc self.scheduled }

-- The loop runs its next callback, `self._event.set`.
unfoldable pub run_next : Event → Event
run_next self = elim self.scheduled [
  | zero ↦ self
  | suc scheduled ↦ record self { is_set = true; scheduled = scheduled }
]

-- `wait` is over.
unfoldable pub is_over : Event → Bool
is_over self = self.is_set

-- What the threads do with an event: one sets it, the loop runs its next callback, or the loop is
-- closed and runs no more.
pub data Move : Type 0 where
  setting running closing : Move

abbrev pub move : Move → Event → Event
move setting self = set self
move running self = if self.loop_closed then self else run_next self
move closing self = record self { loop_closed = true }

abbrev pub moves : List Move → Event → Event
moves [] self = self
moves (m ∷ more) self = moves more (move m self)

-- The loop runs another callback before it is closed.
abbrev is_run : List Move → Bool
is_run [] = false
is_run (closing ∷ more) = false
is_run (running ∷ more) = true
is_run (setting ∷ more) = is_run more

-- Some thread sets the event, and then the loop runs a callback before it is closed.
abbrev pub is_served : List Move → Bool
is_served [] = false
is_served (closing ∷ more) = false
is_served (running ∷ more) = is_served more
is_served (setting ∷ more) = is_run more

-- The same for an event that so many callbacks are on their way to.
abbrev is_due : ℕ → List Move → Bool
is_due zero plan = is_served plan
is_due (suc n) plan = is_run plan

moves-closed :
    (plan : List Move) (b : Bool) (n : ℕ)
    → is_over (moves plan (record { is_set = b; scheduled = n; loop_closed = true })) ≡ b
unfolding set is_over
moves-closed [] b n = refl
moves-closed (setting ∷ more) b n = moves-closed more b n
moves-closed (running ∷ more) b n = moves-closed more b n
moves-closed (closing ∷ more) b n = moves-closed more b n

or_false : (b : Bool) → b ≡ (b || false)
or_false true = refl
or_false false = refl

or_true : (b : Bool) → true ≡ (b || true)
or_true true = refl
or_true false = refl

moves-is_due :
    (plan : List Move) (b : Bool) (n : ℕ)
    → is_over (moves plan (record { is_set = b; scheduled = n; loop_closed = false }))
      ≡ (b || is_due n plan)
unfolding set run_next is_over
moves-is_due [] b zero = or_false b
moves-is_due [] b (suc n) = or_false b
moves-is_due (setting ∷ more) b zero = moves-is_due more b (suc zero)
moves-is_due (setting ∷ more) b (suc n) = moves-is_due more b (suc (suc n))
moves-is_due (running ∷ more) b zero = moves-is_due more b zero
moves-is_due (running ∷ more) b (suc n) = moves-is_due more true n ∙ or_true b
moves-is_due (closing ∷ more) b zero = moves-closed more b zero ∙ or_false b
moves-is_due (closing ∷ more) b (suc n) = moves-closed more b (suc n) ∙ or_false b

-- A `wait` on a new event is over exactly if some thread has set the event, and the loop has run a
-- callback after that, before it was closed.
pub moves-is_served : (plan : List Move) → is_over (moves plan new_event) ≡ is_served plan
unfolding new_event
moves-is_served plan = moves-is_due plan false zero
