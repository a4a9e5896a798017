-- ===== src/AsyncMailbox/Order.antt =====
-- Messages come out of a closed mailbox of the event loop in order, before the exception.
use native.Mathlib.Nat.{zero-add, suc-add}
use raknet_python.Prelude.{
  ℕ, zero, suc, ◌+◌, ◌-◌, ◌≡◌, ◌∙◌, refl, ap, true, false, Option, none, some, List, [], ◌∷◌, ◌++◌,
  map, replicate, length,
}
use raknet_python.Raw.Interface.{Bytes}
use raknet_python.AsyncMailbox.{AsyncMailbox, Outcome, received, raised, take_next, get}

-- The outcomes of so many calls of `get`, with nothing else at work.
get_times : ℕ → AsyncMailbox → List Outcome
unfolding get
get_times zero self = []
get_times (suc n) self = let (outcome, self') = get self in outcome ∷ get_times n self'

abbrev drained_mailbox : List (Option Bytes) → AsyncMailbox → AsyncMailbox
drained_mailbox queue self = record self { drained = true; queue = queue }

get_times_drained :
    (k : ℕ) (queue : List (Option Bytes)) (self : AsyncMailbox)
    → get_times k (drained_mailbox queue self) ≡ replicate k (raised self.exc)
unfolding get_times
get_times_drained zero queue self = refl
get_times_drained (suc k) queue self = ap (◌∷◌ (raised self.exc)) (get_times_drained k queue self)

get_times_closed :
    (k : ℕ) (queue : List (Option Bytes)) (self : AsyncMailbox)
    → get_times k (record self { drained = false; queue = none ∷ queue })
      ≡ replicate k (raised self.exc)
unfolding get_times take_next
get_times_closed zero queue self = refl
get_times_closed (suc k) queue self =
    ap (◌∷◌ (raised self.exc)) (get_times_drained k (queue ++ none ∷ []) self)

get_times_queue :
    (items : List Bytes) (late : List (Option Bytes)) (k : ℕ) (self : AsyncMailbox)
    → get_times
        (length items + k)
        (record self { drained = false; queue = map some items ++ none ∷ late })
      ≡ map received items ++ replicate k (raised self.exc)
unfolding get_times take_next
get_times_queue [] late k self = rw zero-add (get_times_closed k late self)
get_times_queue (item ∷ items) late k self =
    rw suc-add (
      ap (◌∷◌ (received item))
        (get_times_queue items late k (record self { size = self.size - 1 })))

-- Once the closing mark is in the queue, `get` first hands out the messages before the mark, all of
-- them and in order; every later `get` raises the mailbox's exception, also if messages came in
-- behind the mark, which are never handed out.
get_times_hands_out :
    (self : AsyncMailbox) (items : List Bytes) (late : List (Option Bytes)) (k : ℕ)
    → self.drained ≡ false
    → self.queue ≡ map some items ++ none ∷ late
    → get_times (length items + k) self ≡ map received items ++ replicate k (raised self.exc)
get_times_hands_out self items late k fresh queued =
    ap (λ b. get_times (length items + k) (record self { drained = b })) fresh
    ∙ ap (λ q. get_times (length items + k) (record self { drained = false; queue = q })) queued
    ∙ get_times_queue items late k self
