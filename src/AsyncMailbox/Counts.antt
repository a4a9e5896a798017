-- ===== src/AsyncMailbox/Counts.antt =====
-- The count that the limit of a mailbox of the event loop is tested against.
use raknet_python.Prelude.{
  ℕ, suc, ◌+◌, ◌-◌, ◌≤◌, ◌≡◌, refl, sym, subst, Bool, true, false, Option, none, some, List, [],
  ◌∷◌, ◌++◌, arith, leb, Bool-cases, inl, inr,
}
use raknet_python.Raw.Interface.{Bytes}
use raknet_python.Exceptions.{ConnectionClosed}
use raknet_python.AsyncMailbox.{
  AsyncMailbox, Callback, puts, closes, put, close, call_soon, run_callback, run_next, take_next,
  get, is_full, empty,
}

-- How many messages a queue holds, and how many the callbacks will put there.
abbrev pub queued : List (Option Bytes) → ℕ
queued [] = 0
queued (none ∷ queue) = queued queue
queued (some item ∷ queue) = suc (queued queue)

abbrev on_the_way : List Callback → ℕ
on_the_way [] = 0
on_the_way (puts item ∷ scheduled) = suc (on_the_way scheduled)
on_the_way (closes exc ∷ scheduled) = on_the_way scheduled

-- What the threads and the loop do with a mailbox.
pub data Move : Type 0 where
  putting : Bytes → Move
  closing : ConnectionClosed → Move
  running getting : Move

abbrev pub move : AsyncMailbox → Move → AsyncMailbox
move self (putting item) = (put self item).1
move self (closing exc) = close self exc
move self running = run_next self
move self getting = (get self).1

pub moves : AsyncMailbox → List Move → AsyncMailbox
moves self [] = self
moves self (m ∷ ms) = moves (move self m) ms

-- On an open loop, `_size` is the number of the messages in the queue and on the way to it, and is
-- within the limit.
abbrev Within : Option ℕ → ℕ → Type 0
Within none size = Unit {0}
Within (some n) size = size ≤ n

pub record Counts (self : AsyncMailbox) : Type 0 where
  pub running : self.loop_closed ≡ false
  pub counted : self.size ≡ queued self.queue + on_the_way self.scheduled
  pub within : Within self.maxsize self.size

queued-append : (p q : List (Option Bytes)) → queued (p ++ q) ≡ queued p + queued q
queued-append [] q = omega arith
queued-append (none ∷ p) q = queued-append p q
queued-append (some item ∷ p) q = omega (arith, queued-append p q)

on_the_way-append : (p q : List Callback) → on_the_way (p ++ q) ≡ on_the_way p + on_the_way q
on_the_way-append [] q = omega arith
on_the_way-append (puts item ∷ p) q = omega (arith, on_the_way-append p q)
on_the_way-append (closes exc ∷ p) q = on_the_way-append p q

-- The moves, by what they look at.
put-Counts :
    (self : AsyncMailbox) (cap : Option ℕ) (item : Bytes)
    → Counts (record self { maxsize = cap; loop_closed = false })
    → Counts (put (record self { maxsize = cap; loop_closed = false }) item).1
unfolding put call_soon is_full
put-Counts self none item h = record {
  running = refl;
  counted = omega (arith, h.counted, on_the_way-append self.scheduled (puts item ∷ []));
  within = tt;
}
put-Counts self (some n) item h = elim (Bool-cases (leb n self.size)) [
  | inl full ↦ rw full h
  | inr room ↦ rw room (record {
    running = refl;
    counted = omega (arith, h.counted, on_the_way-append self.scheduled (puts item ∷ []));
    within = ground arith;
  })
]

close-Counts :
    (self : AsyncMailbox) (exc : ConnectionClosed)
    → Counts (record self { loop_closed = false })
    → Counts (close (record self { loop_closed = false }) exc)
unfolding close call_soon
close-Counts self exc h = record {
  running = refl;
  counted = omega (arith, h.counted, on_the_way-append self.scheduled (closes exc ∷ []));
  within = h.within;
}

run_next-Counts :
    (self : AsyncMailbox) (scheduled : List Callback) (exc : Option ConnectionClosed)
    → Counts (record self { scheduled = scheduled; exc = exc })
    → Counts (run_next (record self { scheduled = scheduled; exc = exc }))
unfolding run_next run_callback
run_next-Counts self [] exc h = h
run_next-Counts self (puts item ∷ scheduled) exc h = record {
  running = h.running;
  counted = omega (arith, h.counted, queued-append self.queue (some item ∷ []));
  within = h.within;
}
run_next-Counts self (closes e ∷ scheduled) none h = record {
  running = h.running;
  counted = omega (arith, h.counted, queued-append self.queue (none ∷ []));
  within = h.within;
}
run_next-Counts self (closes e ∷ scheduled) (some first) h = record {
  running = h.running;
  counted = h.counted;
  within = h.within;
}

Within-pred : (cap : Option ℕ) (size : ℕ) → Within cap size → Within cap (size - 1)
Within-pred none size h = tt
Within-pred (some n) size h = omega arith

get-Counts :
    (self : AsyncMailbox) (queue : List (Option Bytes)) (drained : Bool)
    → Counts (record self { queue = queue; drained = drained })
    → Counts (get (record self { queue = queue; drained = drained })).1
unfolding get take_next
get-Counts self queue true h = h
get-Counts self [] false h = h
get-Counts self (none ∷ queue) false h = record {
  running = h.running;
  counted = omega (arith, h.counted, queued-append queue (none ∷ []));
  within = h.within;
}
get-Counts self (some item ∷ queue) false h = record {
  running = h.running;
  counted = omega (arith, h.counted);
  within = Within-pred self.maxsize self.size h.within;
}

move-Counts : (self : AsyncMailbox) (m : Move) → Counts self → Counts (move self m)
move-Counts self (putting item) h =
    subst
      (λ b.
        Counts (record self { loop_closed = b })
        → Counts (put (record self { loop_closed = b }) item).1)
      (sym h.running) (put-Counts self self.maxsize item) h
move-Counts self (closing exc) h =
    subst
      (λ b.
        Counts (record self { loop_closed = b })
        → Counts (close (record self { loop_closed = b }) exc))
      (sym h.running) (close-Counts self exc) h
move-Counts self running h = run_next-Counts self self.scheduled self.exc h
move-Counts self getting h = get-Counts self self.queue self.drained h

moves-Counts : (self : AsyncMailbox) (ms : List Move) → Counts self → Counts (moves self ms)
unfolding moves
moves-Counts self [] h = h
moves-Counts self (m ∷ ms) h = moves-Counts (move self m) ms (move-Counts self m h)

-- While the event loop is open, whatever the threads and the loop do with a new mailbox, one whole
-- call at a time, `_size` is the number of the messages that are in the queue or on the way to it,
-- and is never above the limit.
moves-empty : (cap : Option ℕ) (ms : List Move) → Counts (moves (empty cap) ms)
unfolding empty
moves-empty cap ms =
    moves-Counts (empty cap) ms
      (record { running = refl; counted = refl; within = zero_Within cap })
  where
    zero_Within : (cap : Option ℕ) → Within cap 0
    zero_Within none = tt
    zero_Within (some n) = omega arith
