-- ===== src/AsyncMailbox/Refines.antt =====
-- A mailbox of the event loop behaves as the synchronous mailbox, but for waits.
use raknet_python.Prelude.{
  ℕ, ◌≡◌, refl, ap, sym, subst, Bool, true, false, not, ◌&&◌, ◌==◌, nat_eq, Option, none, some,
  List, [], ◌∷◌, length, arith,
}
use raknet_python.Exceptions.{ConnectionClosed}
use raknet_python.Mailbox
use raknet_python.Mailbox.{Mailbox}
use raknet_python.AsyncMailbox.{
  AsyncMailbox, Outcome, received, raised, suspended, empty, put, take_next, get,
}
use raknet_python.AsyncMailbox.Counts.{Move, putting, closing, running, getting, move}
use raknet_python.AsyncMailbox.Phases.{
  Phase, opened, ending, marked, spent, async, sync, is_opened, after_close, after_run, after_get,
}
use raknet_python.AsyncMailbox.Simulation.{move-close, move-run, move-get, move-put}

-- What a call returns; a `get` that is suspended counts the callbacks that the loop has not run.
pub data Reply : Type 0 where
  answered : Bool → Reply
  got : Outcome → ℕ → Reply
  done : Reply

abbrev pub reply : AsyncMailbox → Move → Reply
reply self (putting item) = answered (put self item).0
reply self (closing exc) = done
reply self running = done
reply self getting = got (get self).0 (length self.scheduled)

-- The moves, with the replies of a mailbox of the event loop.
pub trace : AsyncMailbox → List Move → List (Move × Reply)
trace self [] = []
trace self (m ∷ ms) = (m, reply self m) ∷ trace (move self m) ms

-- Nothing is put after the first close.
abbrev pub Orderly : Bool → List Move → Type 0
Orderly ended [] = Unit
Orderly ended (putting item ∷ ms) = (ended ≡ false) × Orderly ended ms
Orderly ended (closing exc ∷ ms) = Orderly true ms
Orderly ended (running ∷ ms) = Orderly ended ms
Orderly ended (getting ∷ ms) = Orderly ended ms

-- The synchronous mailbox gives the replies: `put` has the same answer, a message and an exception
-- are what its `get` comes to, and a `get` is suspended only where callbacks are left to be run or
-- the synchronous `get` would wait as well.
abbrev pub Explains : Mailbox → List (Move × Reply) → Type 0
Explains m [] = Unit
Explains m ((putting item, r) ∷ rest) =
    (r ≡ answered (Mailbox.put m item).0) × Explains (Mailbox.put m item).1 rest
Explains m ((closing exc, r) ∷ rest) = Explains (Mailbox.close m exc) rest
Explains m ((running, r) ∷ rest) = Explains m rest
Explains m ((getting, got (received item) n) ∷ rest) =
    ((Mailbox.take_first m).0 ≡ some (Mailbox.received item))
    × Explains (Mailbox.take_first m).1 rest
Explains m ((getting, got (raised none) n) ∷ rest) = ⊥
Explains m ((getting, got (raised (some e)) n) ∷ rest) =
    ((Mailbox.take_first m).0 ≡ some (Mailbox.raised e)) × Explains (Mailbox.take_first m).1 rest
Explains m ((getting, got suspended n) ∷ rest) =
    ((n == 0 && Mailbox.is_ready m) ≡ false) × Explains m rest
Explains m ((getting, answered b) ∷ rest) = ⊥
Explains m ((getting, done) ∷ rest) = ⊥

get-Explains :
    (cap : Option ℕ) (p : Phase) (rest : List (Move × Reply))
    → Explains (sync cap (after_get p)) rest
    → Explains (sync cap p) ((getting, reply (async cap p) getting) ∷ rest)
unfolding get take_next Mailbox.take_first Mailbox.is_ready
get-Explains cap (opened [] []) rest h = (refl, h)
get-Explains cap (opened [] (y ∷ ys)) rest h = (ground arith, h)
get-Explains cap (opened (x ∷ xs) ys) rest h = (refl, h)
get-Explains cap (ending [] [] e es) rest h = (ground arith, h)
get-Explains cap (ending [] (y ∷ ys) e es) rest h = (ground arith, h)
get-Explains cap (ending (x ∷ xs) ys e es) rest h = (refl, h)
get-Explains cap (marked [] e es) rest h = (refl, h)
get-Explains cap (marked (x ∷ xs) e es) rest h = (refl, h)
get-Explains cap (spent e es) rest h = (refl, h)

-- Only a close changes whether a phase is opened.
is_opened-after_get : (p : Phase) → is_opened (after_get p) ≡ is_opened p
is_opened-after_get (opened [] ys) = refl
is_opened-after_get (opened (x ∷ xs) ys) = refl
is_opened-after_get (ending [] ys e es) = refl
is_opened-after_get (ending (x ∷ xs) ys e es) = refl
is_opened-after_get (marked [] e es) = refl
is_opened-after_get (marked (x ∷ xs) e es) = refl
is_opened-after_get (spent e es) = refl

is_opened-after_run : (p : Phase) → is_opened (after_run p) ≡ is_opened p
is_opened-after_run (opened xs []) = refl
is_opened-after_run (opened xs (y ∷ ys)) = refl
is_opened-after_run (ending xs [] e es) = refl
is_opened-after_run (ending xs (y ∷ ys) e es) = refl
is_opened-after_run (marked xs e []) = refl
is_opened-after_run (marked xs e (f ∷ es)) = refl
is_opened-after_run (spent e []) = refl
is_opened-after_run (spent e (f ∷ es)) = refl

is_opened-after_close : (exc : ConnectionClosed) (p : Phase) → is_opened (after_close exc p) ≡ false
is_opened-after_close exc (opened xs ys) = refl
is_opened-after_close exc (ending xs ys e es) = refl
is_opened-after_close exc (marked xs e es) = refl
is_opened-after_close exc (spent e es) = refl

-- A run may be explained from equal states.
Explains-trace :
    {m m' : Mailbox} {a a' : AsyncMailbox} (ms : List Move)
    → m ≡ m'
    → a ≡ a'
    → Explains m' (trace a' ms)
    → Explains m (trace a ms)
Explains-trace {m' = m'} {a = a} ms e f h =
    subst (λ m. Explains m (trace a ms)) (sym e) (subst (λ b. Explains m' (trace b ms)) (sym f) h)

Orderly-not : {b c : Bool} (ms : List Move) → b ≡ c → Orderly (not c) ms → Orderly (not b) ms
Orderly-not ms e h = subst (λ b. Orderly (not b) ms) (sym e) h

phase_refines :
    (cap : Option ℕ) (ms : List Move) (p : Phase)
    → Orderly (not (is_opened p)) ms
    → Explains (sync cap p) (trace (async cap p) ms)
unfolding trace
phase_refines cap [] p h = tt
phase_refines cap (putting item ∷ ms) (opened xs ys) h =
    let (q, still, same, after, mirror) = move-put cap item xs ys in
    (
      ap answered same,
      Explains-trace ms mirror after (phase_refines cap ms q (Orderly-not ms still h.1)),
    )
phase_refines cap (putting item ∷ ms) (ending xs ys e es) h = cc
phase_refines cap (putting item ∷ ms) (marked xs e es) h = cc
phase_refines cap (putting item ∷ ms) (spent e es) h = cc
phase_refines cap (closing exc ∷ ms) p h =
    let (after, mirror) = move-close cap exc p in
    Explains-trace ms mirror after
      (phase_refines cap ms (after_close exc p) (Orderly-not ms (is_opened-after_close exc p) h))
phase_refines cap (running ∷ ms) p h =
    let (after, mirror) = move-run cap p in
    Explains-trace ms mirror after
      (phase_refines cap ms (after_run p) (Orderly-not ms (is_opened-after_run p) h))
phase_refines cap (getting ∷ ms) p h = get-Explains cap p (trace (get (async cap p)).1 ms) (
    Explains-trace ms refl (move-get cap p)
      (phase_refines cap ms (after_get p) (Orderly-not ms (is_opened-after_get p) h)))

-- Whatever threads and loop do with a new mailbox of an open event loop, one call at a time and
-- with nothing put after the first close, its replies are those of the synchronous mailbox: `put`
-- answers alike, `get` gives the same messages and raises the same exception, in the same order. A
-- `get` waits longer than the synchronous one only while callbacks have not been run.
pub trace_refines :
    (cap : Option ℕ) (ms : List Move)
    → Orderly false ms
    → Explains (Mailbox.empty cap) (trace (empty cap) ms)
unfolding empty Mailbox.empty
trace_refines cap ms h = phase_refines cap ms (opened [] []) h
