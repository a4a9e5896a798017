-- ===== src/Peer/Threads/Coarse.antt =====
-- The steps of `Peer.Steps` are turns of the threads.
use mathlib.Core.Path.{fun_ext}
use raknet_python.Prelude.{
  ℕ, ◌≡◌, refl, ap, subst, String, Bool, false, List, [], ◌∷◌, ◌++◌, ◌==◌, nat_eq, Bool-cases, inl,
  inr, if◌then◌else◌,
}
use raknet_python.Prelude.Objects.{Ref}
use raknet_python.Raw.Interface.{RakNet}
use raknet_python.Router.Preserves.{Preserves}
use raknet_python.Exceptions.{Result}
use raknet_python.Peer.{Peer}
use raknet_python.Peer.Sink.{sink}
use raknet_python.Peer.Connecting.{enter_connect, register_connect}
use raknet_python.Peer.Pinging.{enter_ping, register_ping}
use raknet_python.Peer.Pump.Keeps.{Kept, pump_round-Kept}
use raknet_python.Peer.Steps.{Step, pumps, registers, withdraws, pings, unpings, Reach, here, next}
use raknet_python.Peer.Steps
use raknet_python.Peer.Threads.{
  Block, comes, succeeds, fails, delivers, leaves, pongs, enters_connect, withdraws_connect,
  enters_ping, withdraws_ping, accepts, takes, disconnects, closes, calls,
}
use raknet_python.Peer.Threads.Exec.{exec}
use raknet_python.Peer.Threads.Turns.{
  Starts, Threads, reprogram, begins, runs, Interleaved, start, later,
}
use raknet_python.Peer.Threads.Alone.{Alone, ends, runs_on, ends-Alone}
use raknet_python.Peer.Threads.Callbacks.{
  comes-Alone, succeeds-Alone, fails-Alone, delivers-Alone, leaves-Alone, pongs-Alone,
}
use raknet_python.Peer.Threads.Closings.{
  closes-Alone, crashes-Alone, disconnects-Alone, accepts-Alone,
}

-- No thread has anything to do.
abbrev pub idle : {R : RakNet} → Peer R → Threads R
idle p = record { peer = p; program = λ i. [] }

module _ {R : RakNet} where
  -- The first thread has something to do.
  abbrev busy : List (Block R) → Peer R → Threads R
  busy blocks p = record { peer = p; program = reprogram 0 blocks (λ i. []) }

  busy_again :
      (blocks old : List (Block R)) (p : Peer R)
      → record (busy old p) { program = reprogram 0 blocks (reprogram 0 old (λ i. [])) }
        ≡ busy blocks p
  busy_again blocks old p =
      ap (λ f. record { peer = p; program = f })
        (fun_ext
          (λ j. elim (Bool-cases (0 == j)) [ inl same ↦ rw same refl | inr other ↦ rw other refl ]))

  busy-nil : (p : Peer R) → busy [] p ≡ idle p
  busy-nil p =
      ap (λ f. record { peer = p; program = f })
        (fun_ext
          (λ j. elim (Bool-cases (0 == j)) [ inl same ↦ rw same refl | inr other ↦ rw other refl ]))

  busy-Interleaved :
      (now : ℕ) (s : Threads R) (blocks : List (Block R)) (p q : Peer R)
      → Alone now blocks p q
      → Interleaved s (busy blocks p)
      → Interleaved s (idle q)
  busy-Interleaved now s [] p q (ends _) path = subst (Interleaved s) (busy-nil p) path
  busy-Interleaved now s (b ∷ rest) p q (runs_on _ _ _ _ h) path = busy-Interleaved now s _ _ q h (
      subst (Interleaved s) (busy_again ((exec R now b p).0 ++ rest) (b ∷ rest) _)
        (later path (runs 0 now b rest refl)))

  -- A program that runs alone, between two moments at which no thread is at work.
  alone-Interleaved :
      (now : ℕ) (s : Threads R) (b : Block R) (p q : Peer R)
      → Starts p b
      → Alone now (b ∷ []) p q
      → Interleaved s (idle p)
      → Interleaved s (idle q)
  alone-Interleaved now s b p q first h path =
      busy-Interleaved now s (b ∷ []) p q h (later path (begins 0 b refl first))

if-false : {X : Type 0} (b : Bool) (x y : X) → b ≡ false → (if b then x else y) ≡ y
if-false b x y e = rw e refl

module _ (R : RakNet) (s : Threads R) where
  callbacks-Interleaved : (now : ℕ) → Preserves (sink R now) (λ p. Interleaved s (idle p))
  callbacks-Interleaved now = record {
    incoming_connection =
        λ a g p h. alone-Interleaved now s (comes a g) p _ tt (comes-Alone R now a g p) h;
    connect_succeeded =
        λ a g p h. alone-Interleaved now s (succeeds a g) p _ tt (succeeds-Alone R now a g p) h;
    connect_failed =
        λ a e p h. alone-Interleaved now s (fails a e) p _ tt (fails-Alone R now a e p) h;
    message =
        λ g b p h. alone-Interleaved now s (delivers g b) p _ tt (delivers-Alone R now g b p) h;
    disconnected =
        λ g b p h. alone-Interleaved now s (leaves g b) p _ tt (leaves-Alone R now g b p) h;
    pong = λ a g b p h. alone-Interleaved now s (pongs a g b) p _ tt (pongs-Alone R now a g b p) h;
  }

  Interleaved-Kept : Kept {R = R} (λ p. Interleaved s (idle p))
  unfolding exec
  Interleaved-Kept = record {
    callbacks = callbacks-Interleaved;
    crashes = λ exc p h. alone-Interleaved 0 s (closes 0 exc) p _ tt (crashes-Alone R 0 exc p) h;
    calls = λ raw p h. alone-Interleaved 0 s (calls raw) p _ tt (runs_on _ _ _ _ (ends _)) h;
  }

  enter_connect-Alone :
      (key : String) (p : Peer R)
      → p.closed ≡ false
      → Alone 0 (enters_connect key ∷ []) p (register_connect R key p)
  unfolding exec enter_connect
  enter_connect-Alone key p opened =
      runs_on _ _ _ _
        (ends-Alone 0 _ _ (ap (λ (o : Result Ref × Peer R). o.1) (if-false p.closed _ _ opened)))

  enter_ping-Alone :
      (now : ℕ) (key : String) (p : Peer R)
      → p.closed ≡ false
      → Alone now (enters_ping key ∷ []) p (register_ping R now key p)
  unfolding exec enter_ping
  enter_ping-Alone now key p opened =
      runs_on _ _ _ _
        (ends-Alone now _ _ (ap (λ (o : Result Ref × Peer R). o.1) (if-false p.closed _ _ opened)))

  Step-Interleaved : {p q : Peer R} → Step R p q → Interleaved s (idle p) → Interleaved s (idle q)
  unfolding exec
  Step-Interleaved (pumps now p) h = pump_round-Kept _ Interleaved-Kept now p h
  Step-Interleaved (registers key p opened) h =
      alone-Interleaved 0 s (enters_connect key) p _ tt (enter_connect-Alone key p opened) h
  Step-Interleaved (withdraws key p) h =
      alone-Interleaved 0 s (withdraws_connect key) p _ tt (runs_on _ _ _ _ (ends _)) h
  Step-Interleaved (pings now key p opened) h =
      alone-Interleaved now s (enters_ping key) p _ tt (enter_ping-Alone now key p opened) h
  Step-Interleaved (unpings key p) h =
      alone-Interleaved 0 s (withdraws_ping key) p _ tt (runs_on _ _ _ _ (ends _)) h
  Step-Interleaved (Steps.calls raw p) h =
      alone-Interleaved 0 s (calls raw) p _ tt (runs_on _ _ _ _ (ends _)) h
  Step-Interleaved (Steps.takes r p) h =
      alone-Interleaved 0 s (takes r) p _ tt (runs_on _ _ _ _ (ends _)) h
  Step-Interleaved (Steps.accepts p) h =
      alone-Interleaved 0 s accepts p _ tt (accepts-Alone R 0 p.accept_queue p) h
  Step-Interleaved (Steps.disconnects r notify p made) h =
      alone-Interleaved 0 s (disconnects r notify) p _ made (disconnects-Alone R 0 r notify p) h
  Step-Interleaved (Steps.closes ms p) h =
      alone-Interleaved 0 s (closes ms _) p _ tt (closes-Alone R 0 ms p) h

-- Each run of the steps of `Peer.Steps`, where a round of the pump, a `close` and the like are one
-- step each, is a run of the threads that take turns block by block, with no thread at work before
-- and after it.
pub Reach-Interleaved : (R : RakNet) (p q : Peer R) → Reach R p q → Interleaved (idle p) (idle q)
Reach-Interleaved R p q here = start
Reach-Interleaved R p q (next before step) =
    Step-Interleaved R (idle p) step (Reach-Interleaved R p _ before)
