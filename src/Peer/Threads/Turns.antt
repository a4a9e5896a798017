-- ===== src/Peer/Threads/Turns.antt =====
-- The turns that the threads of src/raknet/_peer.py take, in any order.
use raknet_python.Prelude.{ℕ, List, [], ◌∷◌, ◌++◌, ◌<◌, ◌≡◌, ◌==◌, nat_eq, if◌then◌else◌}
use raknet_python.Raw.Interface.{RakNet}
use raknet_python.Peer.{Peer}
use raknet_python.Peer.Threads.{
  Block, comes, succeeds, fails, delivers, leaves, pongs, enters_connect, withdraws_connect,
  enters_ping, withdraws_ping, accepts, takes, owns, disconnects, closes, calls, queues, commits,
  attaches, blames, wakes_connect, wakes_ping, puts, pops, flags, hangs_up, drops, seals,
  closes_owner, answers, shuts_down,
}
use raknet_python.Peer.Threads.Exec.{exec}

module _ {R : RakNet} where
  -- The blocks that a program starts with. A connection that is closed has been made.
  abbrev pub Starts : Peer R → Block R → Type 0
  Starts self (disconnects r notify) = r < self.connection_at.next
  Starts self (queues entry) = ⊥
  Starts self (commits address guid pending) = ⊥
  Starts self (attaches pending r) = ⊥
  Starts self (blames pending reason) = ⊥
  Starts self (wakes_connect pending) = ⊥
  Starts self (wakes_ping pending) = ⊥
  Starts self (puts r bytes) = ⊥
  Starts self (pops r notify exc) = ⊥
  Starts self (flags r notify exc) = ⊥
  Starts self (hangs_up r notify) = ⊥
  Starts self (drops guid notify) = ⊥
  Starts self (seals r exc) = ⊥
  Starts self (closes_owner r) = ⊥
  Starts self (answers pending address guid bytes) = ⊥
  Starts self (shuts_down ms) = ⊥
  Starts self (comes address guid) = Unit
  Starts self (succeeds address guid) = Unit
  Starts self (fails address reason) = Unit
  Starts self (delivers guid bytes) = Unit
  Starts self (leaves guid graceful) = Unit
  Starts self (pongs address guid bytes) = Unit
  Starts self (enters_connect key) = Unit
  Starts self (withdraws_connect key) = Unit
  Starts self (enters_ping key) = Unit
  Starts self (withdraws_ping key) = Unit
  Starts self accepts = Unit
  Starts self (takes r) = Unit
  Starts self (owns r) = Unit
  Starts self (closes ms exc) = Unit
  Starts self (calls raw) = Unit

-- A peer, and what each thread has still to do.
pub record Threads (R : RakNet) : Type 0 where
  pub peer : Peer R
  pub program : ℕ → List (Block R)

module _ {R : RakNet} where
  abbrev pub reprogram : ℕ → List (Block R) → (ℕ → List (Block R)) → ℕ → List (Block R)
  reprogram i blocks program j = if i == j then blocks else program j

  -- A thread begins a program, or runs the next block of its own.
  pub data Turn (s : Threads R) : Threads R → Type 0 where
    begins :
        (i : ℕ) (b : Block R)
        → s.program i ≡ []
        → Starts s.peer b
        → Turn s (record s { program = reprogram i (b ∷ []) s.program })
    runs :
        (i now : ℕ) (b : Block R) (rest : List (Block R))
        → s.program i ≡ b ∷ rest
        → Turn s (record {
          peer = (exec R now b s.peer).1;
          program = reprogram i ((exec R now b s.peer).0 ++ rest) s.program;
        })

  pub data Interleaved (s : Threads R) : Threads R → Type 0 where
    start : Interleaved s s
    later : {t u : Threads R} → Interleaved s t → Turn t u → Interleaved s u
