-- ===== src/Peer/Threads.antt =====
-- The methods and callbacks of `Peer` in src/raknet/_peer.py as the threads interleave them: a
-- thread's program is a list of blocks, and a block is a `with self._lock`, one call of a mailbox, a
-- queue, an event or RakNet, or one test of, or assignment to, a field that another thread may
-- write. Any number of threads runs, also of pump threads, and none is held up by `join`: this
-- allows more than the source does.
pub mod Exec
pub mod Turns
pub mod Fitting
pub mod Moves
pub mod Following
pub mod Safety
pub mod Advance
pub mod Sealing
pub mod Invariant
pub mod Alone
pub mod Callbacks
pub mod Closings
pub mod Coarse
pub mod Reached
pub mod Progress
pub mod Queues
pub mod Settling
use raknet_python.Prelude.{ℕ, Bool, String, Option, none, some, List, [], ◌∷◌, ◌++◌}
use raknet_python.Prelude.Objects.{Ref}
use raknet_python.Raw.Interface.{Bytes, RakNetGuid, RakNet}
use raknet_python.Raw.MessageId.{DefaultMessageIdTypes, id_connection_attempt_failed}
use raknet_python.Exceptions.{ConnectionClosed}
use raknet_python.Peer.Closing.{Collected}

pub data Block (R : RakNet) : Type 0 where
  -- The sink callbacks, by their first blocks.
  comes succeeds : R.SystemAddress → RakNetGuid → Block R
  fails : R.SystemAddress → DefaultMessageIdTypes → Block R
  delivers : RakNetGuid → Bytes → Block R
  leaves : RakNetGuid → (graceful : Bool) → Block R
  pongs : R.SystemAddress → RakNetGuid → Bytes → Block R
  -- The methods, by theirs. `closes` is `_begin_close` in `close` and in `_fail`, and `owns` the end
  -- of `create_connection`.
  enters_connect withdraws_connect enters_ping withdraws_ping : (key : String) → Block R
  accepts : Block R
  takes owns : Ref → Block R
  disconnects : Ref → (notify : Bool) → Block R
  closes : (ms : ℕ) → ConnectionClosed → Block R
  calls : R.RakPeerInterface → Block R
  -- What follows them.
  queues : Option Ref → Block R
  commits : R.SystemAddress → RakNetGuid → (pending : Ref) → Block R
  attaches : (pending r : Ref) → Block R
  blames : (pending : Ref) → DefaultMessageIdTypes → Block R
  wakes_connect wakes_ping : (pending : Ref) → Block R
  puts : Ref → Bytes → Block R
  pops : Ref → (notify : Bool) → ConnectionClosed → Block R
  flags : Ref → (notify : Option Bool) → ConnectionClosed → Block R
  hangs_up : Ref → (notify : Bool) → Block R
  drops : RakNetGuid → (notify : Bool) → Block R
  seals : Ref → ConnectionClosed → Block R
  closes_owner : Ref → Block R
  answers : (pending : Ref) → R.SystemAddress → RakNetGuid → Bytes → Block R
  shuts_down : (ms : ℕ) → Block R

module _ (R : RakNet) where
  -- The loops of `_finish_close`.
  unfoldable pub close_blocks : ConnectionClosed → List Ref → List (Block R)
  close_blocks exc [] = []
  close_blocks exc (r ∷ refs) = flags r none exc ∷ close_blocks exc refs

  unfoldable pub fail_blocks : List Ref → List (Block R)
  fail_blocks [] = []
  fail_blocks (r ∷ refs) =
      blames r id_connection_attempt_failed ∷ wakes_connect r ∷ fail_blocks refs

  unfoldable pub end_blocks : List Ref → List (Block R)
  end_blocks [] = []
  end_blocks (r ∷ refs) = wakes_ping r ∷ end_blocks refs

  unfoldable pub finish_blocks : Collected → ConnectionClosed → List (Block R)
  unfolding close_blocks fail_blocks end_blocks
  finish_blocks state exc =
      close_blocks exc state.connections
      ++ (fail_blocks state.pending_connects
          ++ (end_blocks state.pending_pings ++ queues none ∷ []))

  -- What follows `_begin_close`: nothing where the peer was closed before.
  unfoldable pub after_begin : (ms : ℕ) → ConnectionClosed → Option Collected → List (Block R)
  unfolding finish_blocks
  after_begin ms exc none = []
  after_begin ms exc (some state) = shuts_down ms ∷ finish_blocks state exc

  -- `self._closed = True` of a connection is followed by the call of RakNet, where there is one,
  -- and by the closing of the mailbox.
  unfoldable pub after_flag : Ref → Option Bool → ConnectionClosed → List (Block R)
  after_flag r none exc = seals r exc ∷ []
  after_flag r (some notify) exc = hangs_up r notify ∷ seals r exc ∷ []
