-- ===== src/Peer/Closing/Late.antt =====
-- A connection that comes in while `close` waits for the pump thread.
use raknet_python.Prelude.{ℕ, ◌≡◌, false, true, none, some, [], ◌∷◌, ◌++◌, arith, nat_eq}
use raknet_python.Prelude.Dict.{values}
use raknet_python.Raw.Interface.{RakNetGuid, RakNet}
use raknet_python.Exceptions.{closed_ok}
use raknet_python.Mailbox
use raknet_python.Peer.{Peer, new_connection}
use raknet_python.Peer.Sink.{incoming_connection, track}
use raknet_python.Peer.Closing.{close, raw_shutdown}
use raknet_python.Peer.Closing.Loops.{has, finish_close_objects, finish_close_tables}
use raknet_python.Peer.Closing.Settled.{collected, emptied, close_open}

module _ (R : RakNet) where
  open R use {SystemAddress}

  -- Where the reference of the next connection is not among those in the table of an open peer, a
  -- connection that the pump thread takes in while `close` waits for that thread is in the accept
  -- queue of the closed peer, before the closing mark, and is left open, with an empty mailbox and
  -- no exception.
  pub close-misses :
      (self : Peer R) (ms : ℕ) (address : SystemAddress) (guid : RakNetGuid)
      → self.closed ≡ false
      → has self.connection_at.next (values self.connections) ≡ false
      → let q = close R (incoming_connection R address guid) ms self in
        let late = q.connection_at.at self.connection_at.next in
        (q.closed ≡ true)
        × (q.accept_queue ≡ (self.accept_queue ++ some self.connection_at.next ∷ []) ++ none ∷ [])
        × (late.closed ≡ false)
        × (late.mailbox.items ≡ [])
        × (late.mailbox.exc ≡ none)
  unfolding incoming_connection track raw_shutdown new_connection Mailbox.empty
  close-misses self ms address guid opened fresh =
      let state = collected R self in
      let during = raw_shutdown R ms (incoming_connection R address guid (emptied R self)) in
      let (shut, _, _, _, queue) = finish_close_tables R state (closed_ok "peer closed") during in
      let (at, _, _) =
        finish_close_objects R state (closed_ok "peer closed") during self.connection_at.next in
      rw (close_open R (incoming_connection R address guid) ms self opened)
        (shut, queue, ground arith, ground arith, ground arith)
