-- ===== src/Peer/Sink.antt =====
-- The sink callbacks of `Peer`, which the pump thread runs. `connect_succeeded` holds the lock
-- twice; what lies between is `_pop_pending` and the rest.
pub mod Onward
pub mod Invariant
pub mod Preserved
pub mod Delivery
use raknet_python.Prelude.{
  ℕ, ◌+◌, ◌-◌, Bool, true, none, some, [], ◌∷◌, ◌++◌, if◌then◌else◌, nat_eq, string_eq,
}
use raknet_python.Prelude.Dict.{lookup, insert, erase}
use raknet_python.Prelude.Objects.{Ref, put_at, alloc}
use raknet_python.Raw.Interface.{Bytes, RakNetGuid, RakNet}
use raknet_python.Raw.MessageId.{DefaultMessageIdTypes}
use raknet_python.Exceptions.{ConnectionClosed, closed_ok, closed_error}
use raknet_python.Mailbox
use raknet_python.Peer.{
  PendingPing, Peer, to_address, address_key, new_connection, close_mailbox, raw_close,
}
use raknet_python.Router

module _ (R : RakNet) where
  open R use {SystemAddress}

  -- `self._connections[guid.g] = connection` for a new connection, whose reference is `next`.
  unfoldable pub track : SystemAddress → RakNetGuid → Peer R → Peer R
  unfolding insert new_connection
  track address guid self = record self {
    connection_at = alloc (new_connection R self address guid) self.connection_at;
    connections = insert guid.g self.connection_at.next self.connections;
  }

  unfoldable pub incoming_connection : SystemAddress → RakNetGuid → Peer R → Peer R
  unfolding track
  incoming_connection address guid self = record (track address guid self) {
    accept_queue = self.accept_queue ++ some self.connection_at.next ∷ [];
  }

  -- `_pop_pending(self._pending_connects, address)`, without the result
  unfoldable pub pop_pending_connect : SystemAddress → Peer R → Peer R
  unfolding erase address_key
  pop_pending_connect address self = record self {
    pending_connects = erase (address_key R address) self.pending_connects;
  }

  -- `connect_succeeded` behind `_pop_pending`, which returned `pending`.
  unfoldable pub commit_connect : SystemAddress → RakNetGuid → Ref → Peer R → Peer R
  unfolding track
  commit_connect address guid pending self =
      let p = self.connect_at.at pending in
      record (track address guid self) {
        connect_at =
            put_at pending (record p { connection = some self.connection_at.next; event = true })
              self.connect_at;
      }

  unfoldable pub connect_succeeded : SystemAddress → RakNetGuid → Peer R → Peer R
  unfolding lookup address_key pop_pending_connect commit_connect
  connect_succeeded address guid self =
      elim (lookup (address_key R address) self.pending_connects) [
        | none ↦ pop_pending_connect address self
        | some pending ↦ commit_connect address guid pending (pop_pending_connect address self)
      ]

  -- `pending.reason = reason` and `pending.event.set()`
  unfoldable pub fail_connect : DefaultMessageIdTypes → Ref → Peer R → Peer R
  fail_connect reason pending self =
      let p = self.connect_at.at pending in
      record self {
        connect_at =
            put_at pending (record p { reason = some reason; event = true }) self.connect_at;
      }

  unfoldable pub connect_failed : SystemAddress → DefaultMessageIdTypes → Peer R → Peer R
  unfolding lookup address_key pop_pending_connect fail_connect
  connect_failed address reason self = elim (lookup (address_key R address) self.pending_connects) [
    | none ↦ pop_pending_connect address self
    | some pending ↦ fail_connect reason pending (pop_pending_connect address self)
  ]

  -- `_closed = True` and `_mailbox.close(exc)` for a connection that is tracked no longer.
  unfoldable pub drop_connection : Ref → ConnectionClosed → Peer R → Peer R
  unfolding erase close_mailbox
  drop_connection r exc self =
      let c = self.connection_at.at r in
      record self {
        connections = erase c.raw_guid.g self.connections;
        connection_at = put_at r (close_mailbox R c exc) self.connection_at;
      }

  unfoldable pub overflow : Ref → Peer R → Peer R
  unfolding drop_connection raw_close
  overflow r self = record (drop_connection r (closed_error "receive queue overflow") self) {
    raw = raw_close R self (self.connection_at.at r).raw_guid true;
  }

  -- What `message` does once it has found the connection.
  unfoldable pub put_message : Ref → Bytes → Peer R → Peer R
  unfolding overflow Mailbox.put
  put_message r bytes self =
      let c = self.connection_at.at r in
      let (done, mailbox) = Mailbox.put c.mailbox bytes in
      if done
      then record self {
        connection_at = put_at r (record c { mailbox = mailbox }) self.connection_at;
      }
      else overflow r self

  unfoldable pub message : RakNetGuid → Bytes → Peer R → Peer R
  unfolding lookup put_message
  message guid bytes self = elim (lookup guid.g self.connections) [
    | none ↦ self
    | some r ↦ put_message r bytes self
  ]

  unfoldable pub farewell : Bool → ConnectionClosed
  farewell graceful =
      if graceful then closed_ok "connection closed by remote" else closed_error "connection lost"

  -- `disconnected` pops by the packet's guid.
  unfoldable pub disconnected : RakNetGuid → Bool → Peer R → Peer R
  unfolding lookup erase close_mailbox farewell
  disconnected guid graceful self =
      let popped = record self { connections = erase guid.g self.connections } in
      elim (lookup guid.g self.connections) [
        | none ↦ popped
        | some r ↦ record popped {
          connection_at =
              put_at r (close_mailbox R (self.connection_at.at r) (farewell graceful))
                self.connection_at;
        }
      ]

  -- `now` is `time.monotonic()`.
  unfoldable pub answer_ping : ℕ → SystemAddress → RakNetGuid → Bytes → PendingPing → PendingPing
  unfolding to_address
  answer_ping now address guid bytes p = record p {
    pong = some (record {
      address = to_address R address;
      guid = guid.g;
      payload = bytes;
      round_trip_time = now - p.started;
    });
    event = true;
  }

  unfoldable pub pong : ℕ → SystemAddress → RakNetGuid → Bytes → Peer R → Peer R
  unfolding lookup erase address_key answer_ping
  pong now address guid bytes self =
      let popped = record self {
        pending_pings = erase (address_key R address) self.pending_pings;
      } in
      elim (lookup (address_key R address) self.pending_pings) [
        | none ↦ popped
        | some r ↦ record popped {
          ping_at = put_at r (answer_ping now address guid bytes (self.ping_at.at r)) self.ping_at;
        }
      ]

  -- `Peer` as the router's sink, at a time of the clock.
  abbrev pub sink : ℕ → Router.Sink SystemAddress (Peer R)
  sink now = record {
    incoming_connection = incoming_connection;
    connect_succeeded = connect_succeeded;
    connect_failed = connect_failed;
    message = message;
    disconnected = disconnected;
    pong = pong now;
  }
