-- ===== src/Peer/Closing.antt =====
-- How a `Peer` and a `Connection` are closed, in src/raknet/_peer.py.
pub mod Loops
pub mod Settled
pub mod Invariant
pub mod Onward
pub mod Late
pub mod Drains
use raknet_python.Prelude.{
  ℕ, Bool, true, Option, none, some, List, [], ◌∷◌, ◌++◌, nat_eq, if◌then◌else◌,
}
use raknet_python.Prelude.Int.{pos}
use raknet_python.Prelude.Dict.{values}
use raknet_python.Prelude.Objects.{Ref, put_at}
use raknet_python.Raw.Enums.{low_priority}
use raknet_python.Raw.Interface.{RakNet}
use raknet_python.Raw.MessageId.{id_connection_attempt_failed}
use raknet_python.Raw.Peer as RawPeer
use raknet_python.Exceptions.{ConnectionClosed, closed_ok}
use raknet_python.Peer.{Connection, Peer, close_mailbox, raw_close}
use raknet_python.Peer.Sink.{drop_connection, fail_connect}

-- What `_begin_close` takes out of the peer's tables.
pub record Collected : Type 0 where
  pub connections : List Ref
  pub pending_connects : List Ref
  pub pending_pings : List Ref

module _ (R : RakNet) where
  unfoldable pub begin_close : Peer R → Option Collected × Peer R
  unfolding values
  begin_close self = if self.closed then (none, self) else (
    some (record {
      connections = values self.connections;
      pending_connects = values self.pending_connects;
      pending_pings = values self.pending_pings;
    }),
    record self { closed = true; connections = []; pending_connects = []; pending_pings = [] },
  )

  -- The three loops of `_finish_close`.
  unfoldable pub close_connections : ConnectionClosed → List Ref → Peer R → Peer R
  unfolding close_mailbox
  close_connections exc [] self = self
  close_connections exc (r ∷ refs) self = close_connections exc refs (record self {
    connection_at = put_at r (close_mailbox R (self.connection_at.at r) exc) self.connection_at;
  })

  unfoldable pub fail_connects : List Ref → Peer R → Peer R
  unfolding fail_connect
  fail_connects [] self = self
  fail_connects (r ∷ refs) self =
      fail_connects refs (fail_connect R id_connection_attempt_failed r self)

  unfoldable pub end_pings : List Ref → Peer R → Peer R
  end_pings [] self = self
  end_pings (r ∷ refs) self = end_pings refs (record self {
    ping_at = put_at r (record (self.ping_at.at r) { event = true }) self.ping_at;
  })

  unfoldable pub finish_close : Collected → ConnectionClosed → Peer R → Peer R
  unfolding close_connections fail_connects end_pings
  finish_close state exc self =
      let settled =
        end_pings state.pending_pings
          (fail_connects state.pending_connects (close_connections exc state.connections self)) in
      record settled { accept_queue = settled.accept_queue ++ none ∷ [] }

  -- `self._raw.shutdown(ms)`
  unfoldable pub raw_shutdown : ℕ → Peer R → Peer R
  raw_shutdown ms self = record self { raw = RawPeer.shutdown R self.raw ms (pos 0) low_priority }

  -- `close`. `pump_rest` is what the pump thread still does until `self._pump.join()` returns.
  unfoldable pub close : (Peer R → Peer R) → ℕ → Peer R → Peer R
  unfolding begin_close finish_close raw_shutdown
  close pump_rest ms self =
      let (state, self') = begin_close self in
      elim state [
        | none ↦ self'
        | some collected ↦
            finish_close collected (closed_ok "peer closed") (raw_shutdown ms (pump_rest self'))
      ]

  -- `_fail`, which the pump thread calls itself; `crash` is the exception that it makes.
  unfoldable pub fail : ConnectionClosed → Peer R → Peer R
  unfolding begin_close finish_close raw_shutdown
  fail crash self =
      let (state, self') = begin_close self in
      elim state [
        | none ↦ self'
        | some collected ↦ finish_close collected crash (raw_shutdown 0 self')
      ]

  -- `Peer._close_connection`
  unfoldable pub close_connection : Ref → Bool → Peer R → Peer R
  unfolding drop_connection raw_close
  close_connection r notify self =
      record (drop_connection R r (closed_ok "connection closed") self) {
        raw = raw_close R self (self.connection_at.at r).raw_guid notify;
      }

  -- `Connection.close`; a connection that owns its peer closes the peer with it.
  unfoldable pub connection_close : (Peer R → Peer R) → Ref → Bool → Peer R → Peer R
  unfolding close_connection close
  connection_close pump_rest r notify self =
      let self' =
        if (self.connection_at.at r).closed then self else close_connection r notify self in
      if (self'.connection_at.at r).owns_peer then close pump_rest 500 self' else self'
