-- ===== src/Peer.antt =====
-- The state of `Peer` in src/raknet/_peer.py, with the `Connection`, `_PendingConnect` and
-- `_PendingPing` objects that it shares with its callers. An object stands in a store and is held
-- by reference; each `with self._lock` block of the source is one step of the children's functions.
pub mod Tables
pub mod Sink
pub mod Closing
pub mod Connecting
pub mod Pinging
pub mod Accepting
pub mod Pump
pub mod Starting
pub mod Talking
pub mod Calls
pub mod Threads
pub mod Steps
use raknet_python.Prelude.{
  ℕ, Bool, true, false, String, Option, List, [], ◌∷◌, nat_eq, if◌then◌else◌,
}
use raknet_python.Prelude.Int.{pos}
use raknet_python.Prelude.Dict.{Dict}
use raknet_python.Prelude.Objects.{Ref, Objects}
use raknet_python.Raw.Address
use raknet_python.Raw.Enums.{low_priority}
use raknet_python.Raw.Interface.{Bytes, RakNetGuid, RakNet}
use raknet_python.Raw.MessageId.{DefaultMessageIdTypes}
use raknet_python.Raw.Peer as RawPeer
use raknet_python.Exceptions.{ConnectionClosed}
use raknet_python.Mailbox.{Mailbox}
use raknet_python.Mailbox

-- `Pong`. Times are whole units of the monotonic clock.
pub record Pong : Type 0 where
  pub address : String × ℕ
  pub guid : ℕ
  pub payload : Bytes
  pub round_trip_time : ℕ

pub record Connection (SystemAddress : Type 0) : Type 0 where
  pub raw_address : SystemAddress
  pub raw_guid : RakNetGuid
  pub closed : Bool
  pub owns_peer : Bool
  pub mailbox : Mailbox

pub record PendingConnect : Type 0 where
  pub event : Bool
  pub connection : Option Ref
  pub reason : Option DefaultMessageIdTypes

pub record PendingPing : Type 0 where
  pub event : Bool
  pub pong : Option Pong
  pub started : ℕ

-- `None` in the accept queue is the mark that the peer is closed.
pub record Peer (R : RakNet) : Type 0 where
  pub raw : R.RakPeerInterface
  pub closed : Bool
  pub max_queue : Option ℕ
  pub connections : Dict ℕ Ref
  pub pending_connects : Dict String Ref
  pub pending_pings : Dict String Ref
  pub accept_queue : List (Option Ref)
  pub connection_at : Objects (Connection R.SystemAddress)
  pub connect_at : Objects PendingConnect
  pub ping_at : Objects PendingPing

module _ (R : RakNet) where
  open R use {SystemAddress}

  -- `_to_address`
  unfoldable pub to_address : SystemAddress → String × ℕ
  to_address address = (Address.to_string R address false (124 ∷ []), R.get_port address)

  -- `address.to_string(True)`, the key of the tables of pending calls.
  unfoldable pub address_key : SystemAddress → String
  address_key address = Address.to_string R address true (124 ∷ [])

  -- `_pending_key`
  unfoldable pub pending_key : String → ℕ → String
  unfolding address_key
  pending_key ip port = address_key (R.system_address ip port)

  -- `Connection(peer, address, guid)`
  unfoldable pub new_connection : Peer R → SystemAddress → RakNetGuid → Connection SystemAddress
  new_connection self address guid = record {
    raw_address = address;
    raw_guid = guid;
    closed = false;
    owns_peer = false;
    mailbox = Mailbox.empty self.max_queue;
  }

  -- `connection._closed = True` and `connection._mailbox.close(exc)`
  unfoldable pub close_mailbox :
      Connection SystemAddress → ConnectionClosed → Connection SystemAddress
  close_mailbox connection exc = record connection {
    closed = true;
    mailbox = Mailbox.close connection.mailbox exc;
  }

  -- `if not self._closed: self._raw.close_connection(guid, notify)`
  unfoldable pub raw_close : Peer R → RakNetGuid → Bool → R.RakPeerInterface
  raw_close self guid notify =
      if self.closed
      then self.raw
      else RawPeer.close_connection R self.raw (R.of_guid guid) notify (pos 0) low_priority
