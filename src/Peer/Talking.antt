-- ===== src/Peer/Talking.antt =====
-- What a `Connection` and a `Peer` of src/raknet/_peer.py do without the pump: sending, bans and
-- the accessors. Figures that RakNet keeps come from the methods of Raw/Methods.
use raknet_python.Prelude.{ℕ, Bool, false, not, String, Option, none, some, List, if◌then◌else◌}
use raknet_python.Prelude.Int.{ℤ, pos}
use raknet_python.Prelude.Dict.{values}
use raknet_python.Prelude.Objects.{Ref}
use raknet_python.Raw.Enums.{PacketPriority, PacketReliability}
use raknet_python.Raw.Interface.{Bytes, RakNet}
use raknet_python.Raw.Methods.{Methods}
use raknet_python.Raw.Peer as RawPeer
use raknet_python.Raw.Peer.Packets
use raknet_python.Raw.Peer.Buffers
use raknet_python.Raw.Peer.Identity
use raknet_python.Raw.Peer.Timing
use raknet_python.Exceptions
use raknet_python.Exceptions.{text, raknet_error, connection_closed, Result, ok, raise}
use raknet_python.Peer.{Peer, to_address}

module _ (R : RakNet) where
  -- `Connection.send`
  unfoldable pub send :
      Ref
      → Bytes
      → PacketReliability
      → PacketPriority
      → (channel : ℤ) → Peer R
      → Result (Unit {0}) × Peer R
  unfolding Packets.send
  send r message reliability priority channel self =
      let connection = self.connection_at.at r in
      if connection.closed
      then (raise (connection_closed (Exceptions.closed "connection is closed")), self)
      else (
        ok tt,
        record self {
          raw =
              (Packets.send R self.raw message priority reliability channel
                (R.of_guid connection.raw_guid) false 0).1;
        },
      )

  unfoldable pub remote_address : Ref → Peer R → String × ℕ
  unfolding to_address
  remote_address r self = to_address R (self.connection_at.at r).raw_address

  -- `Connection.guid`
  unfoldable pub remote_guid : Ref → Peer R → ℕ
  remote_guid r self = (self.connection_at.at r).raw_guid.g

  unfoldable pub connected : Ref → Peer R → Bool
  connected r self = not (self.connection_at.at r).closed

  -- `Connection.statistics`
  unfoldable pub statistics : Ref → Peer R → Option R.RakNetStatistics
  unfolding Buffers.get_statistics
  statistics r self = Buffers.get_statistics R self.raw (self.connection_at.at r).raw_address

  unfoldable pub connections : Peer R → List Ref
  unfolding values
  connections self = values self.connections

  unfoldable pub offline_ping_response : Peer R → Option Bytes
  unfolding Buffers.get_offline_ping_response
  offline_ping_response self = Buffers.get_offline_ping_response R self.raw

  unfoldable pub set_offline_ping_response : Bytes → Peer R → Peer R
  unfolding RawPeer.set_offline_ping_response
  set_offline_ping_response response self = record self {
    raw = RawPeer.set_offline_ping_response R self.raw response;
  }

  unfoldable pub max_incoming_connections : Peer R → ℕ
  unfolding RawPeer.get_maximum_incoming_connections
  max_incoming_connections self = RawPeer.get_maximum_incoming_connections R self.raw

  unfoldable pub set_max_incoming_connections : ℕ → Peer R → Peer R
  unfolding RawPeer.set_maximum_incoming_connections
  set_max_incoming_connections value self = record self {
    raw = RawPeer.set_maximum_incoming_connections R self.raw value;
  }

  -- `duration` is `int(duration * 1000)` where there is one.
  unfoldable pub ban : String → Option ℕ → Peer R → Peer R
  unfolding RawPeer.add_to_ban_list
  ban ip duration self = record self {
    raw = RawPeer.add_to_ban_list R self.raw ip (elim duration [ none ↦ 0 | some ms ↦ ms ]);
  }

  unfoldable pub unban : String → Peer R → Peer R
  unfolding RawPeer.remove_from_ban_list
  unban ip self = record self { raw = RawPeer.remove_from_ban_list R self.raw ip }

  unfoldable pub clear_bans : Peer R → Peer R
  unfolding RawPeer.clear_ban_list
  clear_bans self = record self { raw = RawPeer.clear_ban_list R self.raw }

  -- `_check_open`
  unfoldable pub check_open : Peer R → Result (Unit {0})
  check_open self = if self.closed then raise (raknet_error (text "peer is closed")) else ok tt

module _ (R : RakNet) (M : Methods R) where
  unfoldable pub latency : Ref → Peer R → ℤ
  unfolding Timing.get_last_ping
  latency r self = Timing.get_last_ping R M self.raw (R.of_guid (self.connection_at.at r).raw_guid)

  unfoldable pub average_latency : Ref → Peer R → ℤ
  unfolding Timing.get_average_ping
  average_latency r self =
      Timing.get_average_ping R M self.raw (R.of_guid (self.connection_at.at r).raw_guid)

  unfoldable pub lowest_latency : Ref → Peer R → ℤ
  unfolding Timing.get_lowest_ping
  lowest_latency r self =
      Timing.get_lowest_ping R M self.raw (R.of_guid (self.connection_at.at r).raw_guid)

  -- `Peer.guid`
  unfoldable pub guid : Peer R → ℕ
  unfolding Identity.get_my_guid
  guid self = (Identity.get_my_guid R M self.raw).g

  unfoldable pub local_address : Peer R → String × ℕ
  unfolding Identity.get_my_bound_address to_address
  local_address self = to_address R (Identity.get_my_bound_address R M self.raw (pos 0))
