-- ===== src/Router.antt =====
-- src/raknet/_router.py: a packet's first byte chooses the callback of the sink.
pub mod Control
pub mod Dispatch
pub mod Totality
pub mod Reference
pub mod Preserves
use raknet_python.Prelude.{
  ℕ, Bool, true, false, Option, none, some, List, [], ◌∷◌, ◌||◌, drop, leb, ◌==◌, nat_eq,
  if◌then◌else◌,
}
use raknet_python.Raw.Interface.{Bytes, RakNetGuid}
use raknet_python.Raw.MessageId
use raknet_python.Raw.MessageId.{
  DefaultMessageIdTypes, message_id_entries, from_value, id_connection_attempt_failed,
  id_already_connected, id_no_free_incoming_connections, id_connection_banned, id_invalid_password,
  id_incompatible_protocol_version, id_ip_recently_connected, id_user_packet_enum,
  id_new_incoming_connection, id_connection_request_accepted, id_disconnection_notification,
  id_connection_lost, id_unconnected_pong,
}
use raknet_python.Raw.Peer.Packets.{Packet}

-- The `Sink` protocol, over the sink's state.
pub record Sink (SystemAddress State : Type 0) : Type 0 where
  pub incoming_connection : SystemAddress → RakNetGuid → State → State
  pub connect_succeeded : SystemAddress → RakNetGuid → State → State
  pub connect_failed : SystemAddress → DefaultMessageIdTypes → State → State
  pub message : RakNetGuid → Bytes → State → State
  pub disconnected : RakNetGuid → Bool → State → State
  pub pong : SystemAddress → RakNetGuid → Bytes → State → State

-- The members of `CONNECT_FAILURES`.
unfoldable pub connect_failures : List DefaultMessageIdTypes
connect_failures =
    id_connection_attempt_failed ∷ id_already_connected ∷ id_no_free_incoming_connections
    ∷ id_connection_banned ∷ id_invalid_password ∷ id_incompatible_protocol_version
    ∷ id_ip_recently_connected ∷ []

-- `mid in CONNECT_FAILURES`, for the numbers of some enumerators.
unfoldable pub contains : (DefaultMessageIdTypes → ℕ) → List DefaultMessageIdTypes → ℕ → Bool
contains ids [] mid = false
contains ids (m ∷ members) mid = ids m == mid || contains ids members mid

module _ (ids : DefaultMessageIdTypes → ℕ) {A S : Type 0} (sink : Sink A S) where
  -- `self._sink.connect_failed(packet.system_address, _MSG(mid))`; `none` is the `ValueError` of
  -- `_MSG(mid)`.
  unfoldable pub route_failure : Packet A → ℕ → S → Option S
  route_failure packet mid s = elim (from_value ids message_id_entries mid) [
    | none ↦ none
    | some reason ↦ some (sink.connect_failed packet.system_address reason s)
  ]

  unfoldable pub route_mid : Packet A → Bytes → ℕ → S → Option S
  route_mid packet bytes mid s =
      if leb (ids id_user_packet_enum) mid
      then some (sink.message packet.guid bytes s)
      else if mid == ids id_new_incoming_connection
      then some (sink.incoming_connection packet.system_address packet.guid s)
      else if mid == ids id_connection_request_accepted
      then some (sink.connect_succeeded packet.system_address packet.guid s)
      else if contains ids connect_failures mid
      then route_failure packet mid s
      else if mid == ids id_disconnection_notification
      then some (sink.disconnected packet.guid true s)
      else if mid == ids id_connection_lost
      then some (sink.disconnected packet.guid false s)
      else if mid == ids id_unconnected_pong
      then some (sink.pong packet.system_address packet.guid (drop 5 bytes) s)
      else some s

  -- `Router.route`
  unfoldable pub route : Packet A → S → Option S
  unfolding route_mid
  route packet s = elim packet.bytes [
    | [] ↦ some s
    | mid ∷ rest ↦ route_mid packet (mid ∷ rest) mid s
  ]
