-- ===== src/Raw/Peer.antt =====
-- The methods of `RakPeer` in src/raknet_python.cpp, over the state of the `RakPeerInterface` that
-- the object owns. Here are the methods that configure, connect and close; the children hold those
-- that move packets and those that copy lists and buffers out.
pub mod Packets
pub mod Buffers
pub mod Security
pub mod Identity
pub mod Timing
pub mod Tuning
pub mod Datagrams
pub mod Figures
use raknet_python.Prelude.{ℕ, Bool, String, List, length}
use raknet_python.Prelude.Int.{ℤ, to_uchar, mod_256, to_int, to_unsigned}
use raknet_python.Raw.Enums.{
  StartupResult, ConnectionAttemptResult, ConnectionState, PacketPriority,
}
use raknet_python.Raw.Interface.{Bytes, SocketDescriptor, RakNet}

module _ (R : RakNet) where
  open R use {RakPeerInterface, SystemAddress, AddressOrGuid}

  -- `RakPeer()`
  unfoldable pub rak_peer : RakPeerInterface
  rak_peer = R.get_instance

  unfoldable pub startup :
      RakPeerInterface → ℕ → List SocketDescriptor → ℤ → StartupResult × RakPeerInterface
  unfolding to_unsigned
  startup self max_connections socket_descriptors thread_priority =
      R.startup max_connections socket_descriptors (to_unsigned (length socket_descriptors))
        thread_priority self

  unfoldable pub set_maximum_incoming_connections : RakPeerInterface → ℕ → RakPeerInterface
  set_maximum_incoming_connections self number_allowed =
      R.set_maximum_incoming_connections number_allowed self

  unfoldable pub get_maximum_incoming_connections : RakPeerInterface → ℕ
  get_maximum_incoming_connections self = R.get_maximum_incoming_connections self

  unfoldable pub set_incoming_password : RakPeerInterface → Bytes → RakPeerInterface
  unfolding to_int
  set_incoming_password self password =
      R.set_incoming_password password (to_int (length password)) self

  unfoldable pub connect :
      RakPeerInterface
      → String
      → ℕ
      → Bytes
      → ℕ
      → ℕ
      → ℕ
      → ℕ
      → ConnectionAttemptResult × RakPeerInterface
  unfolding to_int
  connect self host remote_port password connection_socket_index send_connection_attempt_count
        time_between_send_connection_attempts_ms timeout_time =
      R.connect host remote_port password (to_int (length password)) connection_socket_index
        send_connection_attempt_count time_between_send_connection_attempts_ms timeout_time self

  unfoldable pub shutdown : RakPeerInterface → ℕ → ℤ → PacketPriority → RakPeerInterface
  unfolding mod_256
  shutdown self block_duration ordering_channel disconnection_notification_priority =
      R.shutdown block_duration (to_uchar ordering_channel) disconnection_notification_priority self

  unfoldable pub is_active : RakPeerInterface → Bool
  is_active self = R.is_active self

  unfoldable pub close_connection :
      RakPeerInterface → AddressOrGuid → Bool → ℤ → PacketPriority → RakPeerInterface
  unfolding mod_256
  close_connection self target send_disconnection_notification ordering_channel
        disconnection_notification_priority =
      R.close_connection target send_disconnection_notification (to_uchar ordering_channel)
        disconnection_notification_priority self

  unfoldable pub get_connection_state : RakPeerInterface → AddressOrGuid → ConnectionState
  get_connection_state self system_identifier = R.get_connection_state system_identifier self

  unfoldable pub cancel_connection_attempt : RakPeerInterface → SystemAddress → RakPeerInterface
  cancel_connection_attempt self target = R.cancel_connection_attempt target self

  unfoldable pub add_to_ban_list : RakPeerInterface → String → ℕ → RakPeerInterface
  add_to_ban_list self ip milliseconds = R.add_to_ban_list ip milliseconds self

  unfoldable pub remove_from_ban_list : RakPeerInterface → String → RakPeerInterface
  remove_from_ban_list self ip = R.remove_from_ban_list ip self

  unfoldable pub clear_ban_list : RakPeerInterface → RakPeerInterface
  clear_ban_list self = R.clear_ban_list self

  unfoldable pub is_banned : RakPeerInterface → String → Bool
  is_banned self ip = R.is_banned ip self

  -- The second overload, which takes a host.
  unfoldable pub ping : RakPeerInterface → String → ℕ → Bool → ℕ → Bool × RakPeerInterface
  ping self host remote_port only_reply_on_accepting_connections connection_socket_index =
      R.ping host remote_port only_reply_on_accepting_connections connection_socket_index self

  unfoldable pub set_offline_ping_response : RakPeerInterface → Bytes → RakPeerInterface
  unfolding to_unsigned
  set_offline_ping_response self response =
      R.set_offline_ping_response response (to_unsigned (length response)) self
