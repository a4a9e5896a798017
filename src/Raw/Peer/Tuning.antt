-- ===== src/Raw/Peer/Tuning.antt =====
-- The methods of `RakPeer` in src/raknet_python.cpp that set and read limits.
use raknet_python.Prelude.{ℕ, Bool}
use raknet_python.Prelude.Int.{ℤ}
use raknet_python.Raw.Interface.{RakNet}
use raknet_python.Raw.Methods.{Methods}

module _ (R : RakNet) (M : Methods R) where
  open R use {RakPeerInterface, SystemAddress, AddressOrGuid}
  open M use {Float}

  unfoldable pub set_limit_ip_connection_frequency : RakPeerInterface → Bool → RakPeerInterface
  set_limit_ip_connection_frequency self limit = M.set_limit_ip_connection_frequency limit self

  unfoldable pub get_mtu_size : RakPeerInterface → SystemAddress → ℤ
  get_mtu_size self target = M.get_mtu_size target self

  unfoldable pub allow_connection_response_ip_migration : RakPeerInterface → Bool → RakPeerInterface
  allow_connection_response_ip_migration self allow =
      M.allow_connection_response_ip_migration allow self

  unfoldable pub set_split_message_progress_interval : RakPeerInterface → ℤ → RakPeerInterface
  set_split_message_progress_interval self interval =
      M.set_split_message_progress_interval interval self

  unfoldable pub get_split_message_progress_interval : RakPeerInterface → ℤ
  get_split_message_progress_interval self = M.get_split_message_progress_interval self

  unfoldable pub apply_network_simulator : RakPeerInterface → Float → ℕ → ℕ → RakPeerInterface
  apply_network_simulator self packetloss min_extra_ping extra_ping_variance =
      M.apply_network_simulator packetloss min_extra_ping extra_ping_variance self

  unfoldable pub set_per_connection_outgoing_bandwidth_limit :
      RakPeerInterface → ℕ → RakPeerInterface
  set_per_connection_outgoing_bandwidth_limit self max_bits_per_second =
      M.set_per_connection_outgoing_bandwidth_limit max_bits_per_second self

  unfoldable pub is_network_simulator_active : RakPeerInterface → Bool
  is_network_simulator_active self = M.is_network_simulator_active self

  unfoldable pub get_receive_buffer_size : RakPeerInterface → ℕ
  get_receive_buffer_size self = M.get_receive_buffer_size self

  unfoldable pub get_next_send_receipt : RakPeerInterface → ℕ
  get_next_send_receipt self = M.get_next_send_receipt self

  unfoldable pub increment_next_send_receipt : RakPeerInterface → ℕ × RakPeerInterface
  increment_next_send_receipt self = M.increment_next_send_receipt self
