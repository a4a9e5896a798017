-- ===== src/Raw/Methods.antt =====
-- The functions of `RakPeerInterface` behind the methods of the binding that the Python layer does
-- not call, over the types of a `RakNet`.
use raknet_python.Prelude.{ℕ, Bool, String, Option}
use raknet_python.Prelude.Int.{ℤ}
use raknet_python.Raw.Interface.{Bytes, RakNetGuid, RakNet}

pub record Methods (R : RakNet) : Type 1 where
  pub Float : Type 0
  pub initialize_security :
      Option Bytes → Option Bytes → Bool → R.RakPeerInterface → Bool × R.RakPeerInterface
  pub disable_security : R.RakPeerInterface → R.RakPeerInterface
  pub add_to_security_exception_list : String → R.RakPeerInterface → R.RakPeerInterface
  pub remove_from_security_exception_list : String → R.RakPeerInterface → R.RakPeerInterface
  pub is_in_security_exception_list : String → R.RakPeerInterface → Bool
  pub number_of_connections : R.RakPeerInterface → ℕ
  pub get_index_from_system_address : R.SystemAddress → R.RakPeerInterface → ℤ
  pub get_system_address_from_index : ℕ → R.RakPeerInterface → R.SystemAddress
  pub get_guid_from_index : ℕ → R.RakPeerInterface → RakNetGuid
  pub get_internal_id : R.SystemAddress → ℤ → R.RakPeerInterface → R.SystemAddress
  pub set_internal_id : R.SystemAddress → ℤ → R.RakPeerInterface → R.RakPeerInterface
  pub get_external_id : R.SystemAddress → R.RakPeerInterface → R.SystemAddress
  pub get_my_guid : R.RakPeerInterface → RakNetGuid
  pub get_my_bound_address : ℤ → R.RakPeerInterface → R.SystemAddress
  pub get_guid_from_system_address : R.SystemAddress → R.RakPeerInterface → RakNetGuid
  pub get_system_address_from_guid : RakNetGuid → R.RakPeerInterface → R.SystemAddress
  pub get_number_of_addresses : R.RakPeerInterface → ℕ
  pub get_local_ip : ℕ → R.RakPeerInterface → String
  pub is_local_ip : String → R.RakPeerInterface → Bool
  pub change_system_address : RakNetGuid → R.SystemAddress → R.RakPeerInterface → R.RakPeerInterface
  pub ping_connected : R.SystemAddress → R.RakPeerInterface → R.RakPeerInterface
  pub get_average_ping : R.AddressOrGuid → R.RakPeerInterface → ℤ
  pub get_last_ping : R.AddressOrGuid → R.RakPeerInterface → ℤ
  pub get_lowest_ping : R.AddressOrGuid → R.RakPeerInterface → ℤ
  pub set_occasional_ping : Bool → R.RakPeerInterface → R.RakPeerInterface
  pub get_clock_differential : R.AddressOrGuid → R.RakPeerInterface → ℕ
  pub set_timeout_time : ℕ → R.SystemAddress → R.RakPeerInterface → R.RakPeerInterface
  pub get_timeout_time : R.SystemAddress → R.RakPeerInterface → ℕ
  pub set_unreliable_timeout : ℕ → R.RakPeerInterface → R.RakPeerInterface
  pub set_limit_ip_connection_frequency : Bool → R.RakPeerInterface → R.RakPeerInterface
  pub get_mtu_size : R.SystemAddress → R.RakPeerInterface → ℤ
  pub allow_connection_response_ip_migration : Bool → R.RakPeerInterface → R.RakPeerInterface
  pub set_split_message_progress_interval : ℤ → R.RakPeerInterface → R.RakPeerInterface
  pub get_split_message_progress_interval : R.RakPeerInterface → ℤ
  pub apply_network_simulator : Float → ℕ → ℕ → R.RakPeerInterface → R.RakPeerInterface
  pub set_per_connection_outgoing_bandwidth_limit : ℕ → R.RakPeerInterface → R.RakPeerInterface
  pub is_network_simulator_active : R.RakPeerInterface → Bool
  pub get_receive_buffer_size : R.RakPeerInterface → ℕ
  pub get_next_send_receipt : R.RakPeerInterface → ℕ
  pub increment_next_send_receipt : R.RakPeerInterface → ℕ × R.RakPeerInterface
  pub advertise_system : String → ℕ → Bytes → ℤ → ℕ → R.RakPeerInterface → Bool × R.RakPeerInterface
  pub send_ttl : String → ℕ → ℤ → ℕ → R.RakPeerInterface → R.RakPeerInterface
  pub send_out_of_band : String → ℕ → Bytes → ℕ → ℕ → R.RakPeerInterface → Bool × R.RakPeerInterface
  pub get_statistics_at : ℕ → R.RakPeerInterface → Bool × R.RakNetStatistics
