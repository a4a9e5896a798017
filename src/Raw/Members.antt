-- ===== src/Raw/Members.antt =====
-- The members of the types of RakNet that src/raknet_python.cpp hands on as they are, apart from
-- those of Raw/Interface. A member that changes its object gives the object back.
use raknet_python.Prelude.{ℕ, Bool, String, List}
use raknet_python.Prelude.Int.{ℤ}
use raknet_python.Raw.Interface.{RakNetGuid, RakNet}

pub record Members (R : RakNet) : Type 1 where
  pub Float : Type 0
  pub Double : Type 0
  pub address_of_str : String → R.SystemAddress
  pub address_system_index : R.SystemAddress → ℕ
  pub with_system_index : R.SystemAddress → ℕ → R.SystemAddress
  pub address_size : ℕ
  pub address_to_integer : R.SystemAddress → ℕ
  pub get_ip_version : R.SystemAddress → ℕ
  pub set_to_loopback : R.SystemAddress → R.SystemAddress
  pub set_to_loopback_of : R.SystemAddress → ℕ → R.SystemAddress
  pub is_loopback : R.SystemAddress → Bool
  pub is_lan_address : R.SystemAddress → Bool
  pub from_string_explicit_port : R.SystemAddress → String → ℕ → ℤ → Bool × R.SystemAddress
  pub copy_port : R.SystemAddress → R.SystemAddress → R.SystemAddress
  pub equals_excluding_port : R.SystemAddress → R.SystemAddress → Bool
  pub get_port_network_order : R.SystemAddress → ℕ
  pub set_port_host_order : R.SystemAddress → ℕ → R.SystemAddress
  pub set_port_network_order : R.SystemAddress → ℕ → R.SystemAddress
  pub address_eq : R.SystemAddress → R.SystemAddress → Bool
  pub address_ne : R.SystemAddress → R.SystemAddress → Bool
  pub address_lt : R.SystemAddress → R.SystemAddress → Bool
  pub address_gt : R.SystemAddress → R.SystemAddress → Bool
  pub default_guid : RakNetGuid
  pub guid_of_number : ℕ → RakNetGuid
  pub guid_size : ℕ
  pub guid_to_uint32 : RakNetGuid → ℕ
  pub guid_to_string : RakNetGuid → String
  pub guid_from_string : RakNetGuid → String → Bool × RakNetGuid
  pub guid_eq : RakNetGuid → RakNetGuid → Bool
  pub guid_ne : RakNetGuid → RakNetGuid → Bool
  pub guid_lt : RakNetGuid → RakNetGuid → Bool
  pub guid_gt : RakNetGuid → RakNetGuid → Bool
  pub default_target : R.AddressOrGuid
  pub target_guid : R.AddressOrGuid → RakNetGuid
  pub with_target_guid : R.AddressOrGuid → RakNetGuid → R.AddressOrGuid
  pub target_address : R.AddressOrGuid → R.SystemAddress
  pub with_target_address : R.AddressOrGuid → R.SystemAddress → R.AddressOrGuid
  pub target_system_index : R.AddressOrGuid → ℕ
  pub is_undefined : R.AddressOrGuid → Bool
  pub set_undefined : R.AddressOrGuid → R.AddressOrGuid
  pub target_to_integer : R.AddressOrGuid → ℕ
  pub target_to_string : R.AddressOrGuid → Bool → String
  pub value_over_last_second : R.RakNetStatistics → List ℕ
  pub running_total : R.RakNetStatistics → List ℕ
  pub connection_start_time : R.RakNetStatistics → ℕ
  pub is_limited_by_congestion_control : R.RakNetStatistics → Bool
  pub bps_limit_by_congestion_control : R.RakNetStatistics → ℕ
  pub is_limited_by_outgoing_bandwidth_limit : R.RakNetStatistics → Bool
  pub bps_limit_by_outgoing_bandwidth_limit : R.RakNetStatistics → ℕ
  pub message_in_send_buffer : R.RakNetStatistics → List ℕ
  pub bytes_in_send_buffer : R.RakNetStatistics → List Double
  pub messages_in_resend_buffer : R.RakNetStatistics → ℕ
  pub bytes_in_resend_buffer : R.RakNetStatistics → ℕ
  pub packetloss_last_second : R.RakNetStatistics → Float
  pub packetloss_total : R.RakNetStatistics → Float
