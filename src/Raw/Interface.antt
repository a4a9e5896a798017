-- ===== src/Raw/Interface.antt =====
-- What src/raknet_python.cpp takes from RakNet, which is no part of this repository: its types and
-- the functions of `RakPeerInterface` that the modelled bindings call, over the state of one peer.
use raknet_python.Prelude.{ℕ, Bool, String, Option, List}
use raknet_python.Prelude.Int.{ℤ}
use raknet_python.Raw.Enums.{
  StartupResult, ConnectionAttemptResult, ConnectionState, PacketPriority, PacketReliability,
}
use raknet_python.Raw.MessageId.{DefaultMessageIdTypes}

-- `bytes`, `std::string` and character buffers.
abbrev pub Bytes : Type 0
Bytes = List ℕ

-- `RakNet::RakNetGUID`, by the two fields that the binding exposes.
pub record RakNetGuid : Type 0 where
  pub g : ℕ
  pub system_index : ℕ

-- `RakNet::SocketDescriptor`, by the fields that the binding exposes. The host is a buffer.
pub record SocketDescriptor : Type 0 where
  pub port : ℕ
  pub host_address : Bytes
  pub socket_family : ℕ
  pub blocking_socket : Bool
  pub extra_socket_options : ℕ

pub record RakNet : Type 1 where
  pub SystemAddress : Type 0
  pub AddressOrGuid : Type 0
  pub RakNetStatistics : Type 0
  pub PacketPtr : Type 0
  pub RakPeerInterface : Type 0
  -- MessageIdentifiers.h, RakNetTypes.h
  pub message_id : DefaultMessageIdTypes → ℕ
  pub host_address_size : ℕ
  pub default_system_address : SystemAddress
  pub system_address : String → ℕ → SystemAddress
  pub address_to_string : SystemAddress → Bool → ℕ → String
  pub address_from_string : SystemAddress → String → ℕ → ℤ → Bool × SystemAddress
  pub get_port : SystemAddress → ℕ
  pub of_system_address : SystemAddress → AddressOrGuid
  pub of_guid : RakNetGuid → AddressOrGuid
  pub socket_descriptor : ℕ → String → SocketDescriptor
  pub statistics_to_string : RakNetStatistics → ℤ → Bytes
  -- RakNet::Packet
  pub packet_system_address : PacketPtr → SystemAddress
  pub packet_guid : PacketPtr → RakNetGuid
  pub packet_length : PacketPtr → ℕ
  pub packet_bit_size : PacketPtr → ℕ
  pub packet_data : PacketPtr → Bytes
  pub packet_was_generated_locally : PacketPtr → Bool
  -- RakPeerInterface
  pub get_instance : RakPeerInterface
  pub startup :
      ℕ → List SocketDescriptor → ℕ → ℤ → RakPeerInterface → StartupResult × RakPeerInterface
  pub set_maximum_incoming_connections : ℕ → RakPeerInterface → RakPeerInterface
  pub get_maximum_incoming_connections : RakPeerInterface → ℕ
  pub set_incoming_password : Bytes → ℤ → RakPeerInterface → RakPeerInterface
  pub get_incoming_password : ℤ → RakPeerInterface → Bytes × ℤ
  pub connect :
      String
      → ℕ
      → Bytes
      → ℤ
      → ℕ
      → ℕ
      → ℕ
      → ℕ
      → RakPeerInterface
      → ConnectionAttemptResult × RakPeerInterface
  pub shutdown : ℕ → ℕ → PacketPriority → RakPeerInterface → RakPeerInterface
  pub is_active : RakPeerInterface → Bool
  pub get_maximum_number_of_peers : RakPeerInterface → ℕ
  -- Whether `data()` of an empty `std::vector` is other than null, which C++ leaves open.
  pub empty_vector_has_data : Bool
  -- Whether there is an array, or a null pointer, and the count; the vector's contents after the
  -- call, and the count that the call leaves.
  pub get_connection_list : Bool → ℕ → RakPeerInterface → Bool × (List SystemAddress × ℕ)
  pub send :
      Bytes
      → ℤ
      → PacketPriority
      → PacketReliability
      → ℤ
      → AddressOrGuid
      → Bool
      → ℕ
      → RakPeerInterface
      → ℕ × RakPeerInterface
  pub send_loopback : Bytes → ℤ → RakPeerInterface → RakPeerInterface
  pub send_list :
      List Bytes
      → List ℤ
      → ℤ
      → PacketPriority
      → PacketReliability
      → ℤ
      → AddressOrGuid
      → Bool
      → ℕ
      → RakPeerInterface
      → ℕ × RakPeerInterface
  pub receive : RakPeerInterface → Option PacketPtr × RakPeerInterface
  pub deallocate_packet : PacketPtr → RakPeerInterface → RakPeerInterface
  pub close_connection :
      AddressOrGuid → Bool → ℕ → PacketPriority → RakPeerInterface → RakPeerInterface
  pub get_connection_state : AddressOrGuid → RakPeerInterface → ConnectionState
  pub cancel_connection_attempt : SystemAddress → RakPeerInterface → RakPeerInterface
  pub get_system_list : RakPeerInterface → List SystemAddress × List RakNetGuid
  pub add_to_ban_list : String → ℕ → RakPeerInterface → RakPeerInterface
  pub remove_from_ban_list : String → RakPeerInterface → RakPeerInterface
  pub clear_ban_list : RakPeerInterface → RakPeerInterface
  pub is_banned : String → RakPeerInterface → Bool
  pub ping : String → ℕ → Bool → ℕ → RakPeerInterface → Bool × RakPeerInterface
  pub set_offline_ping_response : Bytes → ℕ → RakPeerInterface → RakPeerInterface
  pub get_offline_ping_response : RakPeerInterface → Bytes × ℕ
  pub get_client_public_key_from_system_address : SystemAddress → RakPeerInterface → Bool × Bytes
  pub get_statistics : SystemAddress → RakPeerInterface → Bool × RakNetStatistics
  pub get_statistics_list :
      RakPeerInterface → List SystemAddress × (List RakNetGuid × List RakNetStatistics)
