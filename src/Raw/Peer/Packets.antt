-- ===== src/Raw/Peer/Packets.antt =====
-- The methods of `RakPeer` that send and receive.
pub mod Ownership
use raknet_python.Prelude.{ℕ, Bool, Option, none, some, List, [], ◌∷◌, length, take}
use raknet_python.Prelude.Int.{ℤ, to_char, to_int}
use raknet_python.Raw.Enums.{PacketPriority, PacketReliability}
use raknet_python.Raw.Interface.{Bytes, RakNetGuid, RakNet}

-- `struct Packet`
pub record Packet (SystemAddress : Type 0) : Type 0 where
  pub system_address : SystemAddress
  pub guid : RakNetGuid
  pub length : ℕ
  pub bit_size : ℕ
  pub bytes : Bytes
  pub was_generated_locally : Bool

-- The loop of `send_list`: `lengths` beside `pointers`.
unfoldable pub item_lengths : List Bytes → List ℤ
unfolding to_int
item_lengths [] = []
item_lengths (item ∷ items) = to_int (length item) ∷ item_lengths items

module _ (R : RakNet) where
  open R use {RakPeerInterface, SystemAddress, AddressOrGuid, PacketPtr}

  unfoldable pub send :
      RakPeerInterface
      → Bytes
      → PacketPriority
      → PacketReliability
      → ℤ
      → AddressOrGuid
      → Bool
      → ℕ
      → ℕ × RakPeerInterface
  unfolding to_int to_char
  send self message priority reliability ordering_channel system_identifier broadcast
        force_receipt_number =
      R.send message (to_int (length message)) priority reliability (to_char ordering_channel)
        system_identifier broadcast force_receipt_number self

  unfoldable pub send_loopback : RakPeerInterface → Bytes → RakPeerInterface
  unfolding to_int
  send_loopback self message = R.send_loopback message (to_int (length message)) self

  unfoldable pub send_list :
      RakPeerInterface
      → List Bytes
      → PacketPriority
      → PacketReliability
      → ℤ
      → AddressOrGuid
      → Bool
      → ℕ
      → ℕ × RakPeerInterface
  unfolding to_int to_char item_lengths
  send_list self messages priority reliability ordering_channel system_identifier broadcast
        force_receipt_number =
      R.send_list messages (item_lengths messages) (to_int (length messages)) priority reliability
        (to_char ordering_channel) system_identifier broadcast force_receipt_number self

  -- The copy that `receive` makes before it gives the packet back.
  unfoldable pub copy_packet : PacketPtr → Packet SystemAddress
  copy_packet packet = record {
    system_address = R.packet_system_address packet;
    guid = R.packet_guid packet;
    length = R.packet_length packet;
    bit_size = R.packet_bit_size packet;
    bytes = take (R.packet_length packet) (R.packet_data packet);
    was_generated_locally = R.packet_was_generated_locally packet;
  }

  -- `packet->data` holds `packet->length` bytes.
  unfoldable pub received :
      Option PacketPtr × RakPeerInterface → Option (Packet SystemAddress) × RakPeerInterface
  unfolding copy_packet
  received (none, self) = (none, self)
  received (some packet, self) = (some (copy_packet packet), R.deallocate_packet packet self)

  unfoldable pub receive : RakPeerInterface → Option (Packet SystemAddress) × RakPeerInterface
  unfolding received
  receive self = received (R.receive self)
