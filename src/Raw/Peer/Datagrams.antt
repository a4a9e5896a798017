-- ===== src/Raw/Peer/Datagrams.antt =====
-- The methods of `RakPeer` in src/raknet_python.cpp that send outside of connections.
use raknet_python.Prelude.{ℕ, Bool, String, length}
use raknet_python.Prelude.Int.{ℤ, to_int, to_unsigned}
use raknet_python.Raw.Interface.{Bytes, RakNet}
use raknet_python.Raw.Methods.{Methods}

module _ (R : RakNet) (M : Methods R) where
  open R use {RakPeerInterface, SystemAddress, AddressOrGuid}

  unfoldable pub advertise_system :
      RakPeerInterface → String → ℕ → Bytes → ℕ → Bool × RakPeerInterface
  unfolding to_int
  advertise_system self host remote_port message connection_socket_index =
      M.advertise_system host remote_port message (to_int (length message)) connection_socket_index
        self

  unfoldable pub send_ttl : RakPeerInterface → String → ℕ → ℤ → ℕ → RakPeerInterface
  send_ttl self host remote_port ttl connection_socket_index =
      M.send_ttl host remote_port ttl connection_socket_index self

  -- A `BitSize_t` has 32 bits.
  unfoldable pub send_out_of_band :
      RakPeerInterface → String → ℕ → Bytes → ℕ → Bool × RakPeerInterface
  unfolding to_unsigned
  send_out_of_band self host remote_port message connection_socket_index =
      M.send_out_of_band host remote_port message (to_unsigned (length message))
        connection_socket_index self
