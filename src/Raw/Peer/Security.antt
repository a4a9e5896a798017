-- ===== src/Raw/Peer/Security.antt =====
-- The methods of `RakPeer` in src/raknet_python.cpp that concern the encryption of connections.
use raknet_python.Prelude.{Bool, String, Option}
use raknet_python.Raw.Interface.{Bytes, RakNet}
use raknet_python.Raw.Methods.{Methods}

module _ (R : RakNet) (M : Methods R) where
  open R use {RakPeerInterface, SystemAddress, AddressOrGuid}

  -- `none` is a null pointer.
  unfoldable pub initialize_security :
      RakPeerInterface → Option Bytes → Option Bytes → Bool → Bool × RakPeerInterface
  initialize_security self public_key private_key require_client_key =
      M.initialize_security public_key private_key require_client_key self

  unfoldable pub disable_security : RakPeerInterface → RakPeerInterface
  disable_security self = M.disable_security self

  unfoldable pub add_to_security_exception_list : RakPeerInterface → String → RakPeerInterface
  add_to_security_exception_list self ip = M.add_to_security_exception_list ip self

  unfoldable pub remove_from_security_exception_list : RakPeerInterface → String → RakPeerInterface
  remove_from_security_exception_list self ip = M.remove_from_security_exception_list ip self

  unfoldable pub is_in_security_exception_list : RakPeerInterface → String → Bool
  is_in_security_exception_list self ip = M.is_in_security_exception_list ip self
