-- ===== src/Raw/Peer/Identity.antt =====
-- The methods of `RakPeer` in src/raknet_python.cpp that tell systems, addresses and guids apart.
use raknet_python.Prelude.{ℕ, Bool, String}
use raknet_python.Prelude.Int.{ℤ}
use raknet_python.Raw.Interface.{RakNetGuid, RakNet}
use raknet_python.Raw.Methods.{Methods}

module _ (R : RakNet) (M : Methods R) where
  open R use {RakPeerInterface, SystemAddress, AddressOrGuid}

  unfoldable pub number_of_connections : RakPeerInterface → ℕ
  number_of_connections self = M.number_of_connections self

  unfoldable pub get_index_from_system_address : RakPeerInterface → SystemAddress → ℤ
  get_index_from_system_address self system_address =
      M.get_index_from_system_address system_address self

  unfoldable pub get_system_address_from_index : RakPeerInterface → ℕ → SystemAddress
  get_system_address_from_index self index = M.get_system_address_from_index index self

  unfoldable pub get_guid_from_index : RakPeerInterface → ℕ → RakNetGuid
  get_guid_from_index self index = M.get_guid_from_index index self

  unfoldable pub get_internal_id : RakPeerInterface → SystemAddress → ℤ → SystemAddress
  get_internal_id self system_address index = M.get_internal_id system_address index self

  unfoldable pub set_internal_id : RakPeerInterface → SystemAddress → ℤ → RakPeerInterface
  set_internal_id self system_address index = M.set_internal_id system_address index self

  unfoldable pub get_external_id : RakPeerInterface → SystemAddress → SystemAddress
  get_external_id self target = M.get_external_id target self

  unfoldable pub get_my_guid : RakPeerInterface → RakNetGuid
  get_my_guid self = M.get_my_guid self

  unfoldable pub get_my_bound_address : RakPeerInterface → ℤ → SystemAddress
  get_my_bound_address self socket_index = M.get_my_bound_address socket_index self

  unfoldable pub get_guid_from_system_address : RakPeerInterface → SystemAddress → RakNetGuid
  get_guid_from_system_address self input = M.get_guid_from_system_address input self

  unfoldable pub get_system_address_from_guid : RakPeerInterface → RakNetGuid → SystemAddress
  get_system_address_from_guid self input = M.get_system_address_from_guid input self

  unfoldable pub get_number_of_addresses : RakPeerInterface → ℕ
  get_number_of_addresses self = M.get_number_of_addresses self

  unfoldable pub get_local_ip : RakPeerInterface → ℕ → String
  get_local_ip self index = M.get_local_ip index self

  unfoldable pub is_local_ip : RakPeerInterface → String → Bool
  is_local_ip self ip = M.is_local_ip ip self

  unfoldable pub change_system_address :
      RakPeerInterface → RakNetGuid → SystemAddress → RakPeerInterface
  change_system_address self guid system_address = M.change_system_address guid system_address self
