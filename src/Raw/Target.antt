-- ===== src/Raw/Target.antt =====
-- `AddressOrGUID` in src/raknet_python.cpp.
use raknet_python.Prelude.{ℕ, Bool, true, String}
use raknet_python.Raw.Interface.{RakNetGuid, RakNet}
use raknet_python.Raw.Members.{Members}

module _ (R : RakNet) (T : Members R) where
  open R use {AddressOrGuid, SystemAddress}

  unfoldable pub new : AddressOrGuid
  new = T.default_target

  -- Also the implicit conversion.
  unfoldable pub of_system_address : SystemAddress → AddressOrGuid
  of_system_address system_address = R.of_system_address system_address

  -- Also the implicit conversion.
  unfoldable pub of_guid : RakNetGuid → AddressOrGuid
  of_guid guid = R.of_guid guid

  unfoldable pub get_rak_net_guid : AddressOrGuid → RakNetGuid
  get_rak_net_guid self = T.target_guid self

  unfoldable pub set_rak_net_guid : AddressOrGuid → RakNetGuid → AddressOrGuid
  set_rak_net_guid self value = T.with_target_guid self value

  unfoldable pub get_system_address : AddressOrGuid → SystemAddress
  get_system_address self = T.target_address self

  unfoldable pub set_system_address : AddressOrGuid → SystemAddress → AddressOrGuid
  set_system_address self value = T.with_target_address self value

  unfoldable pub get_system_index : AddressOrGuid → ℕ
  get_system_index self = T.target_system_index self

  unfoldable pub is_undefined : AddressOrGuid → Bool
  is_undefined self = T.is_undefined self

  unfoldable pub set_undefined : AddressOrGuid → AddressOrGuid
  set_undefined self = T.set_undefined self

  unfoldable pub to_integer : AddressOrGuid → ℕ
  to_integer address_or_guid = T.target_to_integer address_or_guid

  unfoldable pub to_string : AddressOrGuid → Bool → String
  to_string self write_port = T.target_to_string self write_port

  -- `__str__`
  unfoldable pub str : AddressOrGuid → String
  str self = T.target_to_string self true
