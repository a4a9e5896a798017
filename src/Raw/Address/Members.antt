-- ===== src/Raw/Address/Members.antt =====
-- `SystemAddress` in src/raknet_python.cpp: the members that hand on to RakNet.
use raknet_python.Prelude.{ℕ, Bool, true, String}
use raknet_python.Prelude.Int.{ℤ}
use Prim.Native.String.{◌++◌}
use raknet_python.Raw.Interface.{RakNet}
use raknet_python.Raw.Members.{Members}

module _ (R : RakNet) (T : Members R) where
  open R use {SystemAddress}

  unfoldable pub new : SystemAddress
  new = R.default_system_address

  unfoldable pub of_str : String → SystemAddress
  of_str str = T.address_of_str str

  unfoldable pub of_str_port : String → ℕ → SystemAddress
  of_str_port str port = R.system_address str port

  unfoldable pub get_system_index : SystemAddress → ℕ
  get_system_index self = T.address_system_index self

  unfoldable pub set_system_index : SystemAddress → ℕ → SystemAddress
  set_system_index self value = T.with_system_index self value

  unfoldable pub size : ℕ
  size = T.address_size

  unfoldable pub to_integer : SystemAddress → ℕ
  to_integer system_address = T.address_to_integer system_address

  unfoldable pub get_ip_version : SystemAddress → ℕ
  get_ip_version self = T.get_ip_version self

  unfoldable pub set_to_loopback : SystemAddress → SystemAddress
  set_to_loopback self = T.set_to_loopback self

  -- `set_to_loopback` with an argument, the second overload.
  unfoldable pub set_to_loopback_of : SystemAddress → ℕ → SystemAddress
  set_to_loopback_of self ip_version = T.set_to_loopback_of self ip_version

  unfoldable pub is_loopback : SystemAddress → Bool
  is_loopback self = T.is_loopback self

  unfoldable pub is_lan_address : SystemAddress → Bool
  is_lan_address self = T.is_lan_address self

  unfoldable pub from_string_explicit_port : SystemAddress → String → ℕ → ℤ → Bool × SystemAddress
  from_string_explicit_port self str port ip_version =
      T.from_string_explicit_port self str port ip_version

  unfoldable pub copy_port : SystemAddress → SystemAddress → SystemAddress
  copy_port self right = T.copy_port self right

  unfoldable pub equals_excluding_port : SystemAddress → SystemAddress → Bool
  equals_excluding_port self right = T.equals_excluding_port self right

  unfoldable pub get_port : SystemAddress → ℕ
  get_port self = R.get_port self

  unfoldable pub get_port_network_order : SystemAddress → ℕ
  get_port_network_order self = T.get_port_network_order self

  unfoldable pub set_port_host_order : SystemAddress → ℕ → SystemAddress
  set_port_host_order self port = T.set_port_host_order self port

  unfoldable pub set_port_network_order : SystemAddress → ℕ → SystemAddress
  set_port_network_order self port = T.set_port_network_order self port

  -- `self == other`
  unfoldable pub eq : SystemAddress → SystemAddress → Bool
  eq self other = T.address_eq self other

  -- `self != other`
  unfoldable pub ne : SystemAddress → SystemAddress → Bool
  ne self other = T.address_ne self other

  -- `self < other`
  unfoldable pub lt : SystemAddress → SystemAddress → Bool
  lt self other = T.address_lt self other

  -- `self > other`
  unfoldable pub gt : SystemAddress → SystemAddress → Bool
  gt self other = T.address_gt self other

  unfoldable pub hash : SystemAddress → ℕ
  hash self = T.address_to_integer self

  -- `__repr__`
  unfoldable pub repr : SystemAddress → String
  repr self = "SystemAddress('" ++ (R.address_to_string self true 124 ++ "')")
