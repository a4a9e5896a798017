-- ===== src/Raw/Peer/Timing.antt =====
-- The methods of `RakPeer` in src/raknet_python.cpp that measure and limit times.
use raknet_python.Prelude.{ℕ, Bool}
use raknet_python.Prelude.Int.{ℤ}
use raknet_python.Raw.Interface.{RakNet}
use raknet_python.Raw.Methods.{Methods}

module _ (R : RakNet) (M : Methods R) where
  open R use {RakPeerInterface, SystemAddress, AddressOrGuid}

  -- `ping` of a connected system, the first overload.
  unfoldable pub ping_connected : RakPeerInterface → SystemAddress → RakPeerInterface
  ping_connected self target = M.ping_connected target self

  unfoldable pub get_average_ping : RakPeerInterface → AddressOrGuid → ℤ
  get_average_ping self system_identifier = M.get_average_ping system_identifier self

  unfoldable pub get_last_ping : RakPeerInterface → AddressOrGuid → ℤ
  get_last_ping self system_identifier = M.get_last_ping system_identifier self

  unfoldable pub get_lowest_ping : RakPeerInterface → AddressOrGuid → ℤ
  get_lowest_ping self system_identifier = M.get_lowest_ping system_identifier self

  unfoldable pub set_occasional_ping : RakPeerInterface → Bool → RakPeerInterface
  set_occasional_ping self do_ping = M.set_occasional_ping do_ping self

  unfoldable pub get_clock_differential : RakPeerInterface → AddressOrGuid → ℕ
  get_clock_differential self system_identifier = M.get_clock_differential system_identifier self

  unfoldable pub set_timeout_time : RakPeerInterface → ℕ → SystemAddress → RakPeerInterface
  set_timeout_time self time_ms target = M.set_timeout_time time_ms target self

  unfoldable pub get_timeout_time : RakPeerInterface → SystemAddress → ℕ
  get_timeout_time self target = M.get_timeout_time target self

  unfoldable pub set_unreliable_timeout : RakPeerInterface → ℕ → RakPeerInterface
  set_unreliable_timeout self timeout_ms = M.set_unreliable_timeout timeout_ms self
