-- ===== src/Raw/Address.antt =====
-- `delineator` and the bound methods of `SystemAddress` in src/raknet_python.cpp.
pub mod Members
use raknet_python.Prelude.{ℕ, Bool, true, String, [], ◌∷◌}
use raknet_python.Prelude.Int.{ℤ}
use raknet_python.Raw.Interface.{RakNet, Bytes}

-- `s.empty() ? '|' : s[0]`
unfoldable pub delineator : Bytes → ℕ
delineator [] = 124
delineator (c ∷ s) = c

module _ (R : RakNet) where
  -- `port_delineator` is `"|"` where the caller leaves it out.
  unfoldable pub to_string : R.SystemAddress → Bool → Bytes → String
  unfolding delineator
  to_string self write_port port_delineator =
      R.address_to_string self write_port (delineator port_delineator)

  unfoldable pub from_string : R.SystemAddress → String → Bytes → ℤ → Bool × R.SystemAddress
  unfolding delineator
  from_string self str port_delineator ip_version =
      R.address_from_string self str (delineator port_delineator) ip_version

  -- `__str__`
  unfoldable pub str : R.SystemAddress → String
  str self = R.address_to_string self true 124
