-- ===== src/Raw/Guid.antt =====
-- `RakNetGUID` in src/raknet_python.cpp. Its fields are those of the record; its comparisons are
-- RakNet's.
use raknet_python.Prelude.{ℕ, Bool, String}
use raknet_python.Raw.Interface.{RakNetGuid, RakNet}
use raknet_python.Raw.Members.{Members}

module _ (R : RakNet) (T : Members R) where
  unfoldable pub new : RakNetGuid
  new = T.default_guid

  unfoldable pub of_number : ℕ → RakNetGuid
  of_number g = T.guid_of_number g

  unfoldable pub get_g : RakNetGuid → ℕ
  get_g self = self.g

  unfoldable pub set_g : RakNetGuid → ℕ → RakNetGuid
  set_g self value = record self { g = value }

  unfoldable pub get_system_index : RakNetGuid → ℕ
  get_system_index self = self.system_index

  unfoldable pub set_system_index : RakNetGuid → ℕ → RakNetGuid
  set_system_index self value = record self { system_index = value }

  unfoldable pub size : ℕ
  size = T.guid_size

  unfoldable pub to_uint32 : RakNetGuid → ℕ
  to_uint32 guid = T.guid_to_uint32 guid

  unfoldable pub to_string : RakNetGuid → String
  to_string self = T.guid_to_string self

  unfoldable pub from_string : RakNetGuid → String → Bool × RakNetGuid
  from_string self source = T.guid_from_string self source

  -- `self == other`
  unfoldable pub eq : RakNetGuid → RakNetGuid → Bool
  eq self other = T.guid_eq self other

  -- `self != other`
  unfoldable pub ne : RakNetGuid → RakNetGuid → Bool
  ne self other = T.guid_ne self other

  -- `self < other`
  unfoldable pub lt : RakNetGuid → RakNetGuid → Bool
  lt self other = T.guid_lt self other

  -- `self > other`
  unfoldable pub gt : RakNetGuid → RakNetGuid → Bool
  gt self other = T.guid_gt self other

  unfoldable pub hash : RakNetGuid → ℕ
  hash self = self.g

  -- `__str__`
  unfoldable pub str : RakNetGuid → String
  str self = T.guid_to_string self
