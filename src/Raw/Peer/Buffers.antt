-- ===== src/Raw/Peer/Buffers.antt =====
-- The methods of `RakPeer` and `RakNetStatistics` that copy lists and buffers out of RakNet.
pub mod Rows
pub mod Password
pub mod Report
use mathlib.Core.Option
use raknet_python.Prelude.{
  ℕ, zero, suc, true, ◌==◌, nat_eq, ◌-◌, Option, none, some, List, [], ◌∷◌, ◌++◌, length, take,
  replicate, ltb, if◌then◌else◌,
}
use raknet_python.Prelude.Int.{ℤ, pos, negsuc, to_ushort, clamp_0_2}
use raknet_python.Raw.Interface.{Bytes, RakNetGuid, RakNet}

-- The first `n` bytes of a buffer; `none` is a read past its end.
unfoldable pub copy_bytes : ℕ → Bytes → Option Bytes
copy_bytes zero buffer = some []
copy_bytes (suc n) [] = none
copy_bytes (suc n) (c ∷ buffer) = Option.map (λ t. c ∷ t) (copy_bytes n buffer)

-- `nb::bytes(buffer, length)`. A negative length is converted to a huge `size_t`.
unfoldable pub to_bytes : Bytes → ℤ → Option Bytes
unfolding copy_bytes
to_bytes buffer (pos n) = copy_bytes n buffer
to_bytes buffer (negsuc n) = none

-- `addresses.resize(count)`
unfoldable pub resize {ℓ} : {A : Type ℓ} → A → ℕ → List A → List A
resize filler count items = take count items ++ replicate (count - length items) filler

-- The loop of `get_statistics_list` over three parallel lists. The loop runs to the size of the
-- first; `none` is an index past the end of another.
unfoldable pub rows {ℓ} : {A B C : Type ℓ} → List A → List B → List C → Option (List (A × B × C))
rows [] bs cs = some []
rows (a ∷ xs) [] cs = none
rows (a ∷ xs) (b ∷ bs) [] = none
rows (a ∷ xs) (b ∷ bs) (c ∷ cs) = Option.map (λ t. (a, b, c) ∷ t) (rows xs bs cs)

-- The loops of `get_system_list`: the items are pushed back to a vector one by one.
unfoldable pub push_back_all {ℓ} : {A : Type ℓ} → List A → List A → List A
push_back_all out [] = out
push_back_all out (item ∷ items) = push_back_all (out ++ item ∷ []) items

-- The report is written to a buffer of 4096 bytes with a zero behind it; `none` is a write past
-- the end of the buffer.
unfoldable pub buffered : Bytes → Option Bytes
buffered report = if ltb (length report) 4096 then some report else none

module _ (R : RakNet) where
  open R use {RakPeerInterface, SystemAddress, RakNetStatistics}

  unfoldable pub get_incoming_password : RakPeerInterface → Option Bytes
  unfolding to_bytes
  get_incoming_password self =
      let (password, length') = R.get_incoming_password (pos 256) self in to_bytes password length'

  unfoldable pub get_offline_ping_response : RakPeerInterface → Option Bytes
  unfolding copy_bytes
  get_offline_ping_response self =
      let (response, length') = R.get_offline_ping_response self in copy_bytes length' response

  -- `sizeof(key)` is 64.
  unfoldable pub get_client_public_key_from_system_address :
      RakPeerInterface → SystemAddress → Option (Option Bytes)
  unfolding copy_bytes
  get_client_public_key_from_system_address self input =
      let (found, key) = R.get_client_public_key_from_system_address input self in
      if found then Option.map (λ k. some k) (copy_bytes 64 key) else some none

  unfoldable pub get_connection_list : RakPeerInterface → List SystemAddress
  unfolding to_ushort resize
  get_connection_list self =
      let count = to_ushort (R.get_maximum_number_of_peers self) in
      let array = if count == 0 then R.empty_vector_has_data else true in
      let (found, rest) = R.get_connection_list array count self in
      if found then resize R.default_system_address rest.1 rest.0 else []

  unfoldable pub get_system_list : RakPeerInterface → List SystemAddress × List RakNetGuid
  unfolding push_back_all
  get_system_list self =
      let (addresses, guids) = R.get_system_list self in
      (push_back_all [] addresses, push_back_all [] guids)

  unfoldable pub get_statistics : RakPeerInterface → SystemAddress → Option RakNetStatistics
  get_statistics self address =
      let (found, statistics) = R.get_statistics address self in
      if found then some statistics else none

  unfoldable pub get_statistics_list :
      RakPeerInterface → Option (List (SystemAddress × RakNetGuid × RakNetStatistics))
  unfolding rows
  get_statistics_list self =
      let (addresses, rest) = R.get_statistics_list self in rows addresses rest.0 rest.1

  -- `RakNetStatistics.to_string`
  unfoldable pub statistics_to_string : RakNetStatistics → ℤ → Option Bytes
  unfolding buffered clamp_0_2
  statistics_to_string self verbosity_level =
      buffered (R.statistics_to_string self (clamp_0_2 verbosity_level))

  -- `RakNetStatistics.__str__`
  unfoldable pub statistics_str : RakNetStatistics → Option Bytes
  unfolding buffered
  statistics_str self = buffered (R.statistics_to_string self (pos 0))
