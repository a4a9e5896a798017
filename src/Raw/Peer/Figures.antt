-- ===== src/Raw/Peer/Figures.antt =====
-- The methods of `RakPeer` in src/raknet_python.cpp that look systems up by number.
use raknet_python.Prelude.{ℕ, Option, none, some, if◌then◌else◌}
use raknet_python.Raw.Interface.{RakNet}
use raknet_python.Raw.Methods.{Methods}

module _ (R : RakNet) (M : Methods R) where
  open R use {RakPeerInterface, RakNetStatistics}

  unfoldable pub get_maximum_number_of_peers : RakPeerInterface → ℕ
  get_maximum_number_of_peers self = R.get_maximum_number_of_peers self

  -- `get_statistics` by an index, the second overload.
  unfoldable pub get_statistics_at : RakPeerInterface → ℕ → Option RakNetStatistics
  get_statistics_at self index =
      let (found, statistics) = M.get_statistics_at index self in
      if found then some statistics else none
