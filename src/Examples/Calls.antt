-- ===== src/Examples/Calls.antt =====
-- Runs of the bindings on the small RakNet.
use raknet_python.Prelude.{◌≡◌, true, some, [], ◌∷◌, length, arith}
use raknet_python.Prelude.Int.{negsuc}
use raknet_python.Raw.Interface.{SocketDescriptor}
use raknet_python.Raw.Socket.{c_str, get_host_address, set_host_address}
use raknet_python.Raw.Socket.HostAddress.{get-set_host_address}
use raknet_python.Raw.Peer.{set_incoming_password}
use raknet_python.Raw.Peer.Packets.Ownership.{receive_times, receive_times_lent}
use raknet_python.Raw.Peer.Buffers.{
  get_incoming_password, get_connection_list, statistics_to_string, statistics_str,
}
use raknet_python.Raw.Peer.Buffers.Rows.{get_connection_list_prefix}
use raknet_python.Raw.Peer.Buffers.Password.{get-set_incoming_password}
use raknet_python.Raw.Peer.Buffers.Report.{statistics_to_string_saturates}
use raknet_python.Examples.World.{
  World, small, small-LendsPackets, small-KeepsPassword, small-ListsConnections, small-ShortReports,
}

abbrev world : World
world = record {
  inbox = (140 ∷ 1 ∷ []) ∷ (140 ∷ 2 ∷ []) ∷ [];
  lent = 0;
  password = [];
  connected = ("10.0.0.7", 19132) ∷ [];
}

abbrev socket : SocketDescriptor
socket = record {
  port = 19132;
  host_address = 0 ∷ 0 ∷ 0 ∷ 0 ∷ [];
  socket_family = 2;
  blocking_socket = true;
  extra_socket_options = 0;
}

get-set_host_address_example :
    (length (set_host_address 4 socket (49 ∷ 50 ∷ 51 ∷ 52 ∷ [])).host_address ≡ 4)
    × (get_host_address (set_host_address 4 socket (49 ∷ 50 ∷ 51 ∷ 52 ∷ []))
        ≡ some (49 ∷ 50 ∷ 51 ∷ []))
unfolding c_str
get-set_host_address_example = get-set_host_address 4 socket (49 ∷ 50 ∷ 51 ∷ 52 ∷ []) (omega arith)

receive_times_lent_example :
    ((receive_times small 3 world).1.lent ≡ 0) × (length (receive_times small 3 world).0 ≡ 3)
receive_times_lent_example = receive_times_lent small (λ w. w.lent) small-LendsPackets 3 world

get_connection_list_prefix_example : get_connection_list small world ≡ ("10.0.0.7", 19132) ∷ []
get_connection_list_prefix_example =
    get_connection_list_prefix small (λ w. w.connected) small-ListsConnections world

get-set_incoming_password_example :
    get_incoming_password small (set_incoming_password small world (112 ∷ 119 ∷ []))
    ≡ some (112 ∷ 119 ∷ [])
get-set_incoming_password_example =
    get-set_incoming_password small (λ w. w.password) small-KeepsPassword world (112 ∷ 119 ∷ [])
      (omega arith)

statistics_to_string_saturates_example :
    (statistics_to_string small tt (negsuc 4) ≡ some (104 ∷ 105 ∷ []))
    × (statistics_str small tt ≡ some (104 ∷ 105 ∷ []))
statistics_to_string_saturates_example =
    statistics_to_string_saturates small small-ShortReports tt (negsuc 4)
