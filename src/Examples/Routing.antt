-- ===== src/Examples/Routing.antt =====
-- Runs of the router over a sink that writes down what it is told, and of the message ids.
use raknet_python.Prelude.{ℕ, ◌≡◌, false, String, some, List, [], ◌∷◌, string_eq}
use raknet_python.Prelude.Dict.{lookup}
use raknet_python.Raw.Interface.{Bytes}
use raknet_python.Raw.MessageId.{
  DefaultMessageIdTypes, message_id_entries, from_value, id_connection_banned,
}
use raknet_python.Raw.MessageId.Registered.{registered_round_trip}
use raknet_python.Raw.Peer.Packets.{Packet}
use raknet_python.Router.{Sink, route}
use raknet_python.Router.Reference.{reference, route-reference}
use raknet_python.Router.Totality.{route_total}
use raknet_python.Examples.Ids.{index, index-Distinct}

data Note : Type 0 where
  came went : ℕ → Note
  connected : ℕ → Note
  refused : DefaultMessageIdTypes → Note
  said : ℕ → Bytes → Note
  answered_with : Bytes → Note

abbrev notes : Sink ℕ (List Note)
notes = record {
  incoming_connection = λ a g s. came a ∷ s;
  connect_succeeded = λ a g s. connected a ∷ s;
  connect_failed = λ a r s. refused r ∷ s;
  message = λ g b s. said g.g b ∷ s;
  disconnected = λ g b s. went g.g ∷ s;
  pong = λ a g b s. answered_with b ∷ s;
}

abbrev packet : Bytes → Packet ℕ
packet bytes = record {
  system_address = 9;
  guid = record { g = 7; system_index = 0 };
  length = 0;
  bit_size = 0;
  bytes = bytes;
  was_generated_locally = false;
}

route-reference_example :
    route index notes (packet (17 ∷ [])) []
    ≡ some (reference index notes (17 ∷ []) (packet (17 ∷ [])) [])
route-reference_example = route-reference index notes index-Distinct (packet (17 ∷ [])) []

route_total_example :
    ((t : List Note) × (route index notes (packet (3 ∷ [])) [] ≡ some t))
    × (route index notes (packet []) [] ≡ some [])
route_total_example = route_total index notes (packet (3 ∷ [])) []

registered_round_trip_example :
    (k : String) × (lookup k message_id_entries ≡ some id_connection_banned)
    × (from_value index message_id_entries (index id_connection_banned) ≡ some id_connection_banned)
registered_round_trip_example = registered_round_trip index index-Distinct id_connection_banned
