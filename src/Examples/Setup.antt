-- ===== src/Examples/Setup.antt =====
-- The peers that the runs start from.
use raknet_python.Prelude.{
  Option, List, none, true, ℕ, ◌≡◌, refl, false, String, some, [], ◌∷◌, nat_eq, string_eq,
}
use raknet_python.Prelude.Dict.{lookup, insert}
use raknet_python.Mailbox
use raknet_python.Peer.{Peer, new_connection}
use raknet_python.Peer.Sink.{track, incoming_connection}
use raknet_python.Peer.Sink.Invariant.{IsValid}
use raknet_python.Peer.Connecting.{AddressInfo, ConnectCall}
use raknet_python.Peer.Starting.{new_peer}
use raknet_python.Peer.Steps.{here, Reach-IsValid}
use raknet_python.Examples.World.{World, guid_of, small}

abbrev pub raw : World
raw = record { inbox = (140 ∷ 1 ∷ []) ∷ []; lent = 0; password = []; connected = [] }

abbrev pub remote : String × ℕ
remote = ("10.0.0.7", 19132)

-- A new peer, which holds one message for each connection at most.
abbrev pub new : Peer small
new = new_peer small (some 1) raw

pub new-IsValid : IsValid new
new-IsValid = Reach-IsValid small (some 1) raw new here

-- It has a connection.
abbrev pub one : Peer small
one = incoming_connection small remote (guid_of 7) new

pub one_closed : one.closed ≡ false
unfolding incoming_connection track new_peer
one_closed = refl

pub one_found : lookup 7 one.connections ≡ some 0
unfolding incoming_connection track new_peer lookup insert
one_found = refl

pub one_room : Mailbox.is_full (one.connection_at.at 0).mailbox ≡ false
unfolding incoming_connection track new_peer new_connection Mailbox.empty Mailbox.is_full
one_room = refl

-- What the calls of `connect` are given.
abbrev pub call : ConnectCall
call = record {
  host = "10.0.0.7";
  port = 19132;
  password = none;
  attempts = 12;
  attempt_interval_ms = 500;
}

abbrev pub resolved : Option (List AddressInfo)
resolved = some (record { is_inet = true; ip = "10.0.0.7" } ∷ [])
