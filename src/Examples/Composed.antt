-- ===== src/Examples/Composed.antt =====
-- Runs that go through several components: a packet on its way to a mailbox, a whole `connect` and
-- a whole `ping` with a peer of their own, and the same with tasks that are cancelled.
use raknet_python.Prelude.{
  ◌≡◌, refl, true, false, none, some, [], ◌∷◌, ◌++◌, arith, nat_eq, string_eq,
}
use raknet_python.Prelude.Dict.{lookup}
use raknet_python.Peer.{Peer, address_key}
use raknet_python.Raw.Peer as RawPeer
use raknet_python.Peer.Starting.{new_peer, configure}
use raknet_python.Peer.Sink.{
  incoming_connection, connect_succeeded, pong, pop_pending_connect, commit_connect,
}
use raknet_python.Peer.Pump.{pump_round}
use raknet_python.Peer.Pump.Delivery.{pump_round-delivers}
use raknet_python.Peer.Connecting.{register_connect}
use raknet_python.Peer.Calls.Factories.{create_connection}
use raknet_python.Peer.Calls.Factories.Tidy.{IsTidy, create_connection-IsTidy}
use raknet_python.AsyncPeer.{cancel_connect}
use raknet_python.AsyncPeer.Misses.{cancel_connect-misses}
use raknet_python.Examples.World.{guid_of, small}
use raknet_python.Examples.Setup.{call, resolved, remote, new, one, one_closed, one_found, one_room}

open_raw : (small.receive one.raw).0 ≡ some (140 ∷ 1 ∷ [])
unfolding incoming_connection new_peer configure RawPeer.set_maximum_incoming_connections
open_raw = refl

pump_round-delivers_example :
    let self' = pump_round small 0 one in
    ((self'.connection_at.at 0).mailbox.items
      ≡ (one.connection_at.at 0).mailbox.items ++ (140 ∷ 1 ∷ []) ∷ [])
    × (self'.connection_at.at 1 ≡ one.connection_at.at 1)
    × (self'.connections ≡ one.connections)
pump_round-delivers_example =
    pump_round-delivers small 0 one (140 ∷ 1 ∷ []) 140 (1 ∷ []) 0 1 one_closed open_raw refl refl
      (omega arith) one_found one_room (λ e. omega arith)

-- What the pump thread does during the waits.
abbrev accepts : Peer small → Peer small
accepts p = connect_succeeded small remote (guid_of 7) p

abbrev answers : Peer small → Peer small
answers p = pong small 8 remote (guid_of 7) (5 ∷ []) p

create_connection-IsTidy_example :
    IsTidy small true
      (create_connection small true accepts (λ p. p) (λ p. p) call resolved (some 4))
create_connection-IsTidy_example =
    create_connection-IsTidy small (λ p. p) (λ p h. h) true true accepts (λ p. p) call resolved
      (some 4)

abbrev waiting : Peer small
waiting = register_connect small "10.0.0.7" new

unmade : (waiting.connect_at.at 0).connection ≡ none
unfolding register_connect new_peer
unmade = refl

cancel_connect-misses_example :
    let popped = pop_pending_connect small remote waiting in
    let after =
      commit_connect small remote
        (guid_of 7)
        0
        (cancel_connect small (λ p. p) (address_key small remote) "10.0.0.7" 19132 0 popped) in
    let late = after.connection_at.at waiting.connection_at.next in
    (lookup 7 after.connections ≡ some waiting.connection_at.next)
    × (late.closed ≡ false)
    × (late.mailbox.exc ≡ none)
    × (after.accept_queue ≡ waiting.accept_queue)
cancel_connect-misses_example =
    cancel_connect-misses small (λ p. p) "10.0.0.7" 19132 0 remote (guid_of 7) waiting unmade
