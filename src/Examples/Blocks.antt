-- ===== src/Examples/Blocks.antt =====
-- Threads that take turns on a peer with a connection, and tasks that are cancelled while another
-- thread works for them.
use raknet_python.Prelude.{
  ◌<◌, nat_eq, string_eq, ◌≡◌, refl, true, false, none, some, [], ◌∷◌, arith,
}
use raknet_python.Prelude.Dict.{lookup, insert}
use raknet_python.Raw.Peer as RawPeer
use raknet_python.Exceptions.{ok}
use raknet_python.Mailbox
use raknet_python.Peer.{Peer, new_connection, address_key, pending_key}
use raknet_python.Peer.Sink.{track, message, incoming_connection, connect_succeeded}
use raknet_python.Peer.Starting.{new_peer}
use raknet_python.Peer.Closing
use raknet_python.Peer.Connecting.{check_connect, resolve, is_started}
use raknet_python.Peer.Calls.Launched.{attempt}
use raknet_python.Peer.Pump.{pump_round}
use raknet_python.Peer.Steps.{next}
use raknet_python.Peer.Threads.{delivers, puts, takes}
use raknet_python.Peer.Threads.Exec.{exec}
use raknet_python.Peer.Threads.Turns.{Threads, begins, runs, Interleaved, start, later}
use raknet_python.Peer.Threads.Coarse.{idle}
use raknet_python.Peer.Threads.Progress.{Progress}
use raknet_python.Peer.Threads.Queues.{departures, arrivals, Interleaved-Progress}
use raknet_python.AsyncPeer.{
  goes_on, is_abandoned, finishes, stops_at_join, cancelled, connect, close,
}
use raknet_python.AsyncPeer.Events.{
  setting, running, new_event, is_over, moves, is_served, moves-is_served,
}
use raknet_python.AsyncPeer.Unsettled.{close-unsettled, connect-unowned}
use raknet_python.Examples.World.{World, guid_of, small}
use raknet_python.Examples.Setup.{raw, call, resolved, remote, new, one, one_closed}
use raknet_python.Examples.Turns.{begun, ran}

-- A client connects and sends a message, and then the peer is closed.
abbrev two_packets : World
two_packets = record raw { inbox = (19 ∷ []) ∷ (140 ∷ 1 ∷ []) ∷ [] }

abbrev fed : Peer small
fed = pump_round small 0 (pump_round small 0 (new_peer small (some 1) two_packets))

abbrev last : Peer small
last = Closing.close small (λ p. p) 500 fed

last_items : (last.connection_at.at 0).mailbox.items ≡ (140 ∷ 1 ∷ []) ∷ []
unfolding new_peer pump_round Closing.close incoming_connection message Mailbox.close
last_items = refl

-- A message for the connection is put into its mailbox, and taken by another thread.
abbrev taken : Threads small
taken = ran 1 (takes 0) [] (
    begun 1 (takes 0) (
      ran 0 (puts 0 (5 ∷ [])) [] (
        ran 0 (delivers (guid_of 7) (5 ∷ [])) []
          (begun 0 (delivers (guid_of 7) (5 ∷ [])) (idle one)))))

abbrev taken_path : Interleaved (idle one) taken
unfolding exec incoming_connection track new_peer new_connection lookup insert Mailbox.empty
    Mailbox.put Mailbox.is_full Mailbox.take_first
taken_path =
    later
      (later
        (later
          (later (later start (begins 0 (delivers (guid_of 7) (5 ∷ [])) refl tt))
            (runs 0 0 (delivers (guid_of 7) (5 ∷ [])) [] refl))
          (runs 0 0 (puts 0 (5 ∷ [])) [] refl))
        (begins 1 (takes 0) refl tt))
      (runs 1 0 (takes 0) [] refl)

one_made : 0 < one.connection_at.next
unfolding incoming_connection track new_peer
one_made = omega arith

Interleaved-Progress_example :
    Progress
      (departures 0 taken_path)
      (arrivals 0 taken_path)
      (one.connection_at.at 0)
      (taken.peer.connection_at.at 0)
Interleaved-Progress_example = Interleaved-Progress small (idle one) taken 0 taken_path one_made

moves-is_served_example :
    is_over (moves (setting ∷ running ∷ []) new_event) ≡ is_served (setting ∷ running ∷ [])
moves-is_served_example = moves-is_served (setting ∷ running ∷ [])

close-unsettled_example :
    let left = close small stops_at_join (λ p. p) 500 one in
    (left.closed ≡ true)
    × (left.connections ≡ [])
    × (left.pending_connects ≡ [])
    × (left.pending_pings ≡ [])
    × (left.connection_at ≡ one.connection_at)
    × (left.connect_at ≡ one.connect_at)
    × (left.ping_at ≡ one.ping_at)
    × (left.accept_queue ≡ one.accept_queue)
    × (left.raw ≡ one.raw)
    × (close small finishes (λ p. p) 500 left ≡ left)
close-unsettled_example = close-unsettled small finishes (λ p. p) 500 500 one one_closed

new_checked : check_connect small call resolved new ≡ ok "10.0.0.7"
unfolding check_connect new_peer resolve
new_checked = refl

new_started : is_started (attempt small call "10.0.0.7" new).0 ≡ true
unfolding is_started RawPeer.connect new_peer
new_started = refl

remote_key : address_key small remote ≡ pending_key small "10.0.0.7" call.port
unfolding address_key pending_key
remote_key = refl

connect-unowned_example :
    let (end, left) = connect small is_abandoned goes_on (λ p. p) (λ p. p) call resolved new in
    let after = connect_succeeded small remote (guid_of 7) left in
    let late = after.connection_at.at new.connection_at.next in
    (end ≡ cancelled)
    × (lookup (address_key small remote) left.pending_connects ≡ some new.connect_at.next)
    × (left.raw ≡ (attempt small call "10.0.0.7" new).1)
    × (lookup 7 after.connections ≡ some new.connection_at.next)
    × (late.closed ≡ false)
    × (late.mailbox.exc ≡ none)
    × (after.accept_queue ≡ new.accept_queue)
connect-unowned_example =
    connect-unowned small goes_on (λ p. p) (λ p. p) call resolved "10.0.0.7" remote (guid_of 7) new
      new_checked new_started remote_key
