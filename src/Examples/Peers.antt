-- ===== src/Examples/Peers.antt =====
-- Runs of a peer on the small RakNet.
use raknet_python.Mailbox.{received, raised}
use raknet_python.Mailbox.Order.{get_times}
use raknet_python.Peer.Closing.Drains.{close-drains}
use raknet_python.Prelude.{
  ◌+◌, ◌<◌, length, map, replicate, ◌≡◌, refl, true, false, none, some, [], ◌∷◌, ◌++◌, arith,
  nat_eq, string_eq,
}
use raknet_python.Prelude.Dict.{lookup, insert, values}
use raknet_python.Raw.Enums.{reliable_ordered, high_priority}
use raknet_python.Prelude.Int.{pos}
use raknet_python.Exceptions
use raknet_python.Peer.Talking.{send}
use raknet_python.Peer.Accepting.Handlers.{run_handler, run_handler-closes}
use raknet_python.Exceptions.{Exception}
use raknet_python.Prelude.{ℕ, ◌≢◌, Option}
use raknet_python.Peer.Sink.Onward.{IsRestOf}
use raknet_python.Peer.Steps.Lifetime.{Reach-closed}
use raknet_python.Exceptions.{
  text, raknet_error, closed_ok, closed_error, ok, raise, connection_closed,
}
use raknet_python.Mailbox
use raknet_python.Peer.{Peer, new_connection, close_mailbox}
use raknet_python.Peer.Sink.{
  track, incoming_connection, message, put_message, disconnected, farewell,
}
use raknet_python.Peer.Sink.Invariant.{IsValid}
use raknet_python.Peer.Sink.Preserved.{
  incoming_connection-IsValid, message-IsValid, disconnected-IsValid,
}
use raknet_python.Peer.Sink.Delivery.{IsClosedWith, message-overflows, disconnected-closes}
use raknet_python.Peer.Closing.{close}
use raknet_python.Peer.Closing.Loops.{has}
use raknet_python.Peer.Closing.Settled.{IsSettledAt, IsEmptied, close-settles}
use raknet_python.Peer.Closing.Late.{close-misses}
use raknet_python.Peer.Accepting.{returns, serve_forever}
use raknet_python.Peer.Accepting.Serving.{until_close, serve_forever-returns}
use raknet_python.Peer.Accepting.Drained.{accept_times, accept_times_drains}
use raknet_python.Peer.Pump.{pump_round}
use raknet_python.Peer.Starting.{new_peer}
use raknet_python.Peer.Steps.{here, next, pumps}
use raknet_python.Examples.World.{guid_of, small}
use raknet_python.Examples.Setup.{remote, new, new-IsValid, one, one_closed}

-- Its connection has a message.
abbrev filled : Peer small
filled = message small (guid_of 7) (140 ∷ []) one

filled_found : lookup 7 filled.connections ≡ some 0
unfolding message put_message Mailbox.put Mailbox.is_full incoming_connection track new_peer
    new_connection Mailbox.empty lookup insert
filled_found = refl

filled_full : Mailbox.is_full (filled.connection_at.at 0).mailbox ≡ true
unfolding message put_message Mailbox.put Mailbox.is_full incoming_connection track new_peer
    new_connection Mailbox.empty lookup insert
filled_full = refl

filled-IsValid : IsValid filled
filled-IsValid =
    message-IsValid small (guid_of 7) (140 ∷ []) one
      (incoming_connection-IsValid small remote (guid_of 7) new new-IsValid)

fresh : has one.connection_at.next (values one.connections) ≡ false
unfolding incoming_connection track new_peer insert values has
fresh = refl

queued : filled.accept_queue ++ none ∷ [] ≡ some 0 ∷ none ∷ []
unfolding message put_message Mailbox.put Mailbox.is_full incoming_connection track new_peer
    new_connection Mailbox.empty lookup insert
queued = refl

close-settles_example :
    let q = close small (λ p. p) 500 one in
    IsEmptied small one q × IsSettledAt small (closed_ok "peer closed") one q 0
close-settles_example = close-settles small 500 one 0 one_closed

message-overflows_example :
    let self' = message small (guid_of 7) (141 ∷ []) filled in
    IsClosedWith small
      (closed_error "receive queue overflow")
      (filled.connection_at.at 0)
      (self'.connection_at.at 0)
    × (lookup 7 self'.connections ≡ none)
    × (self'.connection_at.at 1 ≡ filled.connection_at.at 1)
message-overflows_example =
    message-overflows small filled (guid_of 7) (141 ∷ []) 0 1 filled-IsValid filled_found
      filled_full (λ e. omega arith)

close-misses_example :
    let q = close small (incoming_connection small ("10.0.0.8", 4) (guid_of 8)) 500 one in
    let late = q.connection_at.at one.connection_at.next in
    (q.closed ≡ true)
    × (q.accept_queue ≡ (one.accept_queue ++ some one.connection_at.next ∷ []) ++ none ∷ [])
    × (late.closed ≡ false)
    × (late.mailbox.items ≡ [])
    × (late.mailbox.exc ≡ none)
close-misses_example = close-misses small one 500 ("10.0.0.8", 4) (guid_of 8) one_closed fresh

accept_times_drains_example :
    accept_times small 3 (record filled { accept_queue = filled.accept_queue ++ none ∷ [] })
    ≡ ok 0
      ∷ raise (raknet_error (text "peer is closed"))
      ∷ raise (raknet_error (text "peer is closed"))
      ∷ []
accept_times_drains_example =
    accept_times_drains small (0 ∷ []) 2
      (record filled { accept_queue = filled.accept_queue ++ none ∷ [] }) queued

one_queued : one.accept_queue ≡ some 0 ∷ []
unfolding incoming_connection track new_peer
one_queued = refl

serve_forever-returns_example :
    serve_forever small (until_close small 500 (0 ∷ [])) one ≡ (0 ∷ [], returns)
serve_forever-returns_example = serve_forever-returns small 500 (0 ∷ []) one one_closed one_queued

filled_closed : filled.closed ≡ false
unfolding message put_message Mailbox.put Mailbox.is_full incoming_connection track new_peer
    new_connection Mailbox.empty lookup insert
filled_closed = refl

filled_tracked : has 0 (values filled.connections) ≡ true
unfolding message put_message Mailbox.put Mailbox.is_full incoming_connection track new_peer
    new_connection Mailbox.empty lookup insert values has
filled_tracked = refl

filled_exc : (filled.connection_at.at 0).mailbox.exc ≡ none
unfolding message put_message Mailbox.put Mailbox.is_full incoming_connection track new_peer
    new_connection Mailbox.empty lookup insert
filled_exc = refl

close-drains_example :
    let items = (filled.connection_at.at 0).mailbox.items in
    (get_times
      (length items + 2)
      none
      ((close small (λ p. p) 500 filled).connection_at.at 0).mailbox).0
    ≡ map received items ++ replicate 2 (raised (closed_ok "peer closed"))
close-drains_example =
    close-drains small 500 filled 0 2 none filled_closed filled_tracked filled_exc

-- The remote end is lost, and then another packet comes from it.
abbrev dropped : Peer small
dropped = disconnected small (guid_of 7) false filled

dropped-IsValid : IsValid dropped
dropped-IsValid = disconnected-IsValid small (guid_of 7) false filled filled-IsValid

dropped_closed : (dropped.connection_at.at 0).closed ≡ true
unfolding disconnected farewell close_mailbox message put_message Mailbox.put Mailbox.is_full
    incoming_connection track new_peer new_connection Mailbox.empty lookup insert
dropped_closed = refl

dropped_made : 0 < dropped.connection_at.next
unfolding disconnected message put_message Mailbox.put Mailbox.is_full incoming_connection track
    new_peer new_connection Mailbox.empty lookup insert
dropped_made = omega arith

Reach-closed_example :
    let q = pump_round small 0 dropped in
    ((q.connection_at.at 0).closed ≡ true)
    × ((q.connection_at.at 0).mailbox.exc ≡ (dropped.connection_at.at 0).mailbox.exc)
    × IsRestOf (q.connection_at.at 0).mailbox.items (dropped.connection_at.at 0).mailbox.items
    × (send small 0 (1 ∷ []) reliable_ordered high_priority (pos 0) q
        ≡ (raise (connection_closed (Exceptions.closed "connection is closed")), q))
Reach-closed_example =
    Reach-closed small dropped (pump_round small 0 dropped) 0 (1 ∷ []) reliable_ordered
      high_priority (pos 0) dropped-IsValid (next here (pumps 0 dropped)) dropped_made
      dropped_closed

-- A handler that takes a message and is then told that the peer is gone.
abbrev handler : ℕ → Peer small → Option Exception × Peer small
handler r p = (some (connection_closed (closed_ok "peer closed")), message small (guid_of 7) [] p)

handler_alone : ((handler 0 one).1.connection_at.at 0).owns_peer ≡ false
unfolding message put_message Mailbox.put Mailbox.is_full incoming_connection track new_peer
    new_connection Mailbox.empty lookup insert
handler_alone = refl

run_handler-closes_example :
    let (end, self') = run_handler small (λ p. p) handler 0 one in
    ((self'.connection_at.at 0).closed ≡ true)
    × (end ≢ some (connection_closed (closed_ok "peer closed")))
run_handler-closes_example =
    run_handler-closes small (λ p. p) handler 0 one (closed_ok "peer closed") handler_alone

disconnected-closes_example :
    let self' = disconnected small (guid_of 7) false filled in
    IsClosedWith small
      (closed_error "connection lost")
      (filled.connection_at.at 0)
      (self'.connection_at.at 0)
    × (lookup 7 self'.connections ≡ none)
    × (self'.connection_at.at 1 ≡ filled.connection_at.at 1)
disconnected-closes_example =
    disconnected-closes small filled (guid_of 7) false 0 1 filled_found (λ e. omega arith)
