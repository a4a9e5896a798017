-- ===== src/Examples/Answers.antt =====
-- Runs of whole calls of `connect` and `ping`, which RakNet answers with one packet.
use raknet_python.Prelude.{◌≡◌, refl, true, none, some, [], ◌∷◌, arith, nat_eq, string_eq}
use raknet_python.Prelude.Dict.{lookup}
use raknet_python.Raw.Address
use raknet_python.Raw.MessageId.{
  id_connection_request_accepted, id_connection_banned, id_unconnected_pong,
}
use raknet_python.Raw.Peer as RawPeer
use raknet_python.Router.Control.{Control, accepted, banned, enumerator}
use raknet_python.Exceptions.{message_id, connect_error, ok, raise}
use raknet_python.Peer.{Peer, to_address, address_key, pending_key, new_connection}
use raknet_python.Peer.Connecting.{resolve, check_connect, is_started}
use raknet_python.Peer.Pump.{pump_round}
use raknet_python.Peer.Calls.{ends, connect, ping}
use raknet_python.Peer.Calls.Answered.{IsAnswered, connect-returns, connect-raises}
use raknet_python.Peer.Calls.Pinged.{IsPonged, ping-returns}
use raknet_python.Raw.Interface.{Bytes}
use raknet_python.Peer.Starting.{new_peer}
use raknet_python.Examples.Ids.{index, index-Distinct}
use raknet_python.Examples.World.{guid_of, small}
use raknet_python.Examples.Setup.{call, resolved, remote, raw}

-- A new peer that RakNet has a control message for.
abbrev answered_with : Control → Peer small
answered_with c = new_peer small (some 1) (record raw { inbox = (index (enumerator c) ∷ []) ∷ [] })

accepted-IsAnswered :
    IsAnswered small call resolved
      (answered_with accepted)
      "10.0.0.7"
      (index id_connection_request_accepted ∷ [])
      accepted
unfolding new_peer check_connect resolve is_started RawPeer.connect address_key pending_key
    Address.to_string
accepted-IsAnswered = record {
  distinct = index-Distinct;
  checked = refl;
  started = refl;
  got = refl;
  rest = [];
  shape = refl;
  size = refl;
  control = omega arith;
  sender = refl;
}

banned-IsAnswered :
    IsAnswered small call resolved
      (answered_with banned)
      "10.0.0.7"
      (index id_connection_banned ∷ [])
      banned
unfolding new_peer check_connect resolve is_started RawPeer.connect address_key pending_key
    Address.to_string
banned-IsAnswered = record {
  distinct = index-Distinct;
  checked = refl;
  started = refl;
  got = refl;
  rest = [];
  shape = refl;
  size = refl;
  control = omega arith;
  sender = refl;
}

connect-returns_example :
    let (end, q) =
      connect small true
        (pump_round small 0)
        (λ p. p)
        (λ p. p)
        call
        resolved
        (answered_with accepted) in
    let r = (answered_with accepted).connection_at.next in
    (end ≡ ends (ok r))
    × (q.connection_at.at r ≡ new_connection small (answered_with accepted) remote (guid_of 7))
    × (lookup 7 q.connections ≡ some r)
    × (lookup (pending_key small "10.0.0.7" 19132) q.pending_connects ≡ none)
connect-returns_example =
    connect-returns small true (λ p. p) (λ p. p) call resolved 0 (answered_with accepted) "10.0.0.7"
      (index id_connection_request_accepted ∷ []) accepted-IsAnswered

connect-raises_example :
    let (end, q) =
      connect small true
        (pump_round small 0)
        (λ p. p)
        (λ p. p)
        call
        resolved
        (answered_with banned) in
    (end ≡ ends (raise (connect_error "10.0.0.7" 19132 (message_id id_connection_banned))))
    × (q.connections ≡ (answered_with banned).connections)
    × (lookup (pending_key small "10.0.0.7" 19132) q.pending_connects ≡ none)
connect-raises_example =
    connect-raises small true (λ p. p) (λ p. p) call resolved 0 (answered_with banned) "10.0.0.7"
      (index id_connection_banned ∷ []) banned refl banned-IsAnswered

abbrev pong_bytes : Bytes
pong_bytes = index id_unconnected_pong ∷ 0 ∷ 0 ∷ 0 ∷ 0 ∷ 9 ∷ []

abbrev ponged : Peer small
ponged = new_peer small (some 1) (record raw { inbox = pong_bytes ∷ [] })

ponged-IsPonged : IsPonged small 19132 resolved ponged "10.0.0.7" pong_bytes
unfolding new_peer resolve RawPeer.ping address_key pending_key Address.to_string
ponged-IsPonged = record {
  distinct = index-Distinct;
  opened = refl;
  resolved = refl;
  sent = refl;
  got = refl;
  rest = 0 ∷ 0 ∷ 0 ∷ 0 ∷ 9 ∷ [];
  shape = refl;
  size = refl;
  control = omega arith;
  sender = refl;
}

ping-returns_example :
    let (end, q) = ping small true (pump_round small 8) 3 "localhost" 19132 resolved ponged in
    (end
      ≡ ends (
          ok (record {
            address = to_address small remote;
            guid = 7;
            payload = 9 ∷ [];
            round_trip_time = 5;
          })))
    × (lookup (pending_key small "10.0.0.7" 19132) q.pending_pings ≡ none)
ping-returns_example =
    ping-returns small true 3 8 "localhost" 19132 resolved ponged "10.0.0.7" pong_bytes
      ponged-IsPonged
