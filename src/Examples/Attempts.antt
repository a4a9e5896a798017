-- ===== src/Examples/Attempts.antt =====
-- Runs of pending connects and pings on the small RakNet.
use raknet_python.Prelude.{◌+◌, ◌≡◌, ◌≢◌, refl, true, false, none, some, nat_eq, string_eq}
use raknet_python.Prelude.Dict.{erase, lookup, insert}
use raknet_python.Raw.Address
use raknet_python.Peer.{Peer, address_key, new_connection}
use raknet_python.Peer.Sink.{commit_connect, pop_pending_connect, track, connect_succeeded}
use raknet_python.Peer.Connecting.{withdraw_connect, give_up_connect, register_connect}
use raknet_python.Peer.Connecting.Clash.{register_connect-orphans}
use raknet_python.Peer.Starting.{new_peer}
use raknet_python.Examples.World.{guid_of, small}
use raknet_python.Peer.Connecting.Timeouts.{give_up_connect-reaps}
use raknet_python.Examples.Setup.{remote, new, new-IsValid}

-- It waits for a connect to `remote`.
abbrev waiting : Peer small
waiting = register_connect small "10.0.0.7" new

register_connect-orphans_example :
    let first = new.connect_at.next in
    let twice = register_connect small "10.0.0.7" waiting in
    (lookup "10.0.0.7" twice.pending_connects ≡ some (first + 1))
    × (lookup "10.0.0.9" twice.pending_connects ≢ some first)
    × ((twice.connect_at.at first).event ≡ false)
register_connect-orphans_example =
    register_connect-orphans small new "10.0.0.7" "10.0.0.9" new-IsValid

-- The pump has just settled the connect.
abbrev settled : Peer small
settled = connect_succeeded small remote (guid_of 7) waiting

settled_gone : lookup "10.0.0.7" settled.pending_connects ≡ none
unfolding connect_succeeded commit_connect pop_pending_connect track register_connect new_peer
    lookup insert erase address_key Address.to_string
settled_gone = refl

settled_made : ((withdraw_connect small "10.0.0.7" settled).connect_at.at 0).connection ≡ some 0
unfolding withdraw_connect connect_succeeded commit_connect pop_pending_connect track
    register_connect new_peer lookup insert erase address_key Address.to_string
settled_made = refl

settled_alone : ((withdraw_connect small "10.0.0.7" settled).connection_at.at 0).owns_peer ≡ false
unfolding withdraw_connect connect_succeeded commit_connect pop_pending_connect track
    register_connect new_peer new_connection lookup insert erase address_key Address.to_string
settled_alone = refl

give_up_connect-reaps_example :
    ((give_up_connect small
        (λ p. p)
        (λ p. p)
        "10.0.0.7"
        "10.0.0.7"
        19132
        0
        settled).connection_at.at
      0).closed
    ≡ true
give_up_connect-reaps_example =
    give_up_connect-reaps small (λ p. p) (λ p. p) "10.0.0.7" "10.0.0.7" 19132 0 0 settled
      settled_gone settled_made settled_alone
