-- ===== src/Examples/Connects.antt =====
-- A thread that waits in `connect` while another one reports that the attempt failed.
use raknet_python.Prelude.{◌<◌, nat_eq, string_eq, ◌≡◌, ◌≢◌, refl, true, none, some, [], ◌∷◌, arith}
use raknet_python.Prelude.Dict.{lookup, insert, erase}
use raknet_python.Raw.Address.{to_string}
use raknet_python.Raw.MessageId.{id_connection_attempt_failed}
use raknet_python.Peer.{address_key}
use raknet_python.Peer.Sink.{pop_pending_connect}
use raknet_python.Peer.Starting.{new_peer}
use raknet_python.Peer.Connecting.{enter_connect, register_connect, finish_connect}
use raknet_python.Peer.Threads.{Block, enters_connect, fails, blames, wakes_connect}
use raknet_python.Peer.Threads.Exec.{exec}
use raknet_python.Peer.Threads.Turns.{Threads, begins, runs, Interleaved, start, later}
use raknet_python.Peer.Threads.Settling.Turns.{Interleaved-settled}
use raknet_python.Examples.World.{small}
use raknet_python.Examples.Setup.{remote, raw, call}
use raknet_python.Examples.Turns.{begun, ran, first}

abbrev enters : Block small
enters = enters_connect (address_key small remote)

abbrev entered : Threads small
entered = ran 0 enters [] (begun 0 enters first)

abbrev failing : Threads small
failing =
    ran 1 (fails remote id_connection_attempt_failed) []
      (begun 1 (fails remote id_connection_attempt_failed) entered)

abbrev woken : Threads small
woken =
    ran 1 (wakes_connect 0) []
      (ran 1 (blames 0 id_connection_attempt_failed) (wakes_connect 0 ∷ []) failing)

entered_path : Interleaved first entered
unfolding exec new_peer enter_connect register_connect insert
entered_path = later (later start (begins 0 enters refl tt)) (runs 0 0 enters [] refl)

failing_path : Interleaved first failing
unfolding exec new_peer enter_connect register_connect insert lookup erase pop_pending_connect
failing_path =
    later (later entered_path (begins 1 (fails remote id_connection_attempt_failed) refl tt))
      (runs 1 0 (fails remote id_connection_attempt_failed) [] refl)

woken_path : Interleaved first woken
unfolding exec new_peer enter_connect register_connect insert lookup erase address_key
    pop_pending_connect to_string
woken_path =
    later
      (later failing_path
        (runs 1 0 (blames 0 id_connection_attempt_failed) (wakes_connect 0 ∷ []) refl))
      (runs 1 0 (wakes_connect 0) [] refl)

woken_made : 0 < woken.peer.connect_at.next
unfolding exec new_peer enter_connect register_connect insert lookup erase address_key
    pop_pending_connect to_string
woken_made = omega arith

woken_set : (woken.peer.connect_at.at 0).event ≡ true
unfolding exec new_peer enter_connect register_connect insert lookup erase address_key
    pop_pending_connect to_string
woken_set = refl

Interleaved-settled_example : finish_connect small call (woken.peer.connect_at.at 0) ≢ none
Interleaved-settled_example =
    Interleaved-settled small (some 1) raw woken 0 call woken_path woken_made woken_set
