-- ===== src/Peer/Calls/Factories.antt =====
-- `create_connection` and the module function `ping` of src/raknet/_peer.py, which make a peer of
-- their own. The peer that they leave behind is part of the result; there is none where it could
-- not be started.
pub mod Tidy
use raknet_python.Prelude.{ℕ, Bool, true, String, Option, none, some, List}
use raknet_python.Prelude.Objects.{Ref, put_at}
use raknet_python.Raw.Interface.{RakNet}
use raknet_python.Exceptions.{ok, raise}
use raknet_python.Peer.{Pong, Peer}
use raknet_python.Peer.Starting.{client_options, start}
use raknet_python.Peer.Closing.{close}
use raknet_python.Peer.Connecting.{AddressInfo, ConnectCall}
use raknet_python.Peer.Calls.{CallEnd, ends, asserts, waits, connect, ping}

module _ (R : RakNet) where
  -- `connection._owns_peer = True`
  unfoldable pub own : Ref → Peer R → Peer R
  own r self = record self {
    connection_at =
        put_at r (record (self.connection_at.at r) { owns_peer = true }) self.connection_at;
  }

  -- The end of `create_connection`: `except BaseException: peer.close(0)`, or the connection.
  unfoldable pub keep_connection :
      (Peer R → Peer R) → CallEnd Ref × Peer R → CallEnd Ref × Option (Peer R)
  unfolding own close
  keep_connection pump_rest (ends (ok r), peer) = (ends (ok r), some (own r peer))
  keep_connection pump_rest (ends (raise e), peer) =
      (ends (raise e), some (close R pump_rest 0 peer))
  keep_connection pump_rest (asserts, peer) = (asserts, some (close R pump_rest 0 peer))
  keep_connection pump_rest (waits, peer) = (waits, some peer)

  unfoldable pub create_connection :
      Bool
      → (meanwhile later pump_rest : Peer R → Peer R) → ConnectCall
      → Option (List AddressInfo)
      → Option ℕ
      → CallEnd Ref × Option (Peer R)
  unfolding client_options start connect keep_connection
  create_connection timed meanwhile later pump_rest call infos max_queue =
      elim (start R (client_options max_queue)) [
        | raise e ↦ (ends (raise e), none)
        | ok peer ↦
            keep_connection pump_rest (connect R timed meanwhile later pump_rest call infos peer)
      ]

  -- `finally: peer.close(0)`
  unfoldable pub drop_peer :
      (Peer R → Peer R) → CallEnd Pong × Peer R → CallEnd Pong × Option (Peer R)
  unfolding close
  drop_peer pump_rest (ends result, peer) = (ends result, some (close R pump_rest 0 peer))
  drop_peer pump_rest (asserts, peer) = (asserts, some (close R pump_rest 0 peer))
  drop_peer pump_rest (waits, peer) = (waits, some peer)

  unfoldable pub ping_once :
      Bool
      → (meanwhile pump_rest : Peer R → Peer R) → ℕ
      → String
      → ℕ
      → Option (List AddressInfo)
      → CallEnd Pong × Option (Peer R)
  unfolding client_options start ping drop_peer
  ping_once timed meanwhile pump_rest now host port infos = elim (start R (client_options none)) [
    | raise e ↦ (ends (raise e), none)
    | ok peer ↦ drop_peer pump_rest (ping R timed meanwhile now host port infos peer)
  ]
