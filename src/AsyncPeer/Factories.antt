-- ===== src/AsyncPeer/Factories.antt =====
-- `create_server`, `create_connection` and the module function `ping` of src/raknet/asyncio.py,
-- which make a peer in another thread. The peer that they leave behind is part of the result; there is none
-- where it could not be started. The `close` of a factory is not cancelled in turn.
pub mod Tidy
use raknet_python.Prelude.{ℕ, String, Option, none, some, List}
use raknet_python.Prelude.Objects.{Ref}
use raknet_python.Raw.Interface.{Bytes, RakNet}
use raknet_python.Exceptions.{ok, raise}
use raknet_python.Peer.{Pong, Peer}
use raknet_python.Peer.Starting.{PeerOptions, server_options, client_options, start}
use raknet_python.Peer.Connecting.{AddressInfo, ConnectCall}
use raknet_python.Peer.Calls.Factories.{own}
use raknet_python.AsyncPeer.{
  Wait, Offload, completes, is_abandoned, never_begins, finishes, TaskEnd, ends, asserts, cancelled,
  suspends, connect, ping, close,
}

module _ (R : RakNet) where
  -- `Peer._create`: what the `await` comes to, and the peer that the thread has built.
  unfoldable pub create : Offload → PeerOptions → TaskEnd (Peer R) × Option (Peer R)
  unfolding start
  create completes options = elim (start R options) [
    | raise e ↦ (ends (raise e), none)
    | ok peer ↦ (ends (ok peer), some peer)
  ]
  create is_abandoned options = elim (start R options) [
    | raise e ↦ (cancelled, none)
    | ok peer ↦ (cancelled, some peer)
  ]
  create never_begins options = (cancelled, none)

  unfoldable pub create_server :
      Offload
      → String × ℕ
      → ℕ
      → Option Bytes
      → Bytes
      → Option ℕ
      → TaskEnd (Peer R) × Option (Peer R)
  unfolding server_options create
  create_server building address max_connections password offline_ping_response max_queue =
      create building
        (server_options address max_connections password offline_ping_response max_queue)

  -- A factory from the end of `_create` on; `rest` is what it does with the peer.
  unfoldable pub after_create :
      {B : Type 0}
      → (Peer R → TaskEnd B × Option (Peer R))
      → TaskEnd (Peer R) × Option (Peer R)
      → TaskEnd B × Option (Peer R)
  after_create rest (ends (ok peer), left) = rest peer
  after_create rest (ends (raise e), left) = (ends (raise e), left)
  after_create rest (asserts, left) = (asserts, left)
  after_create rest (cancelled, left) = (cancelled, left)
  after_create rest (suspends, left) = (suspends, left)

  -- The end of `create_connection`: `except BaseException: await peer.close(0)`, or the connection.
  unfoldable pub keep_connection :
      (Peer R → Peer R) → TaskEnd Ref × Peer R → TaskEnd Ref × Option (Peer R)
  unfolding own close
  keep_connection pump_rest (ends (ok r), peer) = (ends (ok r), some (own R r peer))
  keep_connection pump_rest (ends (raise e), peer) =
      (ends (raise e), some (close R finishes pump_rest 0 peer))
  keep_connection pump_rest (asserts, peer) = (asserts, some (close R finishes pump_rest 0 peer))
  keep_connection pump_rest (cancelled, peer) =
      (cancelled, some (close R finishes pump_rest 0 peer))
  keep_connection pump_rest (suspends, peer) = (suspends, some peer)

  unfoldable pub create_connection :
      (building starting : Offload)
      → Wait
      → (meanwhile pump_rest : Peer R → Peer R) → ConnectCall
      → Option (List AddressInfo)
      → Option ℕ
      → TaskEnd Ref × Option (Peer R)
  unfolding client_options create after_create connect keep_connection
  create_connection building starting wait meanwhile pump_rest call infos max_queue =
      after_create
        (λ peer.
          keep_connection pump_rest (connect R starting wait meanwhile pump_rest call infos peer))
        (create building (client_options max_queue))

  -- `finally: await peer.close(0)`
  unfoldable pub drop_peer :
      (Peer R → Peer R) → TaskEnd Pong × Peer R → TaskEnd Pong × Option (Peer R)
  unfolding close
  drop_peer pump_rest (ends result, peer) = (ends result, some (close R finishes pump_rest 0 peer))
  drop_peer pump_rest (asserts, peer) = (asserts, some (close R finishes pump_rest 0 peer))
  drop_peer pump_rest (cancelled, peer) = (cancelled, some (close R finishes pump_rest 0 peer))
  drop_peer pump_rest (suspends, peer) = (suspends, some peer)

  unfoldable pub ping_once :
      (building starting : Offload)
      → Wait
      → (meanwhile pump_rest : Peer R → Peer R) → ℕ
      → String
      → ℕ
      → Option (List AddressInfo)
      → TaskEnd Pong × Option (Peer R)
  unfolding client_options create after_create ping drop_peer
  ping_once building starting wait meanwhile pump_rest now host port infos =
      after_create
        (λ peer. drop_peer pump_rest (ping R starting wait meanwhile now host port infos peer))
        (create building (client_options none))
