-- ===== src/Peer/Calls.antt =====
-- `connect` and `ping` of src/raknet/_peer.py as a whole. What the other threads do while a call
-- waits is an argument; whether the event is set is asked when the wait is over.
pub mod Factories
pub mod Launched
pub mod Answered
pub mod Pinged
use raknet_python.Prelude.{ℕ, Bool, String, Option, none, some, List, if◌then◌else◌}
use raknet_python.Prelude.Objects.{Ref}
use raknet_python.Raw.Interface.{RakNet}
use raknet_python.Exceptions.{at_address, timeout_error, Result, ok, raise}
use raknet_python.Peer.{Pong, PendingConnect, Peer}
use raknet_python.Peer.Connecting.{
  AddressInfo, ConnectCall, Started, start_connect, finish_connect, give_up_connect,
}
use raknet_python.Peer.Pinging.{start_ping, finish_ping, withdraw_ping}

-- How a call ends: with a value or an exception, by the failure of its `assert`, or not at all,
-- where it has no timeout and nobody sets its event.
pub data CallEnd (A : Type 0) : Type 0 where
  ends : Result A → CallEnd A
  asserts : CallEnd A
  waits : CallEnd A

module _ (R : RakNet) where
  -- `_finish_connect`
  unfoldable pub connected : ConnectCall → PendingConnect → CallEnd Ref
  unfolding finish_connect
  connected call pending = elim (finish_connect R call pending) [
    | none ↦ asserts
    | some result ↦ ends result
  ]

  -- `connect` from the end of its wait on; `timed` tells whether it has a timeout. `later` and
  -- `pump_rest` are those of `give_up_connect`.
  unfoldable pub settle_connect :
      Bool
      → (later pump_rest : Peer R → Peer R) → ConnectCall
      → Started
      → Peer R
      → CallEnd Ref × Peer R
  unfolding connected give_up_connect
  settle_connect timed later pump_rest call (pending, key, ip) self =
      if (self.connect_at.at pending).event
      then (connected call (self.connect_at.at pending), self)
      else if timed
      then (
        ends (raise (timeout_error (at_address "connect to " call.host call.port " timed out"))),
        give_up_connect R later pump_rest key ip call.port pending self,
      )
      else (waits, self)

  -- `connect` behind `_start_connect`; `meanwhile` is what happens during the wait.
  unfoldable pub await_connect :
      Bool
      → (meanwhile later pump_rest : Peer R → Peer R) → ConnectCall
      → Result Started × Peer R
      → CallEnd Ref × Peer R
  unfolding settle_connect
  await_connect timed meanwhile later pump_rest call (raise e, self) = (ends (raise e), self)
  await_connect timed meanwhile later pump_rest call (ok started, self) =
      settle_connect timed later pump_rest call started (meanwhile self)

  unfoldable pub connect :
      Bool
      → (meanwhile later pump_rest : Peer R → Peer R) → ConnectCall
      → Option (List AddressInfo)
      → Peer R
      → CallEnd Ref × Peer R
  unfolding start_connect await_connect
  connect timed meanwhile later pump_rest call infos self =
      await_connect timed meanwhile later pump_rest call (start_connect R call infos self)

  -- `ping` behind `_start_ping`.
  unfoldable pub await_ping :
      Bool → (Peer R → Peer R) → String → ℕ → Result (Ref × String) × Peer R → CallEnd Pong × Peer R
  unfolding finish_ping withdraw_ping
  await_ping timed meanwhile host port (raise e, self) = (ends (raise e), self)
  await_ping timed meanwhile host port (ok (pending, key), self) =
      let waited = meanwhile self in
      if (waited.ping_at.at pending).event
      then (ends (finish_ping R (waited.ping_at.at pending)), waited)
      else if timed
      then (
        ends (raise (timeout_error (at_address "ping to " host port " timed out"))),
        withdraw_ping R key waited,
      )
      else (waits, waited)

  -- `now` is the time at which the call is registered.
  unfoldable pub ping :
      Bool
      → (Peer R → Peer R)
      → ℕ
      → String
      → ℕ
      → Option (List AddressInfo)
      → Peer R
      → CallEnd Pong × Peer R
  unfolding start_ping await_ping
  ping timed meanwhile now host port infos self =
      await_ping timed meanwhile host port (start_ping R now host port infos self)
