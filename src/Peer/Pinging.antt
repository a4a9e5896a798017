-- ===== src/Peer/Pinging.antt =====
-- `ping` of src/raknet/_peer.py, by its blocks under the lock.
pub mod Answers
use raknet_python.Prelude.{ℕ, false, String, Option, none, some, List, string_eq, if◌then◌else◌}
use raknet_python.Prelude.Dict.{insert, erase}
use raknet_python.Prelude.Objects.{Ref, alloc}
use raknet_python.Raw.Interface.{RakNet}
use raknet_python.Raw.Peer as RawPeer
use raknet_python.Exceptions.{text, at_host, at_address, raknet_error, Result, ok, raise}
use raknet_python.Peer.{Pong, PendingPing, Peer, pending_key}
use raknet_python.Peer.Connecting.{AddressInfo, resolve}

module _ (R : RakNet) where
  unfoldable pub register_ping : ℕ → String → Peer R → Peer R
  unfolding insert
  register_ping now key self = record self {
    ping_at = alloc (record { event = false; pong = none; started = now }) self.ping_at;
    pending_pings = insert key self.ping_at.next self.pending_pings;
  }

  -- `self._pending_pings.pop(key, None)`, also when the wait runs out.
  unfoldable pub withdraw_ping : String → Peer R → Peer R
  unfolding erase
  withdraw_ping key self = record self { pending_pings = erase key self.pending_pings }

  -- The block of `_start_ping` under the lock, which looks at `_closed` again.
  unfoldable pub enter_ping : ℕ → String → Peer R → Result Ref × Peer R
  unfolding register_ping
  enter_ping now key self =
      if self.closed
      then (raise (raknet_error (text "peer is closed")), self)
      else (ok self.ping_at.next, register_ping now key self)

  -- `_start_ping` behind that block: the request is sent, or the call is withdrawn.
  unfoldable pub launch_ping :
      String → ℕ → String → String → Result Ref × Peer R → Result (Ref × String) × Peer R
  unfolding withdraw_ping
  launch_ping host port ip key (raise e, self) = (raise e, self)
  launch_ping host port ip key (ok pending, self) =
      let (sent, raw) = RawPeer.ping R self.raw ip port false 0 in
      if sent then (ok (pending, key), record self { raw = raw }) else (
        raise (raknet_error (at_address "ping to " host port " failed")),
        withdraw_ping key (record self { raw = raw }),
      )

  -- `_start_ping` where no other thread comes between its blocks. `f"cannot resolve {host}"` has no
  -- port.
  unfoldable pub start_ping :
      ℕ → String → ℕ → Option (List AddressInfo) → Peer R → Result (Ref × String) × Peer R
  unfolding resolve pending_key enter_ping launch_ping
  start_ping now host port infos self =
      if self.closed
      then (raise (raknet_error (text "peer is closed")), self)
      else elim (resolve infos) [
        | none ↦ (raise (raknet_error (at_host "cannot resolve " host)), self)
        | some ip ↦
            let key = pending_key R ip port in
            launch_ping host port ip key (enter_ping now key self)
      ]

  -- `_finish_ping`
  unfoldable pub finish_ping : PendingPing → Result Pong
  finish_ping pending = elim pending.pong [
    | none ↦ raise (raknet_error (text "peer is closed"))
    | some pong ↦ ok pong
  ]
