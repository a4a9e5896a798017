-- ===== src/Peer/Calls/Launched.antt =====
-- A `connect` that has started its attempt, and one whose event is set.
use raknet_python.Prelude.{
  ◌≡◌, ◌∙◌, refl, ap, Bool, true, String, Option, none, some, List, ==-refl, nat_eq, string_eq,
}
use raknet_python.Prelude.Dict.{lookup, lookup-insert}
use raknet_python.Prelude.Objects.{Ref}
use raknet_python.Raw.Interface.{RakNet}
use raknet_python.Raw.Enums.{ConnectionAttemptResult}
use raknet_python.Raw.Peer as RawPeer
use raknet_python.Exceptions.{Result, ok}
use raknet_python.Peer.{Peer, pending_key}
use raknet_python.Peer.Connecting.{
  AddressInfo, ConnectCall, password_or_empty, is_started, check_connect, register_connect,
  launch_connect, launch_entered, start_connect, finish_connect,
}
use raknet_python.Peer.Connecting.Starts.{check_connect-opened, enter_connect-open}
use raknet_python.Peer.Calls.{ends, connected, settle_connect, await_connect, connect}

module _ (R : RakNet) where
  open R use {PacketPtr, RakPeerInterface}

  -- What RakNet answers to the start of the attempt.
  abbrev pub attempt : ConnectCall → String → Peer R → ConnectionAttemptResult × RakPeerInterface
  attempt call ip self =
      RawPeer.connect R self.raw ip call.port (password_or_empty call.password) 0 call.attempts
        call.attempt_interval_ms 0

  -- The peer once the attempt is under way.
  abbrev pub launched : ConnectCall → String → Peer R → Peer R
  launched call ip self = record (register_connect R (pending_key R ip call.port) self) {
    raw = (attempt call ip self).1;
  }

  launch_connect-started :
      (call : ConnectCall) (ip : String) (self : Peer R)
      → is_started (attempt call ip self).0 ≡ true
      → let key = pending_key R ip call.port in
        launch_connect R call ip key self.connect_at.next (register_connect R key self)
        ≡ (ok (self.connect_at.next, key, ip), launched call ip self)
  unfolding launch_connect register_connect
  launch_connect-started call ip self started = rw started refl

  pub start_connect-started :
      (call : ConnectCall) (infos : Option (List AddressInfo)) (self : Peer R) (ip : String)
      → check_connect R call infos self ≡ ok ip
      → is_started (attempt call ip self).0 ≡ true
      → start_connect R call infos self
        ≡ (ok (self.connect_at.next, pending_key R ip call.port, ip), launched call ip self)
  unfolding start_connect launch_entered
  start_connect-started call infos self ip checked started =
      let key = pending_key R ip call.port in
      rw (start_connect, checked)
        (ap (launch_entered R call ip key)
            (enter_connect-open R key self (check_connect-opened R call infos self ip checked))
          ∙ launch_connect-started call ip self started)

  settle_connect-set :
      (timed : Bool) (later pump_rest : Peer R → Peer R) (call : ConnectCall) (pending : Ref)
      (key ip : String) (self : Peer R) (result : Result Ref)
      → (self.connect_at.at pending).event ≡ true
      → finish_connect R call (self.connect_at.at pending) ≡ some result
      → settle_connect R timed later pump_rest call (pending, key, ip) self ≡ (ends result, self)
  unfolding settle_connect connected
  settle_connect-set timed later pump_rest call pending key ip self result set finished =
      rw (settle_connect, set, connected, finished) refl

  pub launched_pending :
      (call : ConnectCall) (ip : String) (self : Peer R)
      → lookup (pending_key R ip call.port) (launched call ip self).pending_connects
        ≡ some self.connect_at.next
  unfolding register_connect
  launched_pending call ip self =
      let key = pending_key R ip call.port in
      rw (lookup-insert key key self.connect_at.next self.pending_connects, ==-refl key) refl

  pub launched_fresh :
      (call : ConnectCall) (ip : String) (self : Peer R)
      → ((launched call ip self).connect_at.at self.connect_at.next).reason ≡ none
  unfolding register_connect
  launched_fresh call ip self = rw (==-refl self.connect_at.next) refl

  pub launched_rest :
      (call : ConnectCall) (ip : String) (self : Peer R)
      → ((launched call ip self).closed ≡ self.closed)
        × ((launched call ip self).connection_at ≡ self.connection_at)
        × ((launched call ip self).connections ≡ self.connections)
  unfolding register_connect
  launched_rest call ip self = (refl, refl, refl)

  pub await_connect-set :
      (timed : Bool) (meanwhile later pump_rest : Peer R → Peer R) (call : ConnectCall)
      (infos : Option (List AddressInfo)) (self : Peer R) (ip : String) (result : Result Ref)
      (q : Peer R)
      → check_connect R call infos self ≡ ok ip
      → is_started (attempt call ip self).0 ≡ true
      → meanwhile (launched call ip self) ≡ q
      → (q.connect_at.at self.connect_at.next).event ≡ true
      → finish_connect R call (q.connect_at.at self.connect_at.next) ≡ some result
      → connect R timed meanwhile later pump_rest call infos self ≡ (ends result, q)
  unfolding connect await_connect
  await_connect-set timed meanwhile later pump_rest call infos self ip result q checked started
        comes set finished =
      ap (await_connect R timed meanwhile later pump_rest call)
        (start_connect-started call infos self ip checked started)
      ∙ ap
          (settle_connect R timed later pump_rest call
            (self.connect_at.next, pending_key R ip call.port, ip))
          comes
      ∙ settle_connect-set timed later pump_rest call self.connect_at.next
          (pending_key R ip call.port) ip q result set finished
