-- ===== src/AsyncPeer/Unsettled.antt =====
-- Coroutines that are cancelled while another thread works for them.
use raknet_python.Prelude.{
  ℕ, ◌≡◌, refl, subst, sym, true, false, String, Option, none, some, List, [], ==-refl, nat_eq,
  string_eq,
}
use raknet_python.Prelude.Dict.{lookup, lookup-insert}
use raknet_python.Prelude.Objects.{Ref}
use raknet_python.Raw.Interface.{RakNetGuid, RakNet}
use raknet_python.Mailbox
use raknet_python.Peer.{Peer, address_key, pending_key, new_connection}
use raknet_python.Peer.Sink.{pop_pending_connect, commit_connect, connect_succeeded, track}
use raknet_python.Peer.Closing.{begin_close}
use raknet_python.Peer.Closing.Settled.{collected, emptied}
use raknet_python.Peer.Connecting.{
  AddressInfo, ConnectCall, is_started, check_connect, register_connect,
}
use raknet_python.Exceptions.{ok}
use raknet_python.Peer.Calls.Launched.{attempt, launched, launched_pending, start_connect-started}
use raknet_python.AsyncPeer.{
  Wait, is_abandoned, CloseEnd, stops_at_join, cancelled, connect, after_begin, close,
}

module _ (R : RakNet) where
  open R use {SystemAddress}

  close_open :
      (end : CloseEnd) (pump_rest : Peer R → Peer R) (ms : ℕ) (self : Peer R)
      → self.closed ≡ false
      → close R end pump_rest ms self
        ≡ after_begin R end pump_rest ms (collected R self) (emptied R self)
  unfolding close begin_close
  close_open end pump_rest ms self opened = rw opened refl

  close_shut :
      (end : CloseEnd) (pump_rest : Peer R → Peer R) (ms : ℕ) (self : Peer R)
      → self.closed ≡ true
      → close R end pump_rest ms self ≡ self
  unfolding close begin_close
  close_shut end pump_rest ms self shut = rw shut

  -- `close` is cancelled while it waits for the pump thread, which is between two packets. The peer
  -- is closed and its tables are empty, but nothing that was in them has been told: every
  -- connection and every pending call is as it was, no closing mark is in the accept queue, RakNet
  -- has not been shut down, and each further `close` returns at once and changes nothing.
  pub close-unsettled :
      (again : CloseEnd) (pump_rest : Peer R → Peer R) (ms more : ℕ) (self : Peer R)
      → self.closed ≡ false
      → let left = close R stops_at_join (λ p. p) ms self in
        (left.closed ≡ true)
        × (left.connections ≡ [])
        × (left.pending_connects ≡ [])
        × (left.pending_pings ≡ [])
        × (left.connection_at ≡ self.connection_at)
        × (left.connect_at ≡ self.connect_at)
        × (left.ping_at ≡ self.ping_at)
        × (left.accept_queue ≡ self.accept_queue)
        × (left.raw ≡ self.raw)
        × (close R again pump_rest more left ≡ left)
  unfolding after_begin
  close-unsettled again pump_rest ms more self opened =
      let e = close_open stops_at_join (λ p. p) ms self opened in
      rw e (
        refl,
        refl,
        refl,
        refl,
        refl,
        refl,
        refl,
        refl,
        refl,
        close_shut again pump_rest more (emptied R self) refl,
      )

  -- A pending call that RakNet's acceptance finds in the table, whoever waits for it.
  accepted_open :
      (pending : Ref) (address : SystemAddress) (guid : RakNetGuid) (self : Peer R)
      → lookup (address_key R address) self.pending_connects ≡ some pending
      → let after = connect_succeeded R address guid self in
        let late = after.connection_at.at self.connection_at.next in
        (lookup guid.g after.connections ≡ some self.connection_at.next)
        × (late.closed ≡ false)
        × (late.mailbox.exc ≡ none)
        × (after.accept_queue ≡ self.accept_queue)
  unfolding connect_succeeded pop_pending_connect commit_connect track new_connection Mailbox.empty
  accepted_open pending address guid self found =
      rw
        (
          connect_succeeded,
          found,
          lookup-insert guid.g guid.g self.connection_at.next self.connections,
          ==-refl guid.g,
          ==-refl self.connection_at.next,
        )
        (refl, refl, refl, refl)

  -- `connect` is cancelled while `_start_connect` runs in its thread, and RakNet starts the attempt.
  -- The task ends with `CancelledError`, but the call stays in the table, RakNet has been told
  -- nothing more, and when the remote side accepts, the connection is in the peer's table, open,
  -- with no exception, and no caller of `accept` can get it.
  pub connect-unowned :
      (wait : Wait) (meanwhile pump_rest : Peer R → Peer R) (call : ConnectCall)
      (infos : Option (List AddressInfo)) (ip : String) (address : SystemAddress)
      (guid : RakNetGuid) (self : Peer R)
      → check_connect R call infos self ≡ ok ip
      → is_started (attempt R call ip self).0 ≡ true
      → address_key R address ≡ pending_key R ip call.port
      → let (end, left) = connect R is_abandoned wait meanwhile pump_rest call infos self in
        let after = connect_succeeded R address guid left in
        let late = after.connection_at.at self.connection_at.next in
        (end ≡ cancelled)
        × (lookup (address_key R address) left.pending_connects ≡ some self.connect_at.next)
        × (left.raw ≡ (attempt R call ip self).1)
        × (lookup guid.g after.connections ≡ some self.connection_at.next)
        × (late.closed ≡ false)
        × (late.mailbox.exc ≡ none)
        × (after.accept_queue ≡ self.accept_queue)
  unfolding connect register_connect
  connect-unowned wait meanwhile pump_rest call infos ip address guid self checked started key =
      let found =
        subst (λ k. lookup k (launched R call ip self).pending_connects ≡ some self.connect_at.next)
          (sym key) (launched_pending R call ip self) in
      let (tracked, opened, unended, queue) =
        accepted_open self.connect_at.next address guid (launched R call ip self) found in
      rw (connect, start_connect-started R call infos self ip checked started)
        (refl, found, refl, tracked, opened, unended, queue)
