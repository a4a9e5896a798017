-- ===== src/AsyncPeer/Misses.antt =====
-- A `connect` that is cancelled while the pump thread settles it.
use raknet_python.Prelude.{
  ℕ, ◌≡◌, ◌∙◌, refl, ap, false, String, none, some, ==-refl, nat_eq, string_eq,
}
use raknet_python.Prelude.Dict.{lookup, lookup-erase, lookup-insert}
use raknet_python.Prelude.Objects.{Ref}
use raknet_python.Raw.Interface.{RakNetGuid, RakNet}
use raknet_python.Mailbox
use raknet_python.Peer.{Peer, address_key, new_connection}
use raknet_python.Peer.Sink.{pop_pending_connect, commit_connect, track}
use raknet_python.Peer.Connecting.{withdraw_connect}
use raknet_python.Peer.Connecting.Timeouts.{abandon_connect-gone}
use raknet_python.AsyncPeer.{reap_cancelled, cancel_connect}

module _ (R : RakNet) where
  open R use {SystemAddress}

  -- With no entry and no connection there is nothing to do but to take the key out once more.
  cancel_connect-gone :
      (pump_rest : Peer R → Peer R) (key ip : String) (port : ℕ) (pending : Ref) (self : Peer R)
      → lookup key self.pending_connects ≡ none
      → (self.connect_at.at pending).connection ≡ none
      → cancel_connect R pump_rest key ip port pending self ≡ withdraw_connect R key self
  unfolding cancel_connect reap_cancelled withdraw_connect
  cancel_connect-gone pump_rest key ip port pending self gone unmade =
      ap (reap_cancelled R pump_rest pending) (abandon_connect-gone R key ip port self gone)
      ∙ rw (reap_cancelled, unmade) refl

  -- The pump thread takes the call of a `connect` out of the table; `connect` is cancelled; then
  -- the pump thread commits the connection. The connection is in the peer's table, open, with no
  -- exception, and no caller of `accept` can get it.
  pub cancel_connect-misses :
      (pump_rest : Peer R → Peer R) (ip : String) (port : ℕ) (pending : Ref)
      (address : SystemAddress) (guid : RakNetGuid) (self : Peer R)
      → (self.connect_at.at pending).connection ≡ none
      → let key = address_key R address in
        let popped = pop_pending_connect R address self in
        let after =
          commit_connect R address guid pending
            (cancel_connect R pump_rest key ip port pending popped) in
        let late = after.connection_at.at self.connection_at.next in
        (lookup guid.g after.connections ≡ some self.connection_at.next)
        × (late.closed ≡ false)
        × (late.mailbox.exc ≡ none)
        × (after.accept_queue ≡ self.accept_queue)
  unfolding pop_pending_connect commit_connect track new_connection Mailbox.empty withdraw_connect
  cancel_connect-misses pump_rest ip port pending address guid self unmade =
      let key = address_key R address in
      let popped = pop_pending_connect R address self in
      rw
        (
          cancel_connect-gone pump_rest key ip port pending popped
              (rw (lookup-erase key key self.pending_connects, ==-refl key) refl) unmade,
          lookup-insert guid.g guid.g self.connection_at.next self.connections,
          ==-refl guid.g,
        )
        (
          refl,
          rw (==-refl self.connection_at.next) refl,
          rw (==-refl self.connection_at.next) refl,
          refl,
        )
