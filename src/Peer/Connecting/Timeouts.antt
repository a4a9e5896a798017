-- ===== src/Peer/Connecting/Timeouts.antt =====
-- What a `connect` leaves behind when its time runs out.
use raknet_python.Prelude.{
  ℕ, ◌≡◌, refl, ap, ◌∙◌, Bool, true, false, String, none, some, ==-refl, nat_eq, string_eq,
  Bool-cases, inl, inr,
}
use raknet_python.Prelude.Dict.{lookup, lookup-erase}
use raknet_python.Prelude.Objects.{Ref}
use raknet_python.Raw.Interface.{RakNet}
use raknet_python.Raw.Peer as RawPeer
use raknet_python.Peer.{Peer, close_mailbox}
use raknet_python.Peer.Sink.{drop_connection}
use raknet_python.Peer.Closing.{close_connection, connection_close}
use raknet_python.Peer.Connecting.{withdraw_connect, abandon_connect, reap_connect, give_up_connect}

module _ (R : RakNet) where
  open R use {SystemAddress}

  pub close_connection_lem :
      (r : Ref) (notify : Bool) (self : Peer R)
      → let c = (close_connection R r notify self).connection_at.at r in
        (c.closed ≡ true) × (c.owns_peer ≡ (self.connection_at.at r).owns_peer)
  unfolding close_connection drop_connection close_mailbox
  close_connection_lem r notify self = rw (==-refl r) (refl, refl)

  pub closed-connection_close :
      (pump_rest : Peer R → Peer R) (r : Ref) (notify : Bool) (self : Peer R)
      → (self.connection_at.at r).owns_peer ≡ false
      → ((connection_close R pump_rest r notify self).connection_at.at r).closed ≡ true
  unfolding connection_close
  closed-connection_close pump_rest r notify self alone =
      elim (Bool-cases (self.connection_at.at r).closed) [
        | inl shut ↦ rw (connection_close, shut, alone) shut
        | inr opened ↦
            let (shut, owner) = close_connection_lem r notify self in
            rw (connection_close, opened, owner ∙ alone) shut
      ]

  -- A `connect` whose time runs out while it is pending leaves the table, and its attempt is
  -- cancelled in RakNet; no connection changes.
  give_up_connect-cancels :
      (later pump_rest : Peer R → Peer R) (key ip : String) (port : ℕ) (pending : Ref)
      (self : Peer R)
      → lookup key self.pending_connects ≡ some pending
      → let q = give_up_connect R later pump_rest key ip port pending self in
        (lookup key q.pending_connects ≡ none)
        × (q.raw ≡ RawPeer.cancel_connection_attempt R self.raw (R.system_address ip port))
        × (q.connection_at ≡ self.connection_at)
  unfolding give_up_connect abandon_connect withdraw_connect
  give_up_connect-cancels later pump_rest key ip port pending self found =
      rw (give_up_connect, abandon_connect, found)
        (rw (lookup-erase key key self.pending_connects, ==-refl key) refl, refl, refl)

  pub abandon_connect-gone :
      (key ip : String) (port : ℕ) (self : Peer R)
      → lookup key self.pending_connects ≡ none
      → abandon_connect R key ip port self ≡ (false, withdraw_connect R key self)
  unfolding abandon_connect
  abandon_connect-gone key ip port self gone = rw (abandon_connect, gone) refl

  -- Where the time of a `connect` runs out when its call is no longer in the table, `connect`
  -- waits for the event; if the call then has a connection, and the connection does not own its
  -- peer, `connect` leaves that connection closed.
  pub give_up_connect-reaps :
      (later pump_rest : Peer R → Peer R) (key ip : String) (port : ℕ) (pending r : Ref)
      (self : Peer R)
      → lookup key self.pending_connects ≡ none
      → let waited = later (withdraw_connect R key self) in
        (waited.connect_at.at pending).connection ≡ some r
        → (waited.connection_at.at r).owns_peer ≡ false
        → ((give_up_connect R later pump_rest key ip port pending self).connection_at.at r).closed
          ≡ true
  unfolding give_up_connect reap_connect
  give_up_connect-reaps later pump_rest key ip port pending r self gone made alone =
      ap (λ answer. ((reap_connect R later pump_rest pending answer).connection_at.at r).closed)
        (abandon_connect-gone key ip port self gone)
      ∙ rw (reap_connect, made)
          (closed-connection_close pump_rest r true (later (withdraw_connect R key self)) alone)
