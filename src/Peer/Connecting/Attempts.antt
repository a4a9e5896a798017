-- ===== src/Peer/Connecting/Attempts.antt =====
-- How a pending connect is settled.
use raknet_python.Prelude.{
  ==-refl, ◌≡◌, ◌≢◌, refl, true, false, none, some, arith, ◌==◌, nat_eq, string_eq,
}
use raknet_python.Prelude.Dict.{lookup, lookup-erase, lookup-insert}
use raknet_python.Prelude.Objects.{Ref}
use raknet_python.Raw.Interface.{RakNetGuid, RakNet}
use raknet_python.Raw.MessageId.{DefaultMessageIdTypes}
use raknet_python.Exceptions.{message_id, connect_error, ok, raise}
use raknet_python.Peer.{Peer, address_key, new_connection}
use raknet_python.Peer.Sink.{
  connect_succeeded, connect_failed, commit_connect, fail_connect, pop_pending_connect, track,
}
use raknet_python.Peer.Connecting.{ConnectCall, finish_connect}

module _ (R : RakNet) where
  open R use {SystemAddress}

  -- RakNet's report that a connect to a pending address succeeded, for a call that has no reason
  -- of failure, makes a new connection, which is what the waiting `connect` returns; the
  -- connection is in the table under its guid, the event is set, and the pending call leaves its
  -- table.
  pub connect_succeeded-returns :
      (self : Peer R) (call : ConnectCall) (address : SystemAddress) (guid : RakNetGuid)
      (pending : Ref)
      → lookup (address_key R address) self.pending_connects ≡ some pending
      → (self.connect_at.at pending).reason ≡ none
      → let self' = connect_succeeded R address guid self in
        ((self'.connect_at.at pending).event ≡ true)
        × (finish_connect R call (self'.connect_at.at pending) ≡ some (ok self.connection_at.next))
        × (self'.connection_at.at self.connection_at.next ≡ new_connection R self address guid)
        × (lookup guid.g self'.connections ≡ some self.connection_at.next)
        × (lookup (address_key R address) self'.pending_connects ≡ none)
  unfolding connect_succeeded commit_connect pop_pending_connect track finish_connect new_connection
  connect_succeeded-returns self call address guid pending found fresh =
      rw (connect_succeeded, found)
        (
          ground arith,
          ground arith,
          ground arith,
          ground (arith, lookup-insert guid.g guid.g self.connection_at.next self.connections),
          ground (
            arith,
            lookup-erase (address_key R address) (address_key R address) self.pending_connects,
            string_eq.same_iff (address_key R address) (address_key R address),
          ),
        )

  -- RakNet's report that a connect to a pending address failed makes the waiting `connect` raise
  -- `ConnectError` with the host and port of the call and the reported reason. No connection is
  -- made, the pending call leaves its table, and other pending calls are left alone.
  pub connect_failed-raises :
      (self : Peer R) (call : ConnectCall) (address : SystemAddress)
      (reason : DefaultMessageIdTypes) (pending q : Ref)
      → lookup (address_key R address) self.pending_connects ≡ some pending
      → q ≢ pending
      → let self' = connect_failed R address reason self in
        ((self'.connect_at.at pending).event ≡ true)
        × (finish_connect R call (self'.connect_at.at pending)
            ≡ some (raise (connect_error call.host call.port (message_id reason))))
        × (self'.connections ≡ self.connections)
        × (lookup (address_key R address) self'.pending_connects ≡ none)
        × (self'.connect_at.at q ≡ self.connect_at.at q)
  unfolding connect_failed fail_connect pop_pending_connect finish_connect
  connect_failed-raises self call address reason pending q found other =
      rw (connect_failed, found)
        (
          rw (==-refl pending) refl,
          rw (==-refl pending) refl,
          refl,
          rw
              (
                lookup-erase (address_key R address) (address_key R address) self.pending_connects,
                ==-refl (address_key R address),
              )
              refl,
          rw (differs pending q other) refl,
        )
    where
      differs : (p q : Ref) → q ≢ p → (p == q) ≡ false
      differs p q h = ground arith
