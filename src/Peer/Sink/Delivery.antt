-- ===== src/Peer/Sink/Delivery.antt =====
-- Where a message that arrives goes, and what becomes of a connection that is lost.
use raknet_python.Prelude.{
  ◌≡◌, ◌≢◌, Bool, if◌then◌else◌, true, false, Option, none, some, [], ◌∷◌, ◌++◌, arith, nat_eq,
}
use raknet_python.Prelude.Dict.{lookup, lookup-erase}
use raknet_python.Prelude.Objects.{Ref}
use raknet_python.Raw.Interface.{Bytes, RakNetGuid, RakNet}
use raknet_python.Exceptions.{ConnectionClosed, closed_ok, closed_error}
use raknet_python.Mailbox
use raknet_python.Peer.{Connection, Peer, close_mailbox}
use raknet_python.Peer.Sink.{
  message, put_message, overflow, drop_connection, disconnected, farewell,
}
use raknet_python.Peer.Sink.Invariant.{IsValid}

-- The exception that a mailbox has once it was closed with one more.
abbrev pub first_exc : Option ConnectionClosed → ConnectionClosed → ConnectionClosed
first_exc none exc = exc
first_exc (some first) exc = first

module _ (R : RakNet) where
  open R use {SystemAddress}

  -- The connection is closed with the exception, unless it has one already; its messages stay.
  abbrev pub IsClosedWith :
      ConnectionClosed → Connection SystemAddress → Connection SystemAddress → Type 0
  IsClosedWith exc c d =
      (d.closed ≡ true)
      × (d.mailbox.items ≡ c.mailbox.items)
      × (d.mailbox.exc ≡ some (first_exc c.mailbox.exc exc))

  -- A message for a connection of the table whose mailbox has room is put behind the messages that
  -- are there; every other connection and the table stay as they are.
  pub message-delivers :
      (self : Peer R) (guid : RakNetGuid) (bytes : Bytes) (r q : Ref)
      → lookup guid.g self.connections ≡ some r
      → Mailbox.is_full (self.connection_at.at r).mailbox ≡ false
      → q ≢ r
      → let self' = message R guid bytes self in
        ((self'.connection_at.at r).mailbox.items
          ≡ (self.connection_at.at r).mailbox.items ++ bytes ∷ [])
        × (self'.connection_at.at q ≡ self.connection_at.at q)
        × (self'.connections ≡ self.connections)
  unfolding message put_message Mailbox.put
  message-delivers self guid bytes r q found room other =
      rw (message, found) (ground arith, ground arith, ground arith)

  -- In a peer that is in order, a message for a connection of the table whose mailbox is full
  -- closes that connection, with the overflow error unless it has an exception already, and takes
  -- it out of the table. Its messages stay and the new one is lost; every other connection stays
  -- as it is.
  pub message-overflows :
      (self : Peer R) (guid : RakNetGuid) (bytes : Bytes) (r q : Ref)
      → IsValid self
      → lookup guid.g self.connections ≡ some r
      → Mailbox.is_full (self.connection_at.at r).mailbox ≡ true
      → q ≢ r
      → let self' = message R guid bytes self in
        IsClosedWith
          (closed_error "receive queue overflow")
          (self.connection_at.at r)
          (self'.connection_at.at r)
        × (lookup guid.g self'.connections ≡ none)
        × (self'.connection_at.at q ≡ self.connection_at.at q)
  unfolding message put_message Mailbox.put overflow drop_connection close_mailbox Mailbox.close
  message-overflows self guid bytes r q valid found full other =
      let named : (self.connection_at.at r).raw_guid.g ≡ guid.g =
        valid.tracked.guid guid.g r found in
      rw (message, found)
        (
          (ground arith, ground arith, ground arith),
          ground (arith, lookup-erase guid.g (self.connection_at.at r).raw_guid.g self.connections),
          ground arith,
        )

  -- When RakNet reports that a connection of the table is gone, the connection leaves the table
  -- and is closed, unless it has an exception already with `ConnectionClosedOK` where the other
  -- side said goodbye, and else with `ConnectionClosedError`. Its messages stay, and so does every
  -- other connection.
  pub disconnected-closes :
      (self : Peer R) (guid : RakNetGuid) (graceful : Bool) (r q : Ref)
      → lookup guid.g self.connections ≡ some r
      → q ≢ r
      → let self' = disconnected R guid graceful self in
        let exc =
          if graceful
          then closed_ok "connection closed by remote"
          else closed_error "connection lost" in
        IsClosedWith exc (self.connection_at.at r) (self'.connection_at.at r)
        × (lookup guid.g self'.connections ≡ none)
        × (self'.connection_at.at q ≡ self.connection_at.at q)
  unfolding disconnected farewell close_mailbox Mailbox.close
  disconnected-closes self guid graceful r q found other =
      rw (disconnected, found)
        (
          (ground arith, ground arith, ground arith),
          ground (arith, lookup-erase guid.g guid.g self.connections),
          ground arith,
        )
