-- ===== src/Peer/Closing/Onward.antt =====
-- Closing reopens no connection.
use raknet_python.Prelude.{ℕ, Bool, true, false, List, [], ◌∷◌, if◌then◌else◌, Bool-cases, inl, inr}
use raknet_python.Prelude.Objects.{Ref}
use raknet_python.Raw.Interface.{RakNet}
use raknet_python.Exceptions.{ConnectionClosed, closed_ok}
use raknet_python.Peer.{Peer}
use raknet_python.Peer.Sink.Onward.{
  IsOnward-refl, IsOnward-trans, put_at-IsOnward, close_mailbox-Follows, IsOnwardStep,
  drop_connection-IsOnward,
}
use raknet_python.Peer.Closing.{
  Collected, close_connections, finish_close, raw_shutdown, close, fail, close_connection,
  connection_close,
}
use raknet_python.Peer.Closing.Settled.{
  collected, emptied, close_open, close_closed, fail_open, fail_closed,
}
use raknet_python.Peer.Closing.Loops.{finish_close_connection_at}

module _ (R : RakNet) where
  open R use {SystemAddress}

  close_connections-IsOnward :
      (exc : ConnectionClosed) (refs : List Ref) (self : Peer R)
      → IsOnwardStep R self (close_connections R exc refs self)
  unfolding close_connections
  close_connections-IsOnward exc [] self = IsOnward-refl self.connection_at
  close_connections-IsOnward exc (r ∷ refs) self =
      IsOnward-trans self.connection_at _ _
        (put_at-IsOnward r _ self.connection_at
          (close_mailbox-Follows R (self.connection_at.at r) exc))
        (close_connections-IsOnward exc refs _)

  finish_close-IsOnward :
      (state : Collected) (exc : ConnectionClosed) (self : Peer R)
      → IsOnwardStep R self (finish_close R state exc self)
  finish_close-IsOnward state exc self =
      rw (finish_close_connection_at R state exc self)
        (close_connections-IsOnward exc state.connections self)

  pub close-IsOnward : (ms : ℕ) (self : Peer R) → IsOnwardStep R self (close R (λ p. p) ms self)
  unfolding raw_shutdown
  close-IsOnward ms self = elim (Bool-cases self.closed) [
    | inl shut ↦ rw (close_closed R (λ p. p) ms self shut) (IsOnward-refl self.connection_at)
    | inr opened ↦ rw (close_open R (λ p. p) ms self opened) (
        finish_close-IsOnward (collected R self) (closed_ok "peer closed")
          (raw_shutdown R ms (emptied R self)))
  ]

  pub fail-IsOnward :
      (crash : ConnectionClosed) (self : Peer R) → IsOnwardStep R self (fail R crash self)
  unfolding raw_shutdown
  fail-IsOnward crash self = elim (Bool-cases self.closed) [
    | inl shut ↦ rw (fail_closed R crash self shut) (IsOnward-refl self.connection_at)
    | inr opened ↦
        rw (fail_open R crash self opened)
          (finish_close-IsOnward (collected R self) crash (raw_shutdown R 0 (emptied R self)))
  ]

  close_connection-IsOnward :
      (r : Ref) (notify : Bool) (self : Peer R)
      → IsOnwardStep R self (close_connection R r notify self)
  unfolding close_connection
  close_connection-IsOnward r notify self = drop_connection-IsOnward R r _ self

  if-IsOnward :
      (b : Bool) (o p q : Peer R)
      → IsOnwardStep R o p
      → IsOnwardStep R o q
      → IsOnwardStep R o (if b then p else q)
  if-IsOnward true o p q f g = f
  if-IsOnward false o p q f g = g

  pub connection_close-IsOnward :
      (r : Ref) (notify : Bool) (self : Peer R)
      → IsOnwardStep R self (connection_close R (λ p. p) r notify self)
  unfolding connection_close
  connection_close-IsOnward r notify self =
      let shut = (self.connection_at.at r).closed in
      let q : Peer R = if shut then self else close_connection R r notify self in
      let f : IsOnwardStep R self q =
        if-IsOnward shut self self (close_connection R r notify self)
          (IsOnward-refl self.connection_at) (close_connection-IsOnward r notify self) in
      if-IsOnward (q.connection_at.at r).owns_peer self (close R (λ p. p) 500 q) q
        (IsOnward-trans self.connection_at q.connection_at _ f (close-IsOnward 500 q)) f
