-- ===== src/Peer/Closing/Settled.antt =====
-- What closing a peer leaves behind.
use raknet_python.Prelude.{
  ℕ, ◌≡◌, ◌∙◌, ap, refl, Option, some, Bool-cases, inl, inr, true, false, none, [], ◌∷◌, ◌++◌,
  if◌then◌else◌,
}
use raknet_python.Prelude.Dict.{values}
use raknet_python.Prelude.Objects.{Ref}
use raknet_python.Raw.Interface.{RakNet}
use raknet_python.Exceptions.{ConnectionClosed, closed_ok}
use raknet_python.Mailbox
use raknet_python.Peer.{Connection, Peer, close_mailbox}
use raknet_python.Peer.Sink.Delivery.{first_exc}
use raknet_python.Peer.Closing.{Collected, finish_close, raw_shutdown, close, fail}
use raknet_python.Peer.Closing.Loops.{has, failed, ended, finish_close_objects, finish_close_tables}

module _ (R : RakNet) where
  open R use {SystemAddress}

  -- The state that `_begin_close` takes from an open peer.
  abbrev pub collected : Peer R → Collected
  collected self = record {
    connections = values self.connections;
    pending_connects = values self.pending_connects;
    pending_pings = values self.pending_pings;
  }

  -- A connection that is closed with the exception, unless it has one already; its messages stay.
  abbrev pub closed_as : ConnectionClosed → Connection SystemAddress → Connection SystemAddress
  closed_as exc c = record c {
    closed = true;
    mailbox = record c.mailbox { exc = some (first_exc c.mailbox.exc exc) };
  }

  first_exc_lem :
      (old : Option ConnectionClosed) (exc : ConnectionClosed)
      → elim old [ none ↦ some exc | some first ↦ some first ] ≡ some (first_exc old exc)
  first_exc_lem none exc = refl
  first_exc_lem (some first) exc = refl

  close_mailbox_lem :
      (exc : ConnectionClosed) (c : Connection SystemAddress)
      → close_mailbox R c exc ≡ closed_as exc c
  unfolding close_mailbox Mailbox.close
  close_mailbox_lem exc c =
      ap (λ e. record c { closed = true; mailbox = record c.mailbox { exc = e } })
        (first_exc_lem c.mailbox.exc exc)

  -- The objects behind the references: the connections of the peer's table are closed with the
  -- exception, the pending connects fail, the pending pings end, and nothing else changes.
  abbrev pub IsSettledAt : ConnectionClosed → Peer R → Peer R → Ref → Type 0
  IsSettledAt exc self q r =
      (q.connection_at.at r ≡ (
        if has r (values self.connections)
        then closed_as exc (self.connection_at.at r)
        else self.connection_at.at r))
      × (q.connect_at.at r ≡ (
          if has r (values self.pending_connects)
          then failed (self.connect_at.at r)
          else self.connect_at.at r))
      × (q.ping_at.at r ≡ (
          if has r (values self.pending_pings)
          then ended (self.ping_at.at r)
          else self.ping_at.at r))

  -- The peer is closed with empty tables, and the closing mark ends its accept queue.
  abbrev pub IsEmptied : Peer R → Peer R → Type 0
  IsEmptied self q =
      (q.closed ≡ true)
      × (q.connections ≡ [])
      × (q.pending_connects ≡ [])
      × (q.pending_pings ≡ [])
      × (q.accept_queue ≡ self.accept_queue ++ none ∷ [])

  -- What `_begin_close` leaves of an open peer.
  abbrev pub emptied : Peer R → Peer R
  emptied self = record self {
    closed = true;
    connections = [];
    pending_connects = [];
    pending_pings = [];
  }

  pub close_open :
      (pump_rest : Peer R → Peer R) (ms : ℕ) (self : Peer R)
      → self.closed ≡ false
      → close R pump_rest ms self
        ≡ finish_close R
            (collected self)
            (closed_ok "peer closed")
            (raw_shutdown R ms (pump_rest (emptied self)))
  unfolding close
  close_open pump_rest ms self opened = rw opened

  -- Where the pump thread is between two packets, closing an open peer empties its tables, puts the
  -- closing mark behind the connections that wait to be accepted, closes every connection of the
  -- table with `ConnectionClosedOK` unless it has another exception already, fails every pending
  -- connect, ends every pending ping, and touches no other object.
  pub close-settles :
      (ms : ℕ) (self : Peer R) (r : Ref)
      → self.closed ≡ false
      → let q = close R (λ p. p) ms self in
        IsEmptied self q × IsSettledAt (closed_ok "peer closed") self q r
  unfolding raw_shutdown
  close-settles ms self r opened = rw (close_open (λ p. p) ms self opened) (
      let exc = closed_ok "peer closed" in
      let c = self.connection_at.at r in
      let shut = raw_shutdown R ms (emptied self) in
      let (connection, connects, pings) = finish_close_objects R (collected self) exc shut r in
      (
        finish_close_tables R (collected self) exc shut,
        (
          connection
              ∙ ap (λ d. if has r (values self.connections) then d else c)
                  (close_mailbox_lem exc c),
          connects,
          pings,
        ),
      ))

  pub fail_open :
      (crash : ConnectionClosed) (self : Peer R)
      → self.closed ≡ false
      → fail R crash self ≡ finish_close R (collected self) crash (raw_shutdown R 0 (emptied self))
  unfolding fail
  fail_open crash self opened = rw opened

  pub close_closed :
      (pump_rest : Peer R → Peer R) (ms : ℕ) (self : Peer R)
      → self.closed ≡ true
      → close R pump_rest ms self ≡ self
  unfolding close
  close_closed pump_rest ms self shut = rw shut

  pub fail_closed :
      (crash : ConnectionClosed) (self : Peer R) → self.closed ≡ true → fail R crash self ≡ self
  unfolding fail
  fail_closed crash self shut = rw shut

  pub closed-close :
      (pump_rest : Peer R → Peer R) (ms : ℕ) (self : Peer R)
      → (pump_rest (emptied self)).closed ≡ true
      → (close R pump_rest ms self).closed ≡ true
  unfolding raw_shutdown
  closed-close pump_rest ms self still = elim (Bool-cases self.closed) [
    | inl shut ↦ rw (close_closed pump_rest ms self shut) shut
    | inr opened ↦ rw (close_open pump_rest ms self opened) (
        (finish_close_tables R (collected self) (closed_ok "peer closed")
          (raw_shutdown R ms (pump_rest (emptied self)))).0
        ∙ still)
  ]

  -- If what the pump thread does while `close` waits for it leaves the peer closed, the peer is
  -- closed afterwards, a second `close` changes nothing, and neither does a crash of the pump thread.
  close_twice :
      (pump_rest later_rest : Peer R → Peer R) (ms later_ms : ℕ) (crash : ConnectionClosed)
      (self : Peer R)
      → (pump_rest (emptied self)).closed ≡ true
      → let q = close R pump_rest ms self in
        (q.closed ≡ true) × (close R later_rest later_ms q ≡ q) × (fail R crash q ≡ q)
  close_twice pump_rest later_rest ms later_ms crash self still =
      let shut = closed-close pump_rest ms self still in
      (
        shut,
        close_closed later_rest later_ms (close R pump_rest ms self) shut,
        fail_closed crash (close R pump_rest ms self) shut,
      )
