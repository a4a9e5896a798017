-- ===== src/Peer/Closing/Invariant.antt =====
-- Closing leaves a peer that is in order in order.
use raknet_python.Prelude.{
  ℕ, ◌≡◌, ◌∙◌, refl, Bool, true, false, Option, List, [], ◌∷◌, nat_eq, string_eq, if◌then◌else◌,
  Bool-cases, inl, inr,
}
use raknet_python.Prelude.Dict.{lookup}
use raknet_python.Prelude.Objects.{Ref, Objects}
use raknet_python.Raw.Interface.{RakNet}
use raknet_python.Exceptions.{ConnectionClosed, closed_ok}
use raknet_python.Peer.{Connection, Peer}
use raknet_python.Peer.Tables.{AllAt, Waits, IsTracked}
use raknet_python.Peer.Sink.Invariant.{IsSound, write-IsSound, IsValid, close_mailbox-IsSound}
use raknet_python.Peer.Sink.Preserved.{drop_connection-IsValid}
use raknet_python.Peer.Closing.{
  Collected, close_connections, finish_close, raw_shutdown, close, fail, close_connection,
  connection_close,
}
use raknet_python.Peer.Closing.Settled.{emptied, close_open, close_closed, fail_open, fail_closed}
use raknet_python.Peer.Closing.Loops.{
  finish_close_tables, finish_close_connection_at, finish_close_max_queue,
}

pub nil-Waits : {A : Type 0} (event : A → Bool) (s : Objects A) → Waits event [] s
unfolding lookup
nil-Waits event s = record { made = λ k r h. cc; unset = λ k r h. cc; distinct = λ j k r g h. cc }

pub nil-IsTracked : {A : Type 0} (s : Objects (Connection A)) → IsTracked [] s
unfolding lookup
nil-IsTracked s = record { made = λ g r h. cc; guid = λ g r h. cc; opened = λ g r h. cc }

module _ (R : RakNet) where
  open R use {SystemAddress}

  close_connections-IsSound :
      (cap : Option ℕ) (exc : ConnectionClosed) (refs : List Ref) (self : Peer R)
      → AllAt (IsSound cap) self.connection_at
      → AllAt (IsSound cap) (close_connections R exc refs self).connection_at
  unfolding close_connections
  close_connections-IsSound cap exc [] self h = h
  close_connections-IsSound cap exc (r ∷ refs) self h = close_connections-IsSound cap exc refs _ (
      write-IsSound cap r _ self.connection_at
        (λ made. close_mailbox-IsSound R cap _ exc (h r made)) h)

  -- A peer with empty tables stays in order while `_finish_close` settles what it took from them.
  finish_close-IsValid :
      (state : Collected) (exc : ConnectionClosed) (self : Peer R)
      → self.connections ≡ []
      → self.pending_connects ≡ []
      → self.pending_pings ≡ []
      → AllAt (IsSound self.max_queue) self.connection_at
      → IsValid (finish_close R state exc self)
  finish_close-IsValid state exc self e f g sound =
      let (_, e', f', g', _) = finish_close_tables R state exc self in
      record {
        tracked = rw (e' ∙ e) (nil-IsTracked _);
        sound =
            rw
              (finish_close_connection_at R state exc self, finish_close_max_queue R state exc self)
              (close_connections-IsSound self.max_queue exc state.connections self sound);
        connects = rw (f' ∙ f) (nil-Waits _ _);
        pings = rw (g' ∙ g) (nil-Waits _ _);
      }

  -- Closing a peer that is in order, with the pump thread between two packets, leaves it in order;
  -- so does the end that the pump thread makes of it when it crashes.
  pub close-IsValid :
      (ms : ℕ) (crash : ConnectionClosed) (self : Peer R)
      → IsValid self
      → IsValid (close R (λ p. p) ms self) × IsValid (fail R crash self)
  unfolding raw_shutdown
  close-IsValid ms crash self v = elim (Bool-cases self.closed) [
    | inl shut ↦ rw (close_closed R (λ p. p) ms self shut, fail_closed R crash self shut) (v, v)
    | inr opened ↦
        rw (close_open R (λ p. p) ms self opened, fail_open R crash self opened)
          (
            finish_close-IsValid _ _ (raw_shutdown R ms (emptied R self)) refl refl refl v.sound,
            finish_close-IsValid _ _ (raw_shutdown R 0 (emptied R self)) refl refl refl v.sound,
          )
  ]

  close_connection-IsValid :
      (r : Ref) (notify : Bool) (self : Peer R)
      → IsValid self
      → IsValid (close_connection R r notify self)
  unfolding close_connection
  close_connection-IsValid r notify self v =
      let t = drop_connection-IsValid R r _ self v in
      record { tracked = t.tracked; sound = t.sound; connects = t.connects; pings = t.pings }

  if-IsValid : (b : Bool) (p q : Peer R) → IsValid p → IsValid q → IsValid (if b then p else q)
  if-IsValid true p q v w = v
  if-IsValid false p q v w = w

  -- So does closing a connection, with or without the peer that it owns.
  pub connection_close-IsValid :
      (r : Ref) (notify : Bool) (self : Peer R)
      → IsValid self
      → IsValid (connection_close R (λ p. p) r notify self)
  unfolding connection_close
  connection_close-IsValid r notify self v =
      let shut = (self.connection_at.at r).closed in
      let q : Peer R = if shut then self else close_connection R r notify self in
      let w : IsValid q =
        if-IsValid shut self (close_connection R r notify self) v
          (close_connection-IsValid r notify self v) in
      if-IsValid (q.connection_at.at r).owns_peer (close R (λ p. p) 500 q) q
        (close-IsValid 500 (closed_ok "peer closed") q w).0 w
