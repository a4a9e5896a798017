-- ===== src/Peer/Closing/Loops.antt =====
-- What the three loops of `_finish_close` do to the objects behind their references.
use raknet_python.Prelude.{
  ◌≡◌, refl, ap, ◌∙◌, Bool, true, false, ◌||◌, none, some, List, [], ◌∷◌, ◌++◌, arith, ◌==◌, nat_eq,
  if◌then◌else◌,
}
use raknet_python.Prelude.Objects.{Ref, put_at}
use raknet_python.Raw.Interface.{RakNet}
use raknet_python.Raw.MessageId.{id_connection_attempt_failed}
use raknet_python.Exceptions.{ConnectionClosed}
use raknet_python.Mailbox
use raknet_python.Peer.{Connection, PendingConnect, PendingPing, Peer, close_mailbox}
use raknet_python.Peer.Sink.{fail_connect}
use raknet_python.Peer.Closing.{
  Collected, close_connections, fail_connects, end_pings, finish_close,
}

-- Whether a list of references holds one.
unfoldable pub has : Ref → List Ref → Bool
has r [] = false
has r (q ∷ refs) = q == r || has r refs

-- What a failed pending connect looks like.
abbrev pub failed : PendingConnect → PendingConnect
failed p = record p { reason = some id_connection_attempt_failed; event = true }

abbrev pub ended : PendingPing → PendingPing
ended p = record p { event = true }

module _ (R : RakNet) where
  open R use {SystemAddress}

  -- Closing twice is closing once, since the first exception stays.
  close_mailbox_twice :
      (c : Connection SystemAddress) (e f : ConnectionClosed)
      → close_mailbox R (close_mailbox R c e) f ≡ close_mailbox R c e
  unfolding close_mailbox Mailbox.close
  close_mailbox_twice c e f = ground arith

  close_connections_at :
      (exc : ConnectionClosed) (refs : List Ref) (self : Peer R) (r : Ref)
      → (close_connections R exc refs self).connection_at.at r ≡ (
          if has r refs
          then close_mailbox R (self.connection_at.at r) exc
          else self.connection_at.at r)
  unfolding close_connections has
  close_connections_at exc [] self r = refl
  close_connections_at exc (q ∷ refs) self r = ground (
    arith,
    close_connections_at exc refs
        (record self {
          connection_at =
              put_at q (close_mailbox R (self.connection_at.at q) exc) self.connection_at;
        })
        r,
    close_mailbox_twice (self.connection_at.at r) exc exc,
  )

  close_connections_frame :
      (exc : ConnectionClosed) (refs : List Ref) (self : Peer R)
      → close_connections R exc refs self
        ≡ record self { connection_at = (close_connections R exc refs self).connection_at }
  unfolding close_connections
  close_connections_frame exc [] self = refl
  close_connections_frame exc (q ∷ refs) self = close_connections_frame exc refs _

  fail_connects_at :
      (refs : List Ref) (self : Peer R) (r : Ref)
      → (fail_connects R refs self).connect_at.at r
        ≡ (if has r refs then failed (self.connect_at.at r) else self.connect_at.at r)
  unfolding fail_connects fail_connect has
  fail_connects_at [] self r = refl
  fail_connects_at (q ∷ refs) self r =
      ground (arith, fail_connects_at refs (fail_connect R id_connection_attempt_failed q self) r)

  fail_connects_frame :
      (refs : List Ref) (self : Peer R)
      → fail_connects R refs self
        ≡ record self { connect_at = (fail_connects R refs self).connect_at }
  unfolding fail_connects fail_connect
  fail_connects_frame [] self = refl
  fail_connects_frame (q ∷ refs) self = fail_connects_frame refs _

  end_pings_at :
      (refs : List Ref) (self : Peer R) (r : Ref)
      → (end_pings R refs self).ping_at.at r
        ≡ (if has r refs then ended (self.ping_at.at r) else self.ping_at.at r)
  unfolding end_pings has
  end_pings_at [] self r = refl
  end_pings_at (q ∷ refs) self r = ground (
    arith,
    end_pings_at refs (record self { ping_at = put_at q (ended (self.ping_at.at q)) self.ping_at })
        r,
  )

  end_pings_frame :
      (refs : List Ref) (self : Peer R)
      → end_pings R refs self ≡ record self { ping_at = (end_pings R refs self).ping_at }
  unfolding end_pings
  end_pings_frame [] self = refl
  end_pings_frame (q ∷ refs) self = end_pings_frame refs _

  module _ (state : Collected) (exc : ConnectionClosed) (self : Peer R) where
    abbrev closed_connections : Peer R
    closed_connections = close_connections R exc state.connections self

    abbrev failed_connects : Peer R
    failed_connects = fail_connects R state.pending_connects closed_connections

    a : closed_connections ≡ record self { connection_at = closed_connections.connection_at }
    a = close_connections_frame exc state.connections self

    b : failed_connects ≡ record closed_connections { connect_at = failed_connects.connect_at }
    b = fail_connects_frame state.pending_connects closed_connections

    pub finish_close_objects :
        (r : Ref)
        → let q = finish_close R state exc self in
          (q.connection_at.at r ≡ (
            if has r state.connections
            then close_mailbox R (self.connection_at.at r) exc
            else self.connection_at.at r))
          × (q.connect_at.at r ≡ (
              if has r state.pending_connects
              then failed (self.connect_at.at r)
              else self.connect_at.at r))
          × (q.ping_at.at r ≡ (
              if has r state.pending_pings then ended (self.ping_at.at r) else self.ping_at.at r))
    unfolding finish_close
    finish_close_objects r =
        let c = end_pings_frame state.pending_pings failed_connects in
        (
          ap (λ p. p.connection_at.at r) c
              ∙ ap (λ p. p.connection_at.at r) b
              ∙ close_connections_at exc state.connections self r,
          ap (λ p. p.connect_at.at r) c
              ∙ fail_connects_at state.pending_connects closed_connections r
              ∙ ap
                  (λ p.
                    if has r state.pending_connects
                    then failed (p.connect_at.at r)
                    else p.connect_at.at r)
                  a,
          end_pings_at state.pending_pings failed_connects r
              ∙ ap
                  (λ p.
                    if has r state.pending_pings then ended (p.ping_at.at r) else p.ping_at.at r)
                  b
              ∙ ap
                  (λ p.
                    if has r state.pending_pings then ended (p.ping_at.at r) else p.ping_at.at r)
                  a,
        )

    pub finish_close_tables :
        let q = finish_close R state exc self in
        (q.closed ≡ self.closed)
        × (q.connections ≡ self.connections)
        × (q.pending_connects ≡ self.pending_connects)
        × (q.pending_pings ≡ self.pending_pings)
        × (q.accept_queue ≡ self.accept_queue ++ none ∷ [])
    unfolding finish_close
    finish_close_tables =
        let c = end_pings_frame state.pending_pings failed_connects in
        (
          ap (λ p. p.closed) c ∙ ap (λ p. p.closed) b ∙ ap (λ p. p.closed) a,
          ap (λ p. p.connections) c ∙ ap (λ p. p.connections) b ∙ ap (λ p. p.connections) a,
          ap (λ p. p.pending_connects) c
              ∙ ap (λ p. p.pending_connects) b
              ∙ ap (λ p. p.pending_connects) a,
          ap (λ p. p.pending_pings) c ∙ ap (λ p. p.pending_pings) b ∙ ap (λ p. p.pending_pings) a,
          ap (λ p. p.accept_queue ++ none ∷ []) c
              ∙ ap (λ p. p.accept_queue ++ none ∷ []) b
              ∙ ap (λ p. p.accept_queue ++ none ∷ []) a,
        )

    pub finish_close_connection_at :
        (finish_close R state exc self).connection_at ≡ closed_connections.connection_at
    unfolding finish_close
    finish_close_connection_at =
        let c = end_pings_frame state.pending_pings failed_connects in
        ap (λ p. p.connection_at) c ∙ ap (λ p. p.connection_at) b

    pub finish_close_max_queue : (finish_close R state exc self).max_queue ≡ self.max_queue
    unfolding finish_close
    finish_close_max_queue =
        let c = end_pings_frame state.pending_pings failed_connects in
        ap (λ p. p.max_queue) c ∙ ap (λ p. p.max_queue) b ∙ ap (λ p. p.max_queue) a
