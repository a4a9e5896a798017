-- ===== src/AsyncPeer/Factories/Tidy.antt =====
-- A factory that is not cancelled while its peer is built leaves no peer running behind the
-- caller's back; one that is does.
use raknet_python.Prelude.{
  ℕ, ◌≡◌, ◌∙◌, refl, ap, Bool, true, false, Option, none, some, List, nat_eq, ==-refl, arith,
  Bool-cases, inl, inr,
}
use raknet_python.Prelude.Objects.{Ref}
use raknet_python.Raw.Enums.{StartupResult}
use raknet_python.Raw.Interface.{RakNet}
use raknet_python.Exceptions.{startup_error, Result-cases, ok, raise}
use raknet_python.Peer.{Peer}
use raknet_python.Peer.Starting.{is_started, new_peer, start, client_options, PeerOptions}
use raknet_python.Peer.Closing
use raknet_python.Peer.Closing.{connection_close}
use raknet_python.Peer.Closing.Settled.{emptied, closed-close}
use raknet_python.Peer.Connecting.{AddressInfo, ConnectCall}
use raknet_python.Peer.Calls.Factories.{own}
use raknet_python.Peer.Calls.Factories.Tidy.{connection_close-owner, started_result, start-raises}
use raknet_python.AsyncPeer.{
  Offload, completes, is_abandoned, finishes, Wait, TaskEnd, ends, asserts, cancelled, suspends,
  connect, close,
}
use raknet_python.AsyncPeer.Factories.{create, after_create, keep_connection, create_connection}

module _ (R : RakNet) where
  -- What is left of the peer: a connection that is returned owns it, and closes it when it is
  -- closed; else it is closed, or it could not be started, which is what the exception says; or the
  -- task goes on.
  abbrev pub IsClean : Bool → TaskEnd Ref × Option (Peer R) → Type 0
  IsClean notify (ends (ok r), some peer) =
      ((peer.connection_at.at r).owns_peer ≡ true)
      × ((connection_close R (λ p. p) r notify peer).closed ≡ true)
  IsClean notify (ends (ok r), none) = ⊥
  IsClean notify (ends (raise e), some peer) = peer.closed ≡ true
  IsClean notify (ends (raise e), none) = (r : StartupResult) × (e ≡ startup_error r)
  IsClean notify (asserts, some peer) = peer.closed ≡ true
  IsClean notify (asserts, none) = ⊥
  IsClean notify (cancelled, some peer) = peer.closed ≡ true
  IsClean notify (cancelled, none) = ⊥
  IsClean notify (suspends, some peer) = Unit
  IsClean notify (suspends, none) = ⊥

  -- `close` does what it does without the event loop.
  close_same :
      (pump_rest : Peer R → Peer R) (ms : ℕ) (self : Peer R)
      → close R finishes pump_rest ms self ≡ Closing.close R pump_rest ms self
  unfolding close Closing.close
  close_same pump_rest ms self = refl

  module _ (pump_rest : Peer R → Peer R)
      (stays : (p : Peer R) → p.closed ≡ true → (pump_rest p).closed ≡ true) where
    closed-close_same : (peer : Peer R) → (close R finishes pump_rest 0 peer).closed ≡ true
    closed-close_same peer =
        ap (λ p. p.closed) (close_same pump_rest 0 peer)
        ∙ closed-close R pump_rest 0 peer (stays (emptied R peer) refl)

    keep_connection-IsClean :
        (notify : Bool) (result : TaskEnd Ref × Peer R)
        → IsClean notify (keep_connection R pump_rest result)
    unfolding keep_connection own
    keep_connection-IsClean notify (ends (ok r), peer) = (
      rw (==-refl r) refl,
      connection_close-owner R r notify (own R r peer) (rw (==-refl r) refl),
    )
    keep_connection-IsClean notify (ends (raise e), peer) = closed-close_same peer
    keep_connection-IsClean notify (asserts, peer) = closed-close_same peer
    keep_connection-IsClean notify (cancelled, peer) = closed-close_same peer
    keep_connection-IsClean notify (suspends, peer) = tt

  opened-start :
      (options : PeerOptions) (peer : Peer R) → start R options ≡ ok peer → peer.closed ≡ false
  unfolding start new_peer
  opened-start options peer h = elim (Bool-cases (is_started (started_result R options))) [
    | inl fine ↦ ground (arith, h)
    | inr failed ↦ absurd (ground (arith, h))
  ]

  -- What a factory leaves that is cancelled while its peer is built: an open peer, or none where
  -- the peer could not be started.
  abbrev pub IsLeft : TaskEnd Ref × Option (Peer R) → Type 0
  IsLeft (cancelled, some peer) = peer.closed ≡ false
  IsLeft (cancelled, none) = Unit
  IsLeft (ends result, left) = ⊥
  IsLeft (asserts, left) = ⊥
  IsLeft (suspends, left) = ⊥

  -- Where the pump thread leaves a closed peer closed, and the task is not cancelled while the peer
  -- is built, `create_connection` leaves nothing behind: a connection that it returns owns its peer,
  -- and closing the connection closes the peer; when it raises or is cancelled, the peer is closed,
  -- or it could not be started and the exception is `StartupError`; it may also go on. If the task
  -- is cancelled while the peer is built, it ends with `CancelledError`, and the peer, if it could
  -- be started, is left open.
  pub create_connection-IsClean :
      (pump_rest : Peer R → Peer R)
      → ((p : Peer R) → p.closed ≡ true → (pump_rest p).closed ≡ true)
      → (notify : Bool) (starting : Offload) (wait : Wait) (meanwhile : Peer R → Peer R)
        (call : ConnectCall) (infos : Option (List AddressInfo)) (max_queue : Option ℕ)
      → IsClean notify
          (create_connection R completes starting wait meanwhile pump_rest call infos max_queue)
        × IsLeft (
            create_connection R is_abandoned starting wait meanwhile pump_rest call infos max_queue)
  unfolding create_connection create after_create
  create_connection-IsClean pump_rest stays notify starting wait meanwhile call infos max_queue =
      elim (Result-cases (start R (client_options max_queue))) [
        | inl (e, failed) ↦
            rw (create_connection, create, failed)
              (start-raises R (client_options max_queue) e failed, tt)
        | inr (peer, started) ↦
            rw (create_connection, create, started)
              (
                keep_connection-IsClean pump_rest stays notify
                    (connect R starting wait meanwhile pump_rest call infos peer),
                opened-start (client_options max_queue) peer started,
              )
      ]
