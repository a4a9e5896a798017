-- ===== src/Peer/Calls/Factories/Tidy.antt =====
-- The factories leave no peer running behind the caller's back.
use raknet_python.Prelude.{
  arith, ℕ, ◌≡◌, ◌∙◌, refl, Bool, true, String, Option, none, some, List, ==-refl, nat_eq,
  Bool-cases, inl, inr,
}
use raknet_python.Prelude.Objects.{Ref}
use raknet_python.Prelude.Int.{negsuc}
use raknet_python.Raw.Enums.{StartupResult}
use raknet_python.Raw.Peer as RawPeer
use raknet_python.Raw.Interface.{RakNet}
use raknet_python.Exceptions.{Exception, startup_error, Result-cases, ok, raise}
use raknet_python.Peer.{Pong, Peer}
use raknet_python.Peer.Starting.{PeerOptions, is_started, descriptors, start, client_options}
use raknet_python.Peer.Closing.{close, close_connection, connection_close}
use raknet_python.Peer.Closing.Settled.{emptied, closed-close}
use raknet_python.Peer.Connecting.{AddressInfo, ConnectCall}
use raknet_python.Peer.Connecting.Timeouts.{close_connection_lem}
use raknet_python.Peer.Calls.{CallEnd, ends, asserts, waits, connect, ping}
use raknet_python.Peer.Calls.Factories.{
  own, keep_connection, create_connection, drop_peer, ping_once,
}

module _ (R : RakNet) where
  -- Closing a connection that owns its peer closes the peer.
  pub connection_close-owner :
      (r : Ref) (notify : Bool) (self : Peer R)
      → (self.connection_at.at r).owns_peer ≡ true
      → (connection_close R (λ p. p) r notify self).closed ≡ true
  unfolding connection_close
  connection_close-owner r notify self owner = elim (Bool-cases (self.connection_at.at r).closed) [
    | inl shut ↦ rw (connection_close, shut, owner) (closed-close R (λ p. p) 500 self refl)
    | inr opened ↦
        let (_, kept) = close_connection_lem R r notify self in
        rw (connection_close, opened, kept ∙ owner)
          (closed-close R (λ p. p) 500 (close_connection R r notify self) refl)
  ]

  -- What is left of the peer: a connection that is returned owns it, and closes it when it is
  -- closed; else it is closed, or it could not be started, which
  -- is what the exception says; or the call goes on.
  abbrev pub IsTidy : Bool → CallEnd Ref × Option (Peer R) → Type 0
  IsTidy notify (ends (ok r), some peer) =
      ((peer.connection_at.at r).owns_peer ≡ true)
      × ((connection_close R (λ p. p) r notify peer).closed ≡ true)
  IsTidy notify (ends (ok r), none) = ⊥
  IsTidy notify (ends (raise e), some peer) = peer.closed ≡ true
  IsTidy notify (ends (raise e), none) = (r : StartupResult) × (e ≡ startup_error r)
  IsTidy notify (asserts, some peer) = peer.closed ≡ true
  IsTidy notify (asserts, none) = ⊥
  IsTidy notify (waits, some peer) = Unit
  IsTidy notify (waits, none) = ⊥

  abbrev IsGone : CallEnd Pong × Option (Peer R) → Type 0
  IsGone (ends result, some peer) = peer.closed ≡ true
  IsGone (ends (raise e), none) = (r : StartupResult) × (e ≡ startup_error r)
  IsGone (ends (ok pong), none) = ⊥
  IsGone (asserts, some peer) = peer.closed ≡ true
  IsGone (asserts, none) = ⊥
  IsGone (waits, some peer) = Unit
  IsGone (waits, none) = ⊥

  abbrev pub started_result : PeerOptions → StartupResult
  started_result options =
      (RawPeer.startup R (RawPeer.rak_peer R) options.max_connections
        (descriptors R options.addresses) (negsuc 99998)).0

  pub start-raises :
      (options : PeerOptions) (e : Exception)
      → start R options ≡ raise e
      → (r : StartupResult) × (e ≡ startup_error r)
  unfolding start is_started
  start-raises options e h = elim (Bool-cases (is_started (started_result options))) [
    | inl fine ↦ absurd (ground arith)
    | inr failed ↦ (started_result options, ground arith)
  ]

  module _ (pump_rest : Peer R → Peer R)
      (stays : (p : Peer R) → p.closed ≡ true → (pump_rest p).closed ≡ true) where
    closed-close_rest : (peer : Peer R) → (close R pump_rest 0 peer).closed ≡ true
    closed-close_rest peer = closed-close R pump_rest 0 peer (stays (emptied R peer) refl)

    keep_connection-IsTidy :
        (notify : Bool) (result : CallEnd Ref × Peer R)
        → IsTidy notify (keep_connection R pump_rest result)
    unfolding keep_connection own
    keep_connection-IsTidy notify (ends (ok r), peer) =
        (rw (==-refl r) refl, connection_close-owner r notify (own R r peer) (rw (==-refl r) refl))
    keep_connection-IsTidy notify (ends (raise e), peer) = closed-close_rest peer
    keep_connection-IsTidy notify (asserts, peer) = closed-close_rest peer
    keep_connection-IsTidy notify (waits, peer) = tt

    drop_peer-IsGone : (result : CallEnd Pong × Peer R) → IsGone (drop_peer R pump_rest result)
    unfolding drop_peer
    drop_peer-IsGone (ends (ok pong), peer) = closed-close_rest peer
    drop_peer-IsGone (ends (raise e), peer) = closed-close_rest peer
    drop_peer-IsGone (asserts, peer) = closed-close_rest peer
    drop_peer-IsGone (waits, peer) = tt

  -- Where the pump thread leaves a closed peer closed, `create_connection` leaves nothing behind: a
  -- connection that it returns owns its peer, and closing the connection closes the peer; when it
  -- raises, the peer is closed, or it could not be started and the exception is `StartupError`; it
  -- may also go on waiting.
  pub create_connection-IsTidy :
      (pump_rest : Peer R → Peer R)
      → ((p : Peer R) → p.closed ≡ true → (pump_rest p).closed ≡ true)
      → (notify timed : Bool) (meanwhile later : Peer R → Peer R) (call : ConnectCall)
        (infos : Option (List AddressInfo)) (max_queue : Option ℕ)
      → IsTidy notify (create_connection R timed meanwhile later pump_rest call infos max_queue)
  unfolding create_connection
  create_connection-IsTidy pump_rest stays notify timed meanwhile later call infos max_queue =
      elim (Result-cases (start R (client_options max_queue))) [
        | inl (e, failed) ↦
            rw (create_connection, failed) (start-raises (client_options max_queue) e failed)
        | inr (peer, started) ↦
            rw (create_connection, started)
              (keep_connection-IsTidy pump_rest stays notify
                (connect R timed meanwhile later pump_rest call infos peer))
      ]

  -- Where the pump thread leaves a closed peer closed, the module function `ping` leaves nothing
  -- behind: when it returns or raises, its peer is closed, or it could not be started and the
  -- exception is `StartupError`.
  ping_once-IsGone :
      (pump_rest : Peer R → Peer R)
      → ((p : Peer R) → p.closed ≡ true → (pump_rest p).closed ≡ true)
      → (timed : Bool) (meanwhile : Peer R → Peer R) (now : ℕ) (host : String) (port : ℕ)
        (infos : Option (List AddressInfo))
      → IsGone (ping_once R timed meanwhile pump_rest now host port infos)
  unfolding ping_once
  ping_once-IsGone pump_rest stays timed meanwhile now host port infos =
      elim (Result-cases (start R (client_options none))) [
        | inl (e, failed) ↦ rw (ping_once, failed) (start-raises (client_options none) e failed)
        | inr (peer, started) ↦
            rw (ping_once, started)
              (drop_peer-IsGone pump_rest stays (ping R timed meanwhile now host port infos peer))
      ]
