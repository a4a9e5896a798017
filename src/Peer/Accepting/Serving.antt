-- ===== src/Peer/Accepting/Serving.antt =====
-- What `serve_forever` does until the peer is closed.
use raknet_python.Prelude.{
  ℕ, ◌≡◌, ◌∙◌, refl, ap, sym, subst, false, none, some, List, [], ◌∷◌, ◌++◌, map, if◌then◌else◌,
}
use raknet_python.Prelude.Objects.{Ref}
use raknet_python.Raw.Interface.{RakNet}
use raknet_python.Exceptions.{text, raknet_error, raise, is_raknet_error}
use raknet_python.Peer.{Peer}
use raknet_python.Peer.Closing.{close}
use raknet_python.Peer.Closing.Settled.{close-settles}
use raknet_python.Peer.Accepting.{
  ServeEnd, returns, after_raise, take_accepted, accept, after_accept, serve_forever,
}

module _ (R : RakNet) where
  -- Nothing happens while the connections of the queue are taken, and then the peer is closed.
  abbrev pub until_close : ℕ → List Ref → List (Peer R → Peer R)
  until_close ms [] = close R (λ p. p) ms ∷ []
  until_close ms (r ∷ refs) = (λ p. p) ∷ until_close ms refs

  accept-open :
      (others : Peer R → Peer R) (self : Peer R)
      → self.closed ≡ false
      → accept R others self ≡ take_accepted R (others self)
  unfolding accept
  accept-open others self opened =
      ap
        (λ b.
          if b
          then (raise (raknet_error (text "peer is closed")), self)
          else take_accepted R (others self))
        opened

  after_accept-marked :
      (rest : Peer R → List Ref × ServeEnd) (self : Peer R)
      → self.accept_queue ≡ none ∷ []
      → after_accept R rest (take_accepted R self) ≡ ([], returns)
  unfolding after_accept take_accepted after_raise is_raknet_error
  after_accept-marked rest self marked = rw (take_accepted, marked) refl

  serve_forever-close :
      (ms : ℕ) (self : Peer R)
      → self.closed ≡ false
      → self.accept_queue ≡ []
      → serve_forever R (until_close ms []) self ≡ ([], returns)
  unfolding serve_forever
  serve_forever-close ms self opened empty =
      let rest : Peer R → List Ref × ServeEnd = λ next. serve_forever R [] next in
      let ((_, _, _, _, marked), _) = close-settles R ms self 0 opened in
      ap (after_accept R rest) (accept-open (close R (λ p. p) ms) self opened)
      ∙ after_accept-marked rest (close R (λ p. p) ms self)
          (marked ∙ ap (λ q. q ++ none ∷ []) empty)

  serve_forever-queue :
      (ms : ℕ) (refs : List Ref) (self : Peer R)
      → self.closed ≡ false
      → serve_forever R (until_close ms refs) (record self { accept_queue = map some refs })
        ≡ (refs, returns)
  unfolding serve_forever after_accept take_accepted
  serve_forever-queue ms [] self opened =
      serve_forever-close ms (record self { accept_queue = [] }) opened refl
  serve_forever-queue ms (r ∷ refs) self opened =
      ap (after_accept R (λ next. serve_forever R (until_close ms refs) next))
        (accept-open (λ p. p) (record self { accept_queue = map some (r ∷ refs) }) opened)
      ∙ ap (λ o. (r ∷ o.0, o.1)) (serve_forever-queue ms refs self opened)

  -- `serve_forever` on an open peer starts a handler for each connection that waits in the accept
  -- queue, in order and once each; when the peer is closed during the wait that follows, it
  -- returns, and raises nothing.
  pub serve_forever-returns :
      (ms : ℕ) (refs : List Ref) (self : Peer R)
      → self.closed ≡ false
      → self.accept_queue ≡ map some refs
      → serve_forever R (until_close ms refs) self ≡ (refs, returns)
  serve_forever-returns ms refs self opened queued =
      subst
        (λ queue.
          serve_forever R (until_close ms refs) (record self { accept_queue = queue })
          ≡ (refs, returns))
        (sym queued) (serve_forever-queue ms refs self opened)
