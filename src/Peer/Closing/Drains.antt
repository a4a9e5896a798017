-- ===== src/Peer/Closing/Drains.antt =====
-- What can still be received on a connection when its peer has been closed.
use raknet_python.Prelude.{
  ℕ, ◌+◌, ◌≡◌, ◌∙◌, ap, true, false, Option, none, some, ◌++◌, map, replicate, length,
  if◌then◌else◌,
}
use raknet_python.Prelude.Dict.{values}
use raknet_python.Prelude.Objects.{Ref}
use raknet_python.Raw.Interface.{RakNet}
use raknet_python.Exceptions.{closed_ok}
use raknet_python.Mailbox.{received, raised}
use raknet_python.Mailbox.Order.{get_times, get_times_drains}
use raknet_python.Peer.{Peer}
use raknet_python.Peer.Closing.{close}
use raknet_python.Peer.Closing.Loops.{has}
use raknet_python.Peer.Closing.Settled.{closed_as, close-settles}
use raknet_python.Peer.Sink.Delivery.{first_exc}

module _ (R : RakNet) where
  -- When an open peer is closed, with the pump thread between two packets, the messages of a
  -- connection of its table that has no exception yet can all still be received, in order and with
  -- any timeout; every later `recv` raises `ConnectionClosedOK`.
  pub close-drains :
      (ms : ℕ) (self : Peer R) (r : Ref) (k : ℕ) (timeout : Option ℕ)
      → self.closed ≡ false
      → has r (values self.connections) ≡ true
      → (self.connection_at.at r).mailbox.exc ≡ none
      → let items = (self.connection_at.at r).mailbox.items in
        (get_times
          (length items + k)
          timeout
          ((close R (λ p. p) ms self).connection_at.at r).mailbox).0
        ≡ map received items ++ replicate k (raised (closed_ok "peer closed"))
  close-drains ms self r k timeout opened tracked fresh =
      let c = self.connection_at.at r in
      let exc = closed_ok "peer closed" in
      let (_, (closed, _, _)) = close-settles R ms self r opened in
      ap (λ d. (get_times (length c.mailbox.items + k) timeout d.mailbox).0)
        (closed ∙ ap (λ b. if b then closed_as R exc c else c) tracked)
      ∙ get_times_drains (closed_as R exc c).mailbox k timeout exc
          (ap (λ o. some (first_exc o exc)) fresh)
