-- ===== src/Raw/Peer/Packets/Ownership.antt =====
-- `receive` gives each packet back to RakNet, exactly once, after copying it.
use raknet_python.Prelude.{
  ℕ, zero, suc, ◌+◌, ◌≡◌, refl, ◌∙◌, none, some, List, [], ◌∷◌, Option, arith, length, Option-cases,
  inl, inr,
}
use raknet_python.Raw.Interface.{RakNet}
use raknet_python.Raw.Peer.Packets.{Packet, received, receive}

module _ (R : RakNet) where
  open R use {RakPeerInterface, SystemAddress, PacketPtr}

  -- What RakNet documents of the packets that it hands out: `Receive` lends one more packet where
  -- it returns one, and `DeallocatePacket` takes one back.
  pub record LendsPackets (lent : RakPeerInterface → ℕ) : Type 0 where
    pub lends :
        (self : RakPeerInterface) (packet : PacketPtr)
        → (R.receive self).0 ≡ some packet
        → lent (R.receive self).1 ≡ lent self + 1
    pub idles :
        (self : RakPeerInterface) → (R.receive self).0 ≡ none → lent (R.receive self).1 ≡ lent self
    pub takes_back :
        (self : RakPeerInterface) (packet : PacketPtr) (n : ℕ)
        → lent self ≡ n + 1
        → lent (R.deallocate_packet packet self) ≡ n

  -- The results of so many calls of `receive`, and the state that they leave.
  pub receive_times : ℕ → RakPeerInterface → List (Option (Packet SystemAddress)) × RakPeerInterface
  receive_times zero self = ([], self)
  receive_times (suc n) self =
      let (first, self') = receive R self in
      let (others, self'') = receive_times n self' in (first ∷ others, self'')

  received_lent :
      (lent : RakPeerInterface → ℕ)
      → LendsPackets lent
      → (self : RakPeerInterface) → lent (received R (R.receive self)).1 ≡ lent self
  unfolding received
  received_lent lent law self = elim (Option-cases (R.receive self).0) [
    | inl e ↦ rw e (law.idles self e)
    | inr (packet, e) ↦ rw e (law.takes_back _ packet (lent self) (law.lends self packet e))
  ]

  receive_lent :
      (lent : RakPeerInterface → ℕ)
      → LendsPackets lent
      → (self : RakPeerInterface) → lent (receive R self).1 ≡ lent self
  unfolding receive
  receive_lent = received_lent

  -- Where RakNet lends packets as documented, any number of calls of `receive` leaves as many
  -- packets lent as were lent before, and each call has a result.
  pub receive_times_lent :
      (lent : RakPeerInterface → ℕ)
      → LendsPackets lent
      → (n : ℕ) (self : RakPeerInterface)
      → (lent (receive_times n self).1 ≡ lent self) × (length (receive_times n self).0 ≡ n)
  unfolding receive_times
  receive_times_lent lent law zero self = (refl, omega arith)
  receive_times_lent lent law (suc n) self =
      let (kept, counted) = receive_times_lent lent law n (receive R self).1 in
      (kept ∙ receive_lent lent law self, omega arith)
