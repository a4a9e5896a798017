-- ===== src/Peer/Pump/Keeps.antt =====
-- A property of the peer that the sink callbacks, a crash and the calls of RakNet keep is kept by a
-- round of the pump.
use raknet_python.Prelude.{ℕ, Bool, true, false, Option, none, some, if◌then◌else◌}
use raknet_python.Raw.Interface.{RakNet}
use raknet_python.Raw.Peer.Packets
use raknet_python.Raw.Peer.Packets.{Packet}
use raknet_python.Exceptions.{ConnectionClosed, closed_error}
use raknet_python.Router
use raknet_python.Router.Preserves.{Preserves, Whenever, route-Whenever}
use raknet_python.Peer.{Peer}
use raknet_python.Peer.Sink.{sink}
use raknet_python.Peer.Closing
use raknet_python.Peer.Pump.{route_packet, handle, pump_round}

pub record Kept {R : RakNet} (P : Peer R → Type 0) : Type 0 where
  pub callbacks : (now : ℕ) → Preserves (sink R now) P
  pub crashes : (exc : ConnectionClosed) (p : Peer R) → P p → P (Closing.fail R exc p)
  pub calls : (raw : R.RakPeerInterface) (p : Peer R) → P p → P (record p { raw = raw })

module _ {R : RakNet} (P : Peer R → Type 0) (keep : Kept P) where
  open R use {SystemAddress}

  route_packet-Kept :
      (now : ℕ) (packet : Packet SystemAddress) (self : Peer R)
      → P self
      → P (route_packet R now packet self)
  unfolding route_packet
  route_packet-Kept now packet self h =
      settled (Router.route R.message_id (sink R now) packet self)
        (route-Whenever R.message_id (sink R now) P (keep.callbacks now) packet self h)
    where
      settled :
          (o : Option (Peer R))
          → Whenever P o
          → P (elim o [
            | none ↦ Closing.fail R (closed_error "receive pump crashed:") self
            | some routed ↦ routed
          ])
      settled none ended = keep.crashes (closed_error "receive pump crashed:") self h
      settled (some routed) ended = ended

  handle-Kept :
      (now : ℕ) (got : Option (Packet SystemAddress) × R.RakPeerInterface) (self : Peer R)
      → P self
      → P (handle R now got self)
  unfolding handle
  handle-Kept now (none, raw) self h = keep.calls raw self h
  handle-Kept now (some packet, raw) self h = route_packet-Kept now packet _ (keep.calls raw self h)

  either-Kept : (b : Bool) (p q : Peer R) → P p → P q → P (if b then p else q)
  either-Kept true p q h k = h
  either-Kept false p q h k = k

  pub pump_round-Kept : (now : ℕ) (self : Peer R) → P self → P (pump_round R now self)
  unfolding pump_round
  pump_round-Kept now self h =
      either-Kept self.closed self (handle R now (Packets.receive R self.raw) self) h
        (handle-Kept now (Packets.receive R self.raw) self h)
