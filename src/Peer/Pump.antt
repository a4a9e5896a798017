-- ===== src/Peer/Pump.antt =====
-- `_pump_loop` of src/raknet/_peer.py, the thread that receives and routes packets.
pub mod Keeps
pub mod Invariant
pub mod Delivery
use raknet_python.Prelude.{ℕ, Option, none, some, if◌then◌else◌}
use raknet_python.Raw.Interface.{RakNet}
use raknet_python.Raw.Peer.Packets
use raknet_python.Raw.Peer.Packets.{Packet}
use raknet_python.Exceptions.{closed_error}
use raknet_python.Peer.{Peer}
use raknet_python.Peer.Sink.{sink}
use raknet_python.Peer.Closing.{fail}
use raknet_python.Router

module _ (R : RakNet) where
  open R use {SystemAddress}

  -- `self._router.route(packet)` at a time of the clock, under the handler of the loop. The text of
  -- the traceback is left out.
  unfoldable pub route_packet : ℕ → Packet SystemAddress → Peer R → Peer R
  unfolding Router.route fail
  route_packet now packet self = elim (Router.route R.message_id (sink R now) packet self) [
    | none ↦ fail R (closed_error "receive pump crashed:") self
    | some routed ↦ routed
  ]

  unfoldable pub handle : ℕ → Option (Packet SystemAddress) × R.RakPeerInterface → Peer R → Peer R
  unfolding route_packet
  handle now (none, raw) self = record self { raw = raw }
  handle now (some packet, raw) self = route_packet now packet (record self { raw = raw })

  -- One round of the loop, which does nothing once the peer is closed.
  unfoldable pub pump_round : ℕ → Peer R → Peer R
  unfolding handle Packets.receive
  pump_round now self = if self.closed then self else handle now (Packets.receive R self.raw) self
