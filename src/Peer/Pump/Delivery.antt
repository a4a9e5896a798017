-- ===== src/Peer/Pump/Delivery.antt =====
-- A message on its way from RakNet to the mailbox of its connection, in one round of the pump.
use raknet_python.Prelude.{
  ℕ, ◌≤◌, ◌<◌, ◌≡◌, ◌≢◌, ◌∙◌, refl, sym, ap, subst, false, Option, none, some, [], ◌∷◌, ◌++◌, arith,
  length, take_of_length-le, if◌then◌else◌, nat_eq,
}
use raknet_python.Prelude.Dict.{lookup}
use raknet_python.Prelude.Objects.{Ref}
use raknet_python.Raw.Interface.{Bytes, RakNet}
use raknet_python.Raw.MessageId.{id_user_packet_enum}
use raknet_python.Raw.Peer.Packets
use raknet_python.Raw.Peer.Packets.{Packet}
use raknet_python.Exceptions.{closed_error}
use raknet_python.Mailbox
use raknet_python.Raw.MessageId.Registered.{Distinct}
use raknet_python.Router.Control.{Control, enumerator, deliver}
use raknet_python.Router.Dispatch.{route_control, route_user}
use raknet_python.Peer.{Peer}
use raknet_python.Peer.Sink.{sink, message}
use raknet_python.Peer.Sink.Delivery.{message-delivers}
use raknet_python.Peer.Closing.{fail}
use raknet_python.Peer.Pump.{route_packet, handle, pump_round}

module _ (R : RakNet) where
  open R use {SystemAddress, PacketPtr, RakPeerInterface}

  receive-some :
      (raw : RakPeerInterface) (p : PacketPtr)
      → (R.receive raw).0 ≡ some p
      → Packets.receive R raw
        ≡ (some (Packets.copy_packet R p), R.deallocate_packet p (R.receive raw).1)
  unfolding Packets.receive Packets.received
  receive-some raw p e = rw e refl

  pub bytes-copy_packet :
      (p : PacketPtr)
      → R.packet_length p ≡ length (R.packet_data p)
      → (Packets.copy_packet R p).bytes ≡ R.packet_data p
  unfolding Packets.copy_packet
  bytes-copy_packet p e = take_of_length-le (R.packet_length p) (R.packet_data p) (omega arith)

  guid-copy_packet : (p : PacketPtr) → (Packets.copy_packet R p).guid ≡ R.packet_guid p
  unfolding Packets.copy_packet
  guid-copy_packet p = refl

  route_packet-user :
      (now : ℕ) (packet : Packet SystemAddress) (mid : ℕ) (rest : Bytes) (self : Peer R)
      → packet.bytes ≡ mid ∷ rest
      → R.message_id id_user_packet_enum ≤ mid
      → route_packet R now packet self ≡ message R packet.guid packet.bytes self
  unfolding route_packet
  route_packet-user now packet mid rest self e high =
      ap
        (λ (o : Option (Peer R)). elim o [
          | none ↦ fail R (closed_error "receive pump crashed:") self
          | some routed ↦ routed
        ])
        (route_user R.message_id (sink R now) packet mid rest self e high)

  pump_round-open :
      (now : ℕ) (self : Peer R)
      → self.closed ≡ false
      → pump_round R now self ≡ handle R now (Packets.receive R self.raw) self
  unfolding pump_round
  pump_round-open now self opened =
      ap (λ b. if b then self else handle R now (Packets.receive R self.raw) self) opened

  -- The peer once RakNet has handed out a packet and has it back.
  abbrev pub unpacked : PacketPtr → Peer R → Peer R
  unpacked p self = record self { raw = R.deallocate_packet p (R.receive self.raw).1 }

  pump_round-message :
      (now : ℕ) (self : Peer R) (p : PacketPtr) (mid : ℕ) (rest : Bytes)
      → self.closed ≡ false
      → (R.receive self.raw).0 ≡ some p
      → R.packet_data p ≡ mid ∷ rest
      → R.packet_length p ≡ length (R.packet_data p)
      → R.message_id id_user_packet_enum ≤ mid
      → pump_round R now self ≡ message R (R.packet_guid p) (R.packet_data p) (unpacked p self)
  unfolding handle
  pump_round-message now self p mid rest opened got shape size high =
      let bytes = bytes-copy_packet p size in
      pump_round-open now self opened
      ∙ ap (λ o. handle R now o self) (receive-some self.raw p got)
      ∙ route_packet-user now (Packets.copy_packet R p) mid rest (unpacked p self) (bytes ∙ shape)
          high
      ∙ ap (λ b. message R (Packets.copy_packet R p).guid b (unpacked p self)) bytes
      ∙ ap (λ g. message R g (R.packet_data p) (unpacked p self)) (guid-copy_packet p)

  route_packet-control :
      (now : ℕ) (packet : Packet SystemAddress) (c : Control) (rest : Bytes) (self : Peer R)
      → Distinct R.message_id
      → packet.bytes ≡ R.message_id (enumerator c) ∷ rest
      → R.message_id (enumerator c) < R.message_id id_user_packet_enum
      → route_packet R now packet self ≡ deliver (sink R now) c packet self
  unfolding route_packet
  route_packet-control now packet c rest self distinct e low =
      ap
        (λ (o : Option (Peer R)). elim o [
          | none ↦ fail R (closed_error "receive pump crashed:") self
          | some routed ↦ routed
        ])
        (route_control R.message_id (sink R now) distinct c packet rest self e low)

  -- A control message reaches its callback in the round of the pump that receives it.
  pub pump_round-control :
      (now : ℕ) (self : Peer R) (p : PacketPtr) (c : Control) (rest : Bytes)
      → Distinct R.message_id
      → self.closed ≡ false
      → (R.receive self.raw).0 ≡ some p
      → R.packet_data p ≡ R.message_id (enumerator c) ∷ rest
      → R.packet_length p ≡ length (R.packet_data p)
      → R.message_id (enumerator c) < R.message_id id_user_packet_enum
      → pump_round R now self ≡ deliver (sink R now) c (Packets.copy_packet R p) (unpacked p self)
  unfolding handle
  pump_round-control now self p c rest distinct opened got shape size low =
      pump_round-open now self opened
      ∙ ap (λ o. handle R now o self) (receive-some self.raw p got)
      ∙ route_packet-control now (Packets.copy_packet R p) c rest (unpacked p self) distinct
          (bytes-copy_packet p size ∙ shape) low

  -- In one round of the pump on an open peer, a packet of RakNet whose first byte is a user id and
  -- whose length is right, from the guid of a connection in the table whose mailbox has room, comes
  -- to that connection: its bytes, all of them, are put behind the messages that are there. The
  -- table and every other connection stay as they are.
  pub pump_round-delivers :
      (now : ℕ) (self : Peer R) (p : PacketPtr) (mid : ℕ) (rest : Bytes) (r q : Ref)
      → self.closed ≡ false
      → (R.receive self.raw).0 ≡ some p
      → R.packet_data p ≡ mid ∷ rest
      → R.packet_length p ≡ length (R.packet_data p)
      → R.message_id id_user_packet_enum ≤ mid
      → lookup (R.packet_guid p).g self.connections ≡ some r
      → Mailbox.is_full (self.connection_at.at r).mailbox ≡ false
      → q ≢ r
      → let self' = pump_round R now self in
        ((self'.connection_at.at r).mailbox.items
          ≡ (self.connection_at.at r).mailbox.items ++ R.packet_data p ∷ [])
        × (self'.connection_at.at q ≡ self.connection_at.at q)
        × (self'.connections ≡ self.connections)
  pump_round-delivers now self p mid rest r q opened got shape size high found room other =
      subst
        (λ (self' : Peer R).
          ((self'.connection_at.at r).mailbox.items
            ≡ (self.connection_at.at r).mailbox.items ++ R.packet_data p ∷ [])
          × (self'.connection_at.at q ≡ self.connection_at.at q)
          × (self'.connections ≡ self.connections))
        (sym (pump_round-message now self p mid rest opened got shape size high))
        (message-delivers R (unpacked p self) (R.packet_guid p) (R.packet_data p) r q found room
          other)
