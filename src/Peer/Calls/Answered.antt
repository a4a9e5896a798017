-- ===== src/Peer/Calls/Answered.antt =====
-- A `connect` from its call to its answer: it starts the attempt, the pump thread receives what
-- RakNet says of it, and the call returns or raises.
use raknet_python.Prelude.{
  ℕ, ◌+◌, ◌<◌, ◌≡◌, ◌∙◌, refl, sym, subst, Bool, true, String, Option, none, some, List, ◌∷◌, arith,
  length, nat_eq, string_eq,
}
use raknet_python.Prelude.Dict.{lookup}
use raknet_python.Prelude.Objects.{Ref}
use raknet_python.Raw.Interface.{Bytes, RakNet}
use raknet_python.Raw.MessageId.{id_user_packet_enum}
use raknet_python.Raw.MessageId.Registered.{Distinct}
use raknet_python.Raw.Peer.Packets
use raknet_python.Raw.Peer.Packets.{Packet}
use raknet_python.Router.{Sink}
use raknet_python.Router.Control.{
  Control, accepted, attempt_failed, already_connected, no_free_incoming, banned, invalid_password,
  incompatible_version, recently_connected, enumerator, is_failure, deliver,
}
use raknet_python.Exceptions.{message_id, connect_error, Result, ok, raise}
use raknet_python.Peer.{Peer, address_key, pending_key, new_connection}
use raknet_python.Peer.Sink.{sink, connect_succeeded, connect_failed}
use raknet_python.Peer.Connecting.{
  AddressInfo, ConnectCall, is_started, check_connect, register_connect,
}
use raknet_python.Peer.Connecting.Starts.{check_connect-opened}
use raknet_python.Peer.Connecting.Attempts.{connect_succeeded-returns, connect_failed-raises}
use raknet_python.Peer.Pump.{pump_round}
use raknet_python.Peer.Pump.Delivery.{unpacked, pump_round-control}
use raknet_python.Peer.Calls.Launched.{
  attempt, launched, launched_pending, launched_fresh, launched_rest, await_connect-set,
}
use raknet_python.Peer.Calls.{CallEnd, ends, connect}

-- Every failed connect reaches the same callback.
deliver-failure :
    {A S : Type 0} (s : Sink A S) (c : Control) (packet : Packet A) (state : S)
    → is_failure c ≡ true
    → deliver s c packet state ≡ s.connect_failed packet.system_address (enumerator c) state
deliver-failure s attempt_failed packet state h = refl
deliver-failure s already_connected packet state h = refl
deliver-failure s no_free_incoming packet state h = refl
deliver-failure s banned packet state h = refl
deliver-failure s invalid_password packet state h = refl
deliver-failure s incompatible_version packet state h = refl
deliver-failure s recently_connected packet state h = refl
deliver-failure s Control.incoming packet state h = cc
deliver-failure s accepted packet state h = cc
deliver-failure s Control.graceful packet state h = cc
deliver-failure s Control.lost packet state h = cc
deliver-failure s Control.answered packet state h = cc

module _ (R : RakNet) where
  open R use {PacketPtr, RakPeerInterface}

  -- What `connect` and the pump thread meet: RakNet starts the attempt and then hands out a packet
  -- from the address that is tried, with the id of a control message.
  pub record IsAnswered (call : ConnectCall) (infos : Option (List AddressInfo)) (self : Peer R)
      (ip : String) (p : PacketPtr) (c : Control) : Type 0 where
    pub distinct : Distinct R.message_id
    pub checked : check_connect R call infos self ≡ ok ip
    pub started : is_started (attempt R call ip self).0 ≡ true
    pub got : (R.receive (attempt R call ip self).1).0 ≡ some p
    pub rest : Bytes
    pub shape : R.packet_data p ≡ R.message_id (enumerator c) ∷ rest
    pub size : R.packet_length p ≡ length (R.packet_data p)
    pub control : R.message_id (enumerator c) < R.message_id id_user_packet_enum
    pub sender : address_key R (R.packet_system_address p) ≡ pending_key R ip call.port

  module _ (timed : Bool) (later pump_rest : Peer R → Peer R) (call : ConnectCall)
      (infos : Option (List AddressInfo)) (now : ℕ) (self : Peer R) (ip : String)
      (p : PacketPtr) where
    -- The peer when the pump thread calls its sink.
    abbrev arrived : Peer R
    arrived = unpacked R p (launched R call ip self)

    pump_round-answer :
        (c : Control)
        → IsAnswered call infos self ip p c
        → pump_round R now (launched R call ip self)
          ≡ deliver (sink R now) c (Packets.copy_packet R p) arrived
    pump_round-answer c h =
        pump_round-control R now (launched R call ip self) p c h.rest h.distinct
          ((launched_rest R call ip self).0 ∙ check_connect-opened R call infos self ip h.checked)
          h.got h.shape h.size h.control

    arrived_pending :
        (c : Control)
        → IsAnswered call infos self ip p c
        → lookup (address_key R (R.packet_system_address p)) arrived.pending_connects
          ≡ some self.connect_at.next
    arrived_pending c h = rw h.sender (launched_pending R call ip self)

    -- Where the checks of `connect` pass and its host resolves to the address, RakNet starts the
    -- attempt, the message ids are distinct, and the packet that the pump thread receives while
    -- `connect` waits comes from that address, has the right length and says that the attempt was
    -- accepted, with an id below the first user id: then `connect` returns a new connection to the
    -- sender, open and with an empty mailbox, which is in the table under the guid of the packet,
    -- and the pending call has left its table.
    pub connect-returns :
        IsAnswered call infos self ip p accepted
        → let (end, q) = connect R timed (pump_round R now) later pump_rest call infos self in
          let r = self.connection_at.next in
          (end ≡ ends (ok r))
          × (q.connection_at.at r
              ≡ new_connection R self (R.packet_system_address p) (R.packet_guid p))
          × (lookup (R.packet_guid p).g q.connections ≡ some r)
          × (lookup (pending_key R ip call.port) q.pending_connects ≡ none)
    unfolding register_connect Packets.copy_packet new_connection
    connect-returns h =
        let address = R.packet_system_address p in
        let guid = R.packet_guid p in
        let r = self.connection_at.next in
        let q : Peer R = connect_succeeded R address guid arrived in
        let (set, finished, made, tracked, gone) =
          connect_succeeded-returns R arrived call address guid self.connect_at.next
            (arrived_pending accepted h) (launched_fresh R call ip self) in
        subst
          (λ (o : CallEnd Ref × Peer R).
            (o.0 ≡ ends (ok r))
            × (o.1.connection_at.at r ≡ new_connection R self address guid)
            × (lookup guid.g o.1.connections ≡ some r)
            × (lookup (pending_key R ip call.port) o.1.pending_connects ≡ none))
          (sym (
            await_connect-set R timed (pump_round R now) later pump_rest call infos self ip (ok r) q
              h.checked h.started (pump_round-answer accepted h) set finished))
          (refl, made, tracked, subst (λ k. lookup k q.pending_connects ≡ none) h.sender gone)

    -- Where the conditions of `IsAnswered` hold for the packet, and it is one of the seven that say that the attempt
    -- failed, `connect` raises `ConnectError` with the host and port that it was called with and the
    -- id of the packet; no connection is made, and the pending call has left its table.
    pub connect-raises :
        (c : Control)
        → is_failure c ≡ true
        → IsAnswered call infos self ip p c
        → let (end, q) = connect R timed (pump_round R now) later pump_rest call infos self in
          (end ≡ ends (raise (connect_error call.host call.port (message_id (enumerator c)))))
          × (q.connections ≡ self.connections)
          × (lookup (pending_key R ip call.port) q.pending_connects ≡ none)
    unfolding register_connect Packets.copy_packet new_connection
    connect-raises c failing h =
        let address = R.packet_system_address p in
        let reason = enumerator c in
        let error : Result Ref = raise (connect_error call.host call.port (message_id reason)) in
        let q : Peer R = connect_failed R address reason arrived in
        let (set, finished, same, gone, _) =
          connect_failed-raises R arrived call address reason self.connect_at.next
            (self.connect_at.next + 1) (arrived_pending c h) (λ e. omega arith) in
        subst
          (λ (o : CallEnd Ref × Peer R).
            (o.0 ≡ ends error)
            × (o.1.connections ≡ self.connections)
            × (lookup (pending_key R ip call.port) o.1.pending_connects ≡ none))
          (sym (
            await_connect-set R timed (pump_round R now) later pump_rest call infos self ip error q
              h.checked h.started
              (pump_round-answer c h
                ∙ deliver-failure (sink R now) c (Packets.copy_packet R p) arrived failing)
              set finished))
          (refl, same, subst (λ k. lookup k q.pending_connects ≡ none) h.sender gone)
