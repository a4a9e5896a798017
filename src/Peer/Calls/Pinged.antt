-- ===== src/Peer/Calls/Pinged.antt =====
-- A `ping` from its call to its answer: the request is sent, the pump thread receives the pong, and
-- the call returns.
use raknet_python.Prelude.{
  ℕ, ◌+◌, ◌-◌, ◌<◌, ◌≡◌, ◌∙◌, refl, sym, ap, subst, Bool, true, false, String, Option, none, some,
  List, ◌∷◌, arith, drop, length, ==-refl, nat_eq, string_eq, if◌then◌else◌,
}
use raknet_python.Prelude.Dict.{lookup, lookup-insert}
use raknet_python.Prelude.Objects.{Ref}
use raknet_python.Raw.Interface.{Bytes, RakNet}
use raknet_python.Raw.MessageId.{id_user_packet_enum, id_unconnected_pong}
use raknet_python.Raw.MessageId.Registered.{Distinct}
use raknet_python.Raw.Peer as RawPeer
use raknet_python.Raw.Peer.Packets
use raknet_python.Router.Control.{answered}
use raknet_python.Exceptions.{text, at_host, raknet_error, Result, ok, raise}
use raknet_python.Peer.{Pong, Peer, address_key, to_address, pending_key}
use raknet_python.Peer.Sink.{pong}
use raknet_python.Peer.Connecting.{AddressInfo, resolve}
use raknet_python.Peer.Pinging.{register_ping, enter_ping, launch_ping, start_ping, finish_ping}
use raknet_python.Peer.Pinging.Answers.{pong-answers}
use raknet_python.Peer.Pump.{pump_round}
use raknet_python.Peer.Pump.Delivery.{bytes-copy_packet, unpacked, pump_round-control}
use raknet_python.Peer.Calls.{CallEnd, ends, await_ping, ping}

module _ (R : RakNet) where
  open R use {PacketPtr, RakPeerInterface}

  -- What RakNet answers to the request.
  abbrev pub request : String → ℕ → Peer R → Bool × RakPeerInterface
  request ip port self = RawPeer.ping R self.raw ip port false 0

  -- The peer once the request is sent.
  abbrev pub requested : ℕ → String → ℕ → Peer R → Peer R
  requested now ip port self = record (register_ping R now (pending_key R ip port) self) {
    raw = (request ip port self).1;
  }

  launch_ping-sent :
      (now : ℕ) (host : String) (port : ℕ) (ip : String) (self : Peer R)
      → (request ip port self).0 ≡ true
      → let key = pending_key R ip port in
        launch_ping R host port ip key (ok self.ping_at.next, register_ping R now key self)
        ≡ (ok (self.ping_at.next, key), requested now ip port self)
  unfolding launch_ping register_ping
  launch_ping-sent now host port ip self sent = rw sent refl

  enter_ping-open :
      (now : ℕ) (key : String) (self : Peer R)
      → self.closed ≡ false
      → enter_ping R now key self ≡ (ok self.ping_at.next, register_ping R now key self)
  unfolding enter_ping
  enter_ping-open now key self opened =
      ap
        (λ b.
          if b
          then (raise (raknet_error (text "peer is closed")), self)
          else (ok self.ping_at.next, register_ping R now key self))
        opened

  -- `_start_ping` behind `_check_open`, on the answer of `_resolve`.
  abbrev start_resolved : ℕ → String → ℕ → Peer R → Option String → Result (Ref × String) × Peer R
  start_resolved now host port self answer = elim answer [
    | none ↦ (raise (raknet_error (at_host "cannot resolve " host)), self)
    | some ip ↦
        let key = pending_key R ip port in
        launch_ping R host port ip key (enter_ping R now key self)
  ]

  start_ping-sent :
      (now : ℕ) (host : String) (port : ℕ) (infos : Option (List AddressInfo)) (self : Peer R)
      (ip : String)
      → self.closed ≡ false
      → resolve infos ≡ some ip
      → (request ip port self).0 ≡ true
      → start_ping R now host port infos self
        ≡ (ok (self.ping_at.next, pending_key R ip port), requested now ip port self)
  unfolding start_ping
  start_ping-sent now host port infos self ip opened resolved sent =
      let key = pending_key R ip port in
      ap
        (λ b.
          if b
          then (raise (raknet_error (text "peer is closed")), self)
          else start_resolved now host port self (resolve infos))
        opened
      ∙ ap (start_resolved now host port self) resolved
      ∙ ap (launch_ping R host port ip key) (enter_ping-open now key self opened)
      ∙ launch_ping-sent now host port ip self sent

  await_ping-set :
      (timed : Bool) (meanwhile : Peer R → Peer R) (host : String) (port : ℕ) (pending : Ref)
      (key : String) (self q : Peer R) (result : Result Pong)
      → meanwhile self ≡ q
      → (q.ping_at.at pending).event ≡ true
      → finish_ping R (q.ping_at.at pending) ≡ result
      → await_ping R timed meanwhile host port (ok (pending, key), self) ≡ (ends result, q)
  unfolding await_ping
  await_ping-set timed meanwhile host port pending key self q result comes set finished =
      rw (await_ping, comes, set, finished) refl

  requested_pending :
      (now : ℕ) (ip : String) (port : ℕ) (self : Peer R)
      → lookup (pending_key R ip port) (requested now ip port self).pending_pings
        ≡ some self.ping_at.next
  unfolding register_ping
  requested_pending now ip port self =
      let key = pending_key R ip port in
      rw (lookup-insert key key self.ping_at.next self.pending_pings, ==-refl key) refl

  requested_rest :
      (now : ℕ) (ip : String) (port : ℕ) (self : Peer R)
      → ((requested now ip port self).closed ≡ self.closed)
        × (((requested now ip port self).ping_at.at self.ping_at.next).started ≡ now)
  unfolding register_ping
  requested_rest now ip port self = (refl, rw (==-refl self.ping_at.next) refl)

  -- What `ping` and the pump thread meet: the peer is open, the host resolves, RakNet sends the
  -- request and then hands out a pong from the address that it went to.
  pub record IsPonged (port : ℕ) (infos : Option (List AddressInfo)) (self : Peer R) (ip : String)
      (p : PacketPtr) : Type 0 where
    pub distinct : Distinct R.message_id
    pub opened : self.closed ≡ false
    pub resolved : resolve infos ≡ some ip
    pub sent : (request ip port self).0 ≡ true
    pub got : (R.receive (request ip port self).1).0 ≡ some p
    pub rest : Bytes
    pub shape : R.packet_data p ≡ R.message_id id_unconnected_pong ∷ rest
    pub size : R.packet_length p ≡ length (R.packet_data p)
    pub control : R.message_id id_unconnected_pong < R.message_id id_user_packet_enum
    pub sender : address_key R (R.packet_system_address p) ≡ pending_key R ip port

  module _ (timed : Bool) (started now : ℕ) (host : String) (port : ℕ)
      (infos : Option (List AddressInfo)) (self : Peer R) (ip : String) (p : PacketPtr) where
    -- The peer when the pump thread calls its sink, and when it has.
    abbrev arrived : Peer R
    arrived = unpacked R p (requested started ip port self)

    abbrev ponged : Peer R
    ponged =
        pong R now (R.packet_system_address p) (R.packet_guid p) (drop 5 (R.packet_data p)) arrived

    pump_round-pong :
        IsPonged port infos self ip p → pump_round R now (requested started ip port self) ≡ ponged
    unfolding Packets.copy_packet
    pump_round-pong h =
        pump_round-control R now (requested started ip port self) p answered h.rest h.distinct
          ((requested_rest started ip port self).0 ∙ h.opened) h.got h.shape h.size h.control
        ∙ ap (λ b. pong R now (R.packet_system_address p) (R.packet_guid p) (drop 5 b) arrived)
            (bytes-copy_packet R p h.size)

    -- Where the peer is open, the host resolves to the address, RakNet sends the request, the message
    -- ids are distinct, and the packet that the pump thread receives while `ping` waits comes from
    -- that address, has the right length and is a pong, with an id below the first user id: then
    -- `ping` returns the address and the guid of the sender, the bytes behind the id and the four
    -- bytes of the time, and the time since the call was registered, and the pending call has left
    -- its table.
    pub ping-returns :
        IsPonged port infos self ip p
        → let (end, q) = ping R timed (pump_round R now) started host port infos self in
          (end
            ≡ ends (
                ok (record {
                  address = to_address R (R.packet_system_address p);
                  guid = (R.packet_guid p).g;
                  payload = drop 5 (R.packet_data p);
                  round_trip_time = now - started;
                })))
          × (lookup (pending_key R ip port) q.pending_pings ≡ none)
    unfolding ping register_ping
    ping-returns h =
        let address = R.packet_system_address p in
        let (set, finished, gone, _) =
          pong-answers R arrived now address (R.packet_guid p) (drop 5 (R.packet_data p))
            self.ping_at.next (self.ping_at.next + 1)
            (rw h.sender (requested_pending started ip port self)) (λ e. omega arith) in
        let result : Result Pong = finish_ping R (ponged.ping_at.at self.ping_at.next) in
        let answer =
          finished
          ∙ ap
              (λ since. ok (record {
                address = to_address R address;
                guid = (R.packet_guid p).g;
                payload = drop 5 (R.packet_data p);
                round_trip_time = now - since;
              }))
              (requested_rest started ip port self).1 in
        subst
          (λ (o : CallEnd Pong × Peer R).
            (o.0
              ≡ ends (
                  ok (record {
                    address = to_address R address;
                    guid = (R.packet_guid p).g;
                    payload = drop 5 (R.packet_data p);
                    round_trip_time = now - started;
                  })))
            × (lookup (pending_key R ip port) o.1.pending_pings ≡ none))
          (sym (
            ap (await_ping R timed (pump_round R now) host port)
              (start_ping-sent started host port infos self ip h.opened h.resolved h.sent)
            ∙ await_ping-set timed (pump_round R now) host port self.ping_at.next
                (pending_key R ip port) (requested started ip port self) ponged result
                (pump_round-pong h) set refl))
          (ap ends answer, subst (λ k. lookup k ponged.pending_pings ≡ none) h.sender gone)
