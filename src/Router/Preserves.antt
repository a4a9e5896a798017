-- ===== src/Router/Preserves.antt =====
-- A predicate that every callback keeps is kept by routing.
use raknet_python.Prelude.{
  ℕ, Bool, true, false, Option, none, some, [], ◌∷◌, drop, leb, ◌==◌, nat_eq, Bool-cases, inl, inr,
  Option-cases,
}
use raknet_python.Raw.Interface.{Bytes, RakNetGuid}
use raknet_python.Raw.MessageId.{
  DefaultMessageIdTypes, message_id_entries, from_value, id_user_packet_enum,
  id_new_incoming_connection, id_connection_request_accepted, id_disconnection_notification,
  id_connection_lost, id_unconnected_pong,
}
use raknet_python.Raw.Peer.Packets.{Packet}
use raknet_python.Router.{Sink, contains, connect_failures, route_failure, route_mid, route}

pub record Preserves {A S : Type 0} (sink : Sink A S) (P : S → Type 0) : Type 0 where
  pub incoming_connection :
      (address : A) (guid : RakNetGuid) (s : S) → P s → P (sink.incoming_connection address guid s)
  pub connect_succeeded :
      (address : A) (guid : RakNetGuid) (s : S) → P s → P (sink.connect_succeeded address guid s)
  pub connect_failed :
      (address : A) (reason : DefaultMessageIdTypes) (s : S)
      → P s
      → P (sink.connect_failed address reason s)
  pub message : (guid : RakNetGuid) (bytes : Bytes) (s : S) → P s → P (sink.message guid bytes s)
  pub disconnected :
      (guid : RakNetGuid) (graceful : Bool) (s : S) → P s → P (sink.disconnected guid graceful s)
  pub pong :
      (address : A) (guid : RakNetGuid) (bytes : Bytes) (s : S)
      → P s
      → P (sink.pong address guid bytes s)

abbrev pub Whenever : {S : Type 0} → (S → Type 0) → Option S → Type 0
Whenever P none = Unit {0}
Whenever P (some t) = P t

module _ (ids : DefaultMessageIdTypes → ℕ) {A S : Type 0} (sink : Sink A S) (P : S → Type 0)
    (keep : Preserves sink P) where
  route_failure-Whenever :
      (packet : Packet A) (mid : ℕ) (s : S) → P s → Whenever P (route_failure ids sink packet mid s)
  unfolding route_failure
  route_failure-Whenever packet mid s h =
      elim (Option-cases (from_value ids message_id_entries mid)) [
        | inl e ↦ rw (route_failure, e) tt
        | inr (m, e) ↦ rw (route_failure, e) (keep.connect_failed packet.system_address m s h)
      ]

  route_mid-Whenever :
      (packet : Packet A) (bytes : Bytes) (mid : ℕ) (s : S)
      → P s
      → Whenever P (route_mid ids sink packet bytes mid s)
  unfolding route_mid
  route_mid-Whenever packet bytes mid s h = elim (Bool-cases (leb (ids id_user_packet_enum) mid)) [
    | inl e ↦ rw e (keep.message packet.guid bytes s h)
    | inr e₁ ↦ elim (Bool-cases (mid == ids id_new_incoming_connection)) [
      | inl e ↦ rw (e₁, e) (keep.incoming_connection packet.system_address packet.guid s h)
      | inr e₂ ↦ elim (Bool-cases (mid == ids id_connection_request_accepted)) [
        | inl e ↦ rw (e₁, e₂, e) (keep.connect_succeeded packet.system_address packet.guid s h)
        | inr e₃ ↦ elim (Bool-cases (contains ids connect_failures mid)) [
          | inl e ↦ rw (e₁, e₂, e₃, e) (route_failure-Whenever packet mid s h)
          | inr e₄ ↦ elim (Bool-cases (mid == ids id_disconnection_notification)) [
            | inl e ↦ rw (e₁, e₂, e₃, e₄, e) (keep.disconnected packet.guid true s h)
            | inr e₅ ↦ elim (Bool-cases (mid == ids id_connection_lost)) [
              | inl e ↦ rw (e₁, e₂, e₃, e₄, e₅, e) (keep.disconnected packet.guid false s h)
              | inr e₆ ↦ elim (Bool-cases (mid == ids id_unconnected_pong)) [
                | inl e ↦
                    rw (e₁, e₂, e₃, e₄, e₅, e₆, e)
                      (keep.pong packet.system_address packet.guid (drop 5 bytes) s h)
                | inr e₇ ↦ rw (e₁, e₂, e₃, e₄, e₅, e₆, e₇) h
              ]
            ]
          ]
        ]
      ]
    ]
  ]

  -- What every callback of the sink keeps true, routing any packet keeps true.
  pub route-Whenever : (packet : Packet A) (s : S) → P s → Whenever P (route ids sink packet s)
  unfolding route
  route-Whenever packet s h = kept packet.bytes
    where
      kept : (bytes : Bytes) → Whenever P (route ids sink (record packet { bytes = bytes }) s)
      kept [] = h
      kept (mid ∷ rest) = route_mid-Whenever _ (mid ∷ rest) mid s h
