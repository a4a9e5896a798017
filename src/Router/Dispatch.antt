-- ===== src/Router/Dispatch.antt =====
-- Which callback a packet reaches.
use raknet_python.Prelude.{
  All, ℕ, ◌<◌, ◌≤◌, ◌≡◌, ◌≢◌, ==-refl, ◌∙◌, refl, ap, true, false, some, List, [], ◌∷◌, arith, leb,
  ◌==◌, nat_eq, nat_beq_iff, Bool-cases, inl, inr,
}
use raknet_python.Raw.Interface.{Bytes}
use raknet_python.Raw.MessageId.{
  DefaultMessageIdTypes, id_user_packet_enum, id_new_incoming_connection,
  id_connection_request_accepted, id_disconnection_notification, id_connection_lost,
  id_unconnected_pong,
}
use raknet_python.Raw.MessageId.Registered.{Distinct, registered_round_trip}
use raknet_python.Raw.Peer.Packets.{Packet}
use raknet_python.Router.{Sink, contains, connect_failures, route_failure, route_mid, route}
use raknet_python.Router.Control.{
  Control, incoming, accepted, graceful, lost, answered, attempt_failed, already_connected,
  no_free_incoming, banned, invalid_password, incompatible_version, recently_connected, enumerator,
  deliver, is_failure, is_failure_id, is_failure_id-enumerator,
}

module _ (ids : DefaultMessageIdTypes → ℕ) {A S : Type 0} (sink : Sink A S) where
  route-cons :
      (packet : Packet A) (mid : ℕ) (rest : Bytes) (s : S)
      → packet.bytes ≡ mid ∷ rest
      → route ids sink packet s ≡ route_mid ids sink packet packet.bytes mid s
  unfolding route
  route-cons packet mid rest s e = rw e

  differ :
      (distinct : Distinct ids) (m n : DefaultMessageIdTypes) → m ≢ n → (ids m == ids n) ≡ false
  differ distinct m n h = elim (Bool-cases (ids m == ids n)) [
    | inl same ↦ absurd (h (distinct m n ((nat_beq_iff _ _).0 same)))
    | inr other ↦ other
  ]

  route_failure_lem :
      (packet : Packet A) (m : DefaultMessageIdTypes) (s : S)
      → Distinct ids
      → route_failure ids sink packet (ids m) s
        ≡ some (sink.connect_failed packet.system_address m s)
  unfolding route_failure
  route_failure_lem packet m s distinct =
      rw (route_failure, (registered_round_trip ids distinct m).2)

  apart :
      (distinct : Distinct ids) (c d : Control)
      → enumerator c ≢ enumerator d
      → (ids (enumerator c) == ids (enumerator d)) ≡ false
  apart distinct c d = differ distinct (enumerator c) (enumerator d)

  not-contains :
      (mid : ℕ) (members : List DefaultMessageIdTypes)
      → All (λ m. ids m ≢ mid) members
      → contains ids members mid ≡ false
  unfolding contains
  not-contains mid [] h = refl
  not-contains mid (m ∷ members) h = ground (arith, not-contains mid members h.1)

  contains_failure :
      (c : Control)
      → is_failure c ≡ true
      → contains ids connect_failures (ids (enumerator c)) ≡ true
  unfolding contains connect_failures
  contains_failure attempt_failed h = ground arith
  contains_failure already_connected h = ground arith
  contains_failure no_free_incoming h = ground arith
  contains_failure banned h = ground arith
  contains_failure invalid_password h = ground arith
  contains_failure incompatible_version h = ground arith
  contains_failure recently_connected h = ground arith
  contains_failure _ h = cc

  -- A failed connect and another control message have different numbers.
  failure-ne-other :
      (c d : Control) → is_failure c ≡ true → is_failure d ≡ false → enumerator c ≢ enumerator d
  failure-ne-other c d f g e =
      ground (arith, ap is_failure_id e, is_failure_id-enumerator c, is_failure_id-enumerator d)

  contains_other :
      (distinct : Distinct ids) (c : Control)
      → is_failure c ≡ false
      → contains ids connect_failures (ids (enumerator c)) ≡ false
  unfolding connect_failures
  contains_other distinct c other = not-contains (ids (enumerator c)) connect_failures (
    differs attempt_failed refl,
    (
      differs already_connected refl,
      (
        differs no_free_incoming refl,
        (
          differs banned refl,
          (
            differs invalid_password refl,
            (differs incompatible_version refl, (differs recently_connected refl, tt)),
          ),
        ),
      ),
    ),
  )
    where
      differs : (d : Control) → is_failure d ≡ true → ids (enumerator d) ≢ ids (enumerator c)
      differs d f e = failure-ne-other d c f other (distinct (enumerator d) (enumerator c) e)

  route_mid_failure :
      (distinct : Distinct ids) (c : Control) (packet : Packet A) (s : S)
      → is_failure c ≡ true
      → leb (ids id_user_packet_enum) (ids (enumerator c)) ≡ false
      → route_mid ids sink packet packet.bytes (ids (enumerator c)) s
        ≡ some (sink.connect_failed packet.system_address (enumerator c) s)
  unfolding route_mid
  route_mid_failure distinct c packet s f low =
      rw
        (
          low,
          apart distinct c incoming (failure-ne-other c incoming f refl),
          apart distinct c accepted (failure-ne-other c accepted f refl),
          contains_failure c f,
        )
        (route_failure_lem packet (enumerator c) s distinct)

  -- The packet of a control message takes the branch of its message, whatever comes before it in
  -- the chain of tests.
  route_mid_control :
      (distinct : Distinct ids) (c : Control) (packet : Packet A) (s : S)
      → leb (ids id_user_packet_enum) (ids (enumerator c)) ≡ false
      → route_mid ids sink packet packet.bytes (ids (enumerator c)) s
        ≡ some (deliver sink c packet s)
  unfolding route_mid
  route_mid_control distinct incoming packet s low =
      rw (low, ==-refl (ids id_new_incoming_connection))
  route_mid_control distinct accepted packet s low = rw (
    low,
    apart distinct accepted incoming (λ e. cc),
    ==-refl (ids id_connection_request_accepted),
  )
  route_mid_control distinct graceful packet s low = rw (
    low,
    apart distinct graceful incoming (λ e. cc),
    apart distinct graceful accepted (λ e. cc),
    contains_other distinct graceful refl,
    ==-refl (ids id_disconnection_notification),
  )
  route_mid_control distinct lost packet s low = rw (
    low,
    apart distinct lost incoming (λ e. cc),
    apart distinct lost accepted (λ e. cc),
    contains_other distinct lost refl,
    apart distinct lost graceful (λ e. cc),
    ==-refl (ids id_connection_lost),
  )
  route_mid_control distinct answered packet s low = rw (
    low,
    apart distinct answered incoming (λ e. cc),
    apart distinct answered accepted (λ e. cc),
    contains_other distinct answered refl,
    apart distinct answered graceful (λ e. cc),
    apart distinct answered lost (λ e. cc),
    ==-refl (ids id_unconnected_pong),
  )
  route_mid_control distinct attempt_failed packet s low =
      route_mid_failure distinct attempt_failed packet s refl low
  route_mid_control distinct already_connected packet s low =
      route_mid_failure distinct already_connected packet s refl low
  route_mid_control distinct no_free_incoming packet s low =
      route_mid_failure distinct no_free_incoming packet s refl low
  route_mid_control distinct banned packet s low =
      route_mid_failure distinct banned packet s refl low
  route_mid_control distinct invalid_password packet s low =
      route_mid_failure distinct invalid_password packet s refl low
  route_mid_control distinct incompatible_version packet s low =
      route_mid_failure distinct incompatible_version packet s refl low
  route_mid_control distinct recently_connected packet s low =
      route_mid_failure distinct recently_connected packet s refl low

  -- Where the numbers of the message ids are distinct, a packet whose first byte is the number of
  -- one of the twelve control messages that the router handles, below the first user id, reaches
  -- the callback of that message, with the packet's sender; a failed connect names its own reason.
  pub route_control :
      (distinct : Distinct ids) (c : Control) (packet : Packet A) (rest : Bytes) (s : S)
      → packet.bytes ≡ ids (enumerator c) ∷ rest
      → ids (enumerator c) < ids id_user_packet_enum
      → route ids sink packet s ≡ some (deliver sink c packet s)
  route_control distinct c packet rest s e low =
      route-cons packet (ids (enumerator c)) rest s e
      ∙ route_mid_control distinct c packet s (ground arith)

  route_mid_user :
      (packet : Packet A) (mid : ℕ) (s : S)
      → ids id_user_packet_enum ≤ mid
      → route_mid ids sink packet packet.bytes mid s
        ≡ some (sink.message packet.guid packet.bytes s)
  unfolding route_mid
  route_mid_user packet mid s h =
      let e : leb (ids id_user_packet_enum) mid ≡ true = ground arith in rw e

  -- A packet whose first byte is a user id reaches `message`, with all its bytes.
  pub route_user :
      (packet : Packet A) (mid : ℕ) (rest : Bytes) (s : S)
      → packet.bytes ≡ mid ∷ rest
      → ids id_user_packet_enum ≤ mid
      → route ids sink packet s ≡ some (sink.message packet.guid packet.bytes s)
  route_user packet mid rest s e h = route-cons packet mid rest s e ∙ route_mid_user packet mid s h

  -- A packet whose first byte is neither a user id nor the number of a control message that the
  -- router handles changes nothing.
  pub route_ignored :
      (packet : Packet A) (mid : ℕ) (rest : Bytes) (s : S)
      → packet.bytes ≡ mid ∷ rest
      → mid < ids id_user_packet_enum
      → ((c : Control) → ids (enumerator c) ≢ mid)
      → route ids sink packet s ≡ some s
  unfolding route_mid connect_failures
  route_ignored packet mid rest s e low other =
      route-cons packet mid rest s e
      ∙ ground (
        arith,
        not-contains mid connect_failures (
          other attempt_failed,
          (
            other already_connected,
            (
              other no_free_incoming,
              (
                other banned,
                (
                  other invalid_password,
                  (other incompatible_version, (other recently_connected, tt)),
                ),
              ),
            ),
          ),
        ),
        other incoming,
        other accepted,
        other graceful,
        other lost,
        other answered,
      )
