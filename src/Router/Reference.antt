-- ===== src/Router/Reference.antt =====
-- `route` against a description of it by a table of the control messages.
use raknet_python.Prelude.{
  ℕ, zero, suc, get_elem?, ◌<◌, ◌≡◌, ◌≢◌, ◌∙◌, refl, sym, ap, Option, none, some, List, [], ◌∷◌,
  arith, leb, ◌==◌, nat_eq, if◌then◌else◌, Bool-cases, Option-cases, inl, inr,
}
use raknet_python.Raw.Interface.{Bytes}
use raknet_python.Raw.MessageId.{DefaultMessageIdTypes, id_user_packet_enum}
use raknet_python.Raw.MessageId.Registered.{Distinct}
use raknet_python.Raw.Peer.Packets.{Packet}
use raknet_python.Router.{Sink, route}
use raknet_python.Router.Control.{
  Control, incoming, accepted, graceful, lost, answered, attempt_failed, already_connected,
  no_free_incoming, banned, invalid_password, incompatible_version, recently_connected, enumerator,
  deliver,
}
use raknet_python.Router.Dispatch.{route_control, route_user, route_ignored}

abbrev pub controls : List Control
controls =
    incoming ∷ accepted ∷ graceful ∷ lost ∷ answered ∷ attempt_failed ∷ already_connected
    ∷ no_free_incoming ∷ banned ∷ invalid_password ∷ incompatible_version ∷ recently_connected ∷ []

listed : (c : Control) → (i : ℕ) × (get_elem? controls i ≡ some c)
listed incoming = (0, refl)
listed accepted = (1, refl)
listed graceful = (2, refl)
listed lost = (3, refl)
listed answered = (4, refl)
listed attempt_failed = (5, refl)
listed already_connected = (6, refl)
listed no_free_incoming = (7, refl)
listed banned = (8, refl)
listed invalid_password = (9, refl)
listed incompatible_version = (10, refl)
listed recently_connected = (11, refl)

module _ (ids : DefaultMessageIdTypes → ℕ) where
  -- The control message with a number, of some control messages.
  abbrev pub control_in : List Control → ℕ → Option Control
  control_in [] mid = none
  control_in (c ∷ cs) mid = if ids (enumerator c) == mid then some c else control_in cs mid

  control_in-some :
      (cs : List Control) (mid : ℕ) (c : Control)
      → control_in cs mid ≡ some c
      → ids (enumerator c) ≡ mid
  control_in-some [] mid c h = cc
  control_in-some (d ∷ cs) mid c h = elim (Bool-cases (ids (enumerator d) == mid)) [
    | inl same ↦ ground arith
    | inr other ↦ control_in-some cs mid c (rw other at h)
  ]

  control_in-none :
      (cs : List Control) (mid i : ℕ) (c : Control)
      → get_elem? cs i ≡ some c
      → control_in cs mid ≡ none
      → ids (enumerator c) ≢ mid
  control_in-none [] mid i c at h e = cc
  control_in-none (d ∷ cs) mid zero c at h e = ground arith
  control_in-none (d ∷ cs) mid (suc i) c at h e = elim (Bool-cases (ids (enumerator d) == mid)) [
    | inl same ↦ ground arith
    | inr other ↦ control_in-none cs mid i c at (rw other at h) e
  ]

  module _ {A S : Type 0} (sink : Sink A S) where
    -- What becomes of a packet with some bytes: a message for a user id, the callback of its control
    -- message for another number that has one, and else nothing.
    abbrev pub reference : Bytes → Packet A → S → S
    reference [] packet s = s
    reference (mid ∷ rest) packet s =
        if leb (ids id_user_packet_enum) mid
        then sink.message packet.guid packet.bytes s
        else elim (control_in controls mid) [ none ↦ s | some c ↦ deliver sink c packet s ]

    route-none : (packet : Packet A) (s : S) → packet.bytes ≡ [] → route ids sink packet s ≡ some s
    unfolding route
    route-none packet s e = rw e refl

    route_below :
        (distinct : Distinct ids) (packet : Packet A) (mid : ℕ) (rest : Bytes) (s : S)
        → packet.bytes ≡ mid ∷ rest
        → mid < ids id_user_packet_enum
        → route ids sink packet s
          ≡ some (elim (control_in controls mid) [ none ↦ s | some c ↦ deliver sink c packet s ])
    route_below distinct packet mid rest s e low = elim (Option-cases (control_in controls mid)) [
      | inl absent ↦ rw absent (
          route_ignored ids sink packet mid rest s e low
            (λ c. let (i, at) = listed c in control_in-none controls mid i c at absent))
      | inr (c, found) ↦
          let named = control_in-some controls mid c found in
          rw found (
            route_control ids sink distinct c packet rest s (e ∙ ap (λ n. n ∷ rest) (sym named))
              (omega arith))
    ]

    route_bytes :
        (distinct : Distinct ids) (packet : Packet A) (bytes : Bytes) (s : S)
        → packet.bytes ≡ bytes
        → route ids sink packet s ≡ some (reference bytes packet s)
    route_bytes distinct packet [] s e = route-none packet s e
    route_bytes distinct packet (mid ∷ rest) s e =
        elim (Bool-cases (leb (ids id_user_packet_enum) mid)) [
          | inl user ↦ rw user (route_user ids sink packet mid rest s e (ground arith))
          | inr low ↦ rw low (route_below distinct packet mid rest s e (ground arith))
        ]

    -- Where the numbers of the message ids are distinct, `route` never raises, and does with every
    -- packet what the table of the twelve control messages says: nothing with an empty one, a
    -- message for a first byte that is a user id, the callback of the control message whose number
    -- the first byte is, and nothing for any other first byte.
    pub route-reference :
        Distinct ids
        → (packet : Packet A) (s : S)
        → route ids sink packet s ≡ some (reference packet.bytes packet s)
    route-reference distinct packet s = route_bytes distinct packet packet.bytes s refl
