-- ===== src/Router/Totality.antt =====
-- Routing a packet never raises.
use raknet_python.Prelude.{
  ℕ, ◌≡◌, ◌≢◌, refl, subst, none, Option-cases, true, Option, some, List, [], ◌∷◌, arith, ◌==◌,
  nat_eq, Bool-cases, inl, inr,
}
use raknet_python.Raw.Interface.{Bytes}
use raknet_python.Raw.MessageId.{DefaultMessageIdTypes}
use raknet_python.Raw.MessageId.Registered.{from_value_total}
use raknet_python.Raw.Peer.Packets.{Packet}
use raknet_python.Router.{Sink, contains, connect_failures, route_failure, route_mid, route}

abbrev Returns {ℓ} : {S : Type ℓ} → Option S → Type ℓ
Returns {S} o = (t : S) × (o ≡ some t)

member_of_contains :
    (ids : DefaultMessageIdTypes → ℕ) (mid : ℕ) (members : List DefaultMessageIdTypes)
    → contains ids members mid ≡ true
    → (m : DefaultMessageIdTypes) × (ids m ≡ mid)
unfolding contains
member_of_contains ids mid [] h = absurd (cc)
member_of_contains ids mid (m ∷ members) h = elim (Bool-cases (ids m == mid)) [
  | inl same ↦ (m, ground arith)
  | inr differs ↦ member_of_contains ids mid members (rw differs at h)
]

module _ (ids : DefaultMessageIdTypes → ℕ) {A S : Type 0} (sink : Sink A S) where
  route_failure-Returns :
      (packet : Packet A) (mid : ℕ) (s : S)
      → contains ids connect_failures mid ≡ true
      → Returns (route_failure ids sink packet mid s)
  unfolding route_failure
  route_failure-Returns packet mid s h =
      let (m, same) = member_of_contains ids mid connect_failures h in
      let (n, e, _) = from_value_total ids m in
      subst (λ k. Returns (route_failure ids sink packet k s)) same
        (sink.connect_failed packet.system_address n s, rw (route_failure, e))

  route_mid-ne-none :
      (packet : Packet A) (bytes : Bytes) (mid : ℕ) (s : S)
      → route_mid ids sink packet bytes mid s ≢ none
  unfolding route_mid
  route_mid-ne-none packet bytes mid s h = elim (Bool-cases (contains ids connect_failures mid)) [
    | inl failure ↦ let (t, e) = route_failure-Returns packet mid s failure in ground arith
    | inr other ↦ ground arith
  ]

  route_mid-Returns :
      (packet : Packet A) (bytes : Bytes) (mid : ℕ) (s : S)
      → Returns (route_mid ids sink packet bytes mid s)
  route_mid-Returns packet bytes mid s =
      elim (Option-cases (route_mid ids sink packet bytes mid s)) [
        | inl e ↦ absurd (route_mid-ne-none packet bytes mid s e)
        | inr r ↦ r
      ]

  -- Whatever the packet and whatever the numbers behind the message ids, `route` raises nothing:
  -- the `ValueError` of `_MSG(mid)` never comes. A packet with no bytes changes nothing.
  pub route_total :
      (packet : Packet A) (s : S)
      → ((t : S) × (route ids sink packet s ≡ some t))
        × (route ids sink (record packet { bytes = [] }) s ≡ some s)
  unfolding route
  route_total packet s = (returns packet.bytes, refl)
    where
      returns : (bytes : Bytes) → Returns (route ids sink (record packet { bytes = bytes }) s)
      returns [] = (s, refl)
      returns (mid ∷ rest) = route_mid-Returns _ (mid ∷ rest) mid s
