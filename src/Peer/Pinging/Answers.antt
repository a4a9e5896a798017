-- ===== src/Peer/Pinging/Answers.antt =====
-- How a pending ping is answered.
use raknet_python.Prelude.{
  ℕ, ◌-◌, ◌≡◌, ◌≢◌, refl, true, false, none, some, arith, ◌==◌, ==-refl, nat_eq, string_eq,
}
use raknet_python.Prelude.Dict.{lookup, lookup-erase}
use raknet_python.Prelude.Objects.{Ref}
use raknet_python.Raw.Interface.{Bytes, RakNetGuid, RakNet}
use raknet_python.Exceptions.{ok}
use raknet_python.Peer.{Peer, address_key, to_address}
use raknet_python.Peer.Sink.{pong, answer_ping}
use raknet_python.Peer.Pinging.{withdraw_ping, finish_ping}

module _ (R : RakNet) where
  open R use {SystemAddress}

  -- A pong from an address that a ping is pending for is what that `ping` returns: the address, the
  -- guid and the payload of the pong, and the time since the ping was registered. The call leaves
  -- its table, and every other pending ping stays as it is.
  pub pong-answers :
      (self : Peer R) (now : ℕ) (address : SystemAddress) (guid : RakNetGuid) (bytes : Bytes)
      (pending q : Ref)
      → lookup (address_key R address) self.pending_pings ≡ some pending
      → q ≢ pending
      → let self' = pong R now address guid bytes self in
        ((self'.ping_at.at pending).event ≡ true)
        × (finish_ping R (self'.ping_at.at pending)
            ≡ ok (record {
              address = to_address R address;
              guid = guid.g;
              payload = bytes;
              round_trip_time = now - (self.ping_at.at pending).started;
            }))
        × (lookup (address_key R address) self'.pending_pings ≡ none)
        × (self'.ping_at.at q ≡ self.ping_at.at q)
  unfolding pong answer_ping finish_ping
  pong-answers self now address guid bytes pending q found other =
      let differs : (pending == q) ≡ false = ground arith in
      rw (pong, found)
        (
          rw (==-refl pending) refl,
          rw (==-refl pending) refl,
          rw
              (
                lookup-erase (address_key R address) (address_key R address) self.pending_pings,
                ==-refl (address_key R address),
              )
              refl,
          rw differs refl,
        )

  -- Once a `ping` has withdrawn its call, because its time ran out or because the request was not
  -- sent, a pong from that address changes no pending ping.
  pong-withdrawn :
      (self : Peer R) (now : ℕ) (address : SystemAddress) (guid : RakNetGuid) (bytes : Bytes)
      → let self' = withdraw_ping R (address_key R address) self in
        (pong R now address guid bytes self').ping_at ≡ self.ping_at
  unfolding pong withdraw_ping
  pong-withdrawn self now address guid bytes =
      let gone : lookup (address_key R address)
            (withdraw_ping R (address_key R address) self).pending_pings
          ≡ none =
        rw
          (
            lookup-erase (address_key R address) (address_key R address) self.pending_pings,
            ==-refl (address_key R address),
          )
          refl in
      rw (pong, gone) refl
