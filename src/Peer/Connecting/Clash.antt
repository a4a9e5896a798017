-- ===== src/Peer/Connecting/Clash.antt =====
-- Two calls of `connect` to one address at the same time.
use raknet_python.Prelude.{◌≡◌, ◌≢◌, ==-refl, false, String, some, ◌+◌, arith, string_eq}
use raknet_python.Prelude.Dict.{insert, lookup, lookup-insert}
use raknet_python.Raw.Interface.{RakNet}
use raknet_python.Peer.{Peer}
use raknet_python.Peer.Connecting.{register_connect}
use raknet_python.Peer.Sink.Invariant.{IsValid}

module _ (R : RakNet) where
  -- When two calls of `connect` register under one key, in a peer that is in order, the key leads
  -- to the second one; the first one is in the table under no key, and its event is not set.
  pub register_connect-orphans :
      (self : Peer R) (key k : String)
      → IsValid self
      → let first = self.connect_at.next in
        let twice = register_connect R key (register_connect R key self) in
        (lookup key twice.pending_connects ≡ some (first + 1))
        × (lookup k twice.pending_connects ≢ some first)
        × ((twice.connect_at.at first).event ≡ false)
  unfolding register_connect
  register_connect-orphans self key k valid =
      let first = self.connect_at.next in
      (
        ground (
          arith,
          lookup-insert key key (first + 1) (insert key first self.pending_connects),
          ==-refl key,
        ),
        λ h. ground (
          arith,
          lookup-insert k key (first + 1) (insert key first self.pending_connects),
          lookup-insert k key first self.pending_connects,
          valid.connects.made k first,
        ),
        ground arith,
      )
