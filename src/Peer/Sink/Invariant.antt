-- ===== src/Peer/Sink/Invariant.antt =====
-- When a peer is in order.
use raknet_python.Prelude.{
  ℕ, ◌<◌, ◌≡◌, ◌≢◌, refl, true, Option, none, some, arith, string_eq, nat_eq,
}
use raknet_python.Prelude.Objects.{Ref, Objects, put_at, alloc}
use raknet_python.Raw.Interface.{Bytes, RakNetGuid, RakNet}
use raknet_python.Exceptions.{ConnectionClosed}
use raknet_python.Mailbox
use raknet_python.Mailbox.Bounds.{IsBounded, put-IsBounded}
use raknet_python.Peer.{Connection, Peer, new_connection, close_mailbox}
use raknet_python.Peer.Tables.{AllAt, put_at-AllAt, alloc-AllAt, Waits, IsTracked}

-- A connection has the peer's limit, holds no more than it, and has an exception where it is
-- closed.
pub record IsSound {A : Type 0} (max_queue : Option ℕ) (c : Connection A) : Type 0 where
  pub limit : c.mailbox.maxsize ≡ max_queue
  pub bounded : IsBounded c.mailbox
  pub ended : c.closed ≡ true → c.mailbox.exc ≢ none

module _ {A : Type 0} (cap : Option ℕ) where
  pub write-IsSound :
      (r : Ref) (c : Connection A) (s : Objects (Connection A))
      → (r < s.next → IsSound cap c)
      → AllAt (IsSound cap) s
      → AllAt (IsSound cap) (put_at r c s)
  write-IsSound = put_at-AllAt (IsSound cap)

  pub make-IsSound :
      (c : Connection A) (s : Objects (Connection A))
      → IsSound cap c
      → AllAt (IsSound cap) s
      → AllAt (IsSound cap) (alloc c s)
  make-IsSound = alloc-AllAt (IsSound cap)

-- The peer is in order: the connections in its table are open and stand under their guids, every
-- connection is sound, and the pending calls in its tables are not settled and are all distinct.
pub record IsValid {R : RakNet} (self : Peer R) : Type 0 where
  pub tracked : IsTracked self.connections self.connection_at
  pub sound : AllAt (IsSound self.max_queue) self.connection_at
  pub connects : Waits (λ p. p.event) self.pending_connects self.connect_at
  pub pings : Waits (λ p. p.event) self.pending_pings self.ping_at

module _ (R : RakNet) where
  open R use {SystemAddress}

  pub new_connection-IsSound :
      (self : Peer R) (address : SystemAddress) (guid : RakNetGuid)
      → IsSound self.max_queue (new_connection R self address guid)
  unfolding new_connection Mailbox.empty
  new_connection-IsSound self address guid = record {
    limit = refl;
    bounded = fits self.max_queue;
    ended = λ h. cc;
  }
    where
      fits : (max_queue : Option ℕ) → IsBounded (Mailbox.empty max_queue)
      fits none = tt
      fits (some n) = omega arith

  pub close_mailbox-IsSound :
      (cap : Option ℕ) (c : Connection SystemAddress) (exc : ConnectionClosed)
      → IsSound cap c
      → IsSound cap (close_mailbox R c exc)
  unfolding close_mailbox Mailbox.close
  close_mailbox-IsSound cap c exc h = record {
    limit = h.limit;
    bounded = h.bounded;
    ended = λ _ e. ground arith;
  }

  pub put-IsSound :
      (cap : Option ℕ) (c : Connection SystemAddress) (bytes : Bytes)
      → IsSound cap c
      → IsSound cap (record c { mailbox = (Mailbox.put c.mailbox bytes).1 })
  unfolding Mailbox.put
  put-IsSound cap c bytes h = record {
    limit = ground (arith, h.limit);
    bounded = put-IsBounded c.mailbox bytes h.bounded;
    ended = λ closed e. ground (arith, h.ended);
  }
