-- ===== src/Peer/Steps/Lifetime.antt =====
-- The end of a connection is final, whatever the threads do afterwards.
use raknet_python.Prelude.{ℕ, ◌<◌, ◌≡◌, refl, true, Option, none, some, List, [], ◌∷◌}
use raknet_python.Prelude.Int.{ℤ}
use raknet_python.Prelude.Objects.{Ref}
use raknet_python.Raw.Enums.{PacketPriority, PacketReliability}
use raknet_python.Raw.Interface.{Bytes, RakNet}
use raknet_python.Router.Preserves.{Preserves}
use raknet_python.Exceptions.{ConnectionClosed, closed, connection_closed, raise}
use raknet_python.Mailbox
use raknet_python.Mailbox.{Mailbox}
use raknet_python.Peer.{Connection, Peer}
use raknet_python.Peer.Sink.{sink}
use raknet_python.Peer.Sink.Invariant.{IsValid}
use raknet_python.Peer.Sink.Onward.{
  IsRestOf, Follows, IsOnward-refl, IsOnward-trans, put_at-IsOnward, IsOnwardStep,
  incoming_connection-IsOnward, connect_succeeded-IsOnward, connect_failed-IsOnward,
  message-IsOnward, disconnected-IsOnward, pong-IsOnward,
}
use raknet_python.Peer.Closing.Onward.{close-IsOnward, fail-IsOnward, connection_close-IsOnward}
use raknet_python.Peer.Connecting.{register_connect, withdraw_connect}
use raknet_python.Peer.Pinging.{register_ping, withdraw_ping}
use raknet_python.Peer.Accepting.{take_accepted}
use raknet_python.Peer.Pump.Invariant.{IsValid-Kept}
use raknet_python.Peer.Pump.Keeps.{Kept, pump_round-Kept}
use raknet_python.Peer.Talking.{send}
use raknet_python.Peer.Steps.{
  Step, pumps, registers, withdraws, pings, unpings, calls, takes, accepts, disconnects, closes,
  Reach, here, next, Step-IsValid,
}

module _ (R : RakNet) where
  open R use {SystemAddress}

  -- A peer that is in order, whose connections have come from those of another peer.
  record IsAfter (p q : Peer R) : Type 0 where
    valid : IsValid q
    onward : IsOnwardStep R p q

  module _ (p : Peer R) where
    further : (q q' : Peer R) → IsAfter p q → IsValid q' → IsOnwardStep R q q' → IsAfter p q'
    further q q' h v f = record {
      valid = v;
      onward = IsOnward-trans p.connection_at q.connection_at q'.connection_at h.onward f;
    }

    callbacks-Preserves : (now : ℕ) → Preserves (sink R now) (IsAfter p)
    callbacks-Preserves now =
        let keep = (IsValid-Kept R).callbacks now in
        record {
          incoming_connection = λ a g q h.
              further q _ h (keep.incoming_connection a g q h.valid)
                (incoming_connection-IsOnward R a g q);
          connect_succeeded = λ a g q h.
              further q _ h (keep.connect_succeeded a g q h.valid)
                (connect_succeeded-IsOnward R a g q);
          connect_failed = λ a e q h.
              further q _ h (keep.connect_failed a e q h.valid) (connect_failed-IsOnward R a e q);
          message = λ g b q h.
              further q _ h (keep.message g b q h.valid) (message-IsOnward R g b q h.valid);
          disconnected = λ g b q h.
              further q _ h (keep.disconnected g b q h.valid) (disconnected-IsOnward R g b q);
          pong =
              λ a g b q h. further q _ h (keep.pong a g b q h.valid) (pong-IsOnward R now a g b q);
        }

    IsAfter-Kept : Kept {R = R} (IsAfter p)
    IsAfter-Kept = record {
      callbacks = callbacks-Preserves;
      crashes =
          λ exc q h. further q _ h ((IsValid-Kept R).crashes exc q h.valid) (fail-IsOnward R exc q);
      calls = λ raw q h.
          further q _ h ((IsValid-Kept R).calls raw q h.valid) (IsOnward-refl q.connection_at);
    }

  take_first-IsRestOf :
      (items : List Bytes) (exc : Option ConnectionClosed) (maxsize : Option ℕ)
      → let m : Mailbox = record { items = items; exc = exc; maxsize = maxsize } in
        ((Mailbox.take_first m).1.exc ≡ exc) × IsRestOf (Mailbox.take_first m).1.items items
  unfolding Mailbox.take_first
  take_first-IsRestOf (item ∷ items) exc maxsize = (refl, (item ∷ [], refl))
  take_first-IsRestOf [] (some e) maxsize = (refl, ([], refl))
  take_first-IsRestOf [] none maxsize = (refl, ([], refl))

  take_first-Follows :
      (c : Connection SystemAddress)
      → Follows c (record c { mailbox = (Mailbox.take_first c.mailbox).1 })
  take_first-Follows c shut named =
      let (same, rest) = take_first-IsRestOf c.mailbox.items c.mailbox.exc c.mailbox.maxsize in
      (shut, same, rest)

  take_accepted-IsOnward :
      (q : Peer R) (queue : List (Option Ref))
      → IsOnwardStep R q (take_accepted R (record q { accept_queue = queue })).1
  unfolding take_accepted
  take_accepted-IsOnward q [] = IsOnward-refl q.connection_at
  take_accepted-IsOnward q (none ∷ queue) = IsOnward-refl q.connection_at
  take_accepted-IsOnward q (some r ∷ queue) = IsOnward-refl q.connection_at

  Step-IsOnward : {q q' : Peer R} → Step R q q' → IsValid q → IsOnwardStep R q q'
  unfolding register_connect withdraw_connect register_ping withdraw_ping
  Step-IsOnward (pumps now q) v =
      (pump_round-Kept (IsAfter q) (IsAfter-Kept q) now q
        (record { valid = v; onward = IsOnward-refl q.connection_at })).onward
  Step-IsOnward (registers key q opened) v = IsOnward-refl q.connection_at
  Step-IsOnward (withdraws key q) v = IsOnward-refl q.connection_at
  Step-IsOnward (pings now key q opened) v = IsOnward-refl q.connection_at
  Step-IsOnward (unpings key q) v = IsOnward-refl q.connection_at
  Step-IsOnward (calls raw q) v = IsOnward-refl q.connection_at
  Step-IsOnward (takes r q) v =
      put_at-IsOnward r _ q.connection_at (take_first-Follows (q.connection_at.at r))
  Step-IsOnward (accepts q) v = take_accepted-IsOnward q q.accept_queue
  Step-IsOnward (disconnects r notify q made) v = connection_close-IsOnward R r notify q
  Step-IsOnward (closes ms q) v = close-IsOnward R ms q

  Reach-IsAfter : {p q : Peer R} → Reach R p q → IsValid p → IsAfter p q
  Reach-IsAfter here v = record { valid = v; onward = IsOnward-refl _ }
  Reach-IsAfter (next before step) v =
      let h = Reach-IsAfter before v in
      further _ _ _ h (Step-IsValid R step h.valid) (Step-IsOnward step h.valid)

  send-closed :
      (r : Ref) (bytes : Bytes) (reliability : PacketReliability) (priority : PacketPriority)
      (channel : ℤ) (self : Peer R)
      → (self.connection_at.at r).closed ≡ true
      → send R r bytes reliability priority channel self
        ≡ (raise (connection_closed (closed "connection is closed")), self)
  unfolding send
  send-closed r bytes reliability priority channel self shut = rw shut refl

  -- Once a connection of a peer that is in order is closed, it is closed after any steps of the
  -- threads, in any order, where the pump thread is between two packets whenever the peer is closed.
  -- It keeps its exception; of the messages that it had, some first ones may have been taken, and
  -- no message is added; and `send` on it raises `ConnectionClosed` and hands nothing to RakNet.
  pub Reach-closed :
      (p q : Peer R) (r : Ref) (bytes : Bytes) (reliability : PacketReliability)
      (priority : PacketPriority) (channel : ℤ)
      → IsValid p
      → Reach R p q
      → r < p.connection_at.next
      → (p.connection_at.at r).closed ≡ true
      → ((q.connection_at.at r).closed ≡ true)
        × ((q.connection_at.at r).mailbox.exc ≡ (p.connection_at.at r).mailbox.exc)
        × IsRestOf (q.connection_at.at r).mailbox.items (p.connection_at.at r).mailbox.items
        × (send R r bytes reliability priority channel q
            ≡ (raise (connection_closed (closed "connection is closed")), q))
  Reach-closed p q r bytes reliability priority channel v path made shut =
      let (still, same, rest) =
        (Reach-IsAfter path v).onward.follows r made shut ((v.sound r made).ended shut) in
      (still, same, rest, send-closed r bytes reliability priority channel q still)
