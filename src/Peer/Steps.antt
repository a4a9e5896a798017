-- ===== src/Peer/Steps.antt =====
-- All that the threads do with one peer, as steps that any thread may take in any order.
pub mod Lifetime
use raknet_python.Prelude.{
  ℕ, ◌<◌, ◌≡◌, refl, Bool, false, String, Option, none, some, List, [], ◌∷◌, arith, ap, subst, sym,
}
use raknet_python.Prelude.Objects.{Ref, put_at}
use raknet_python.Raw.Interface.{RakNet}
use raknet_python.Exceptions.{closed_ok}
use raknet_python.Mailbox
use raknet_python.Peer.{Connection, Peer}
use raknet_python.Peer.Tables.{erase-Waits, register-Waits, write-IsTracked}
use raknet_python.Peer.Sink.Invariant.{IsSound, write-IsSound, IsValid}
use raknet_python.Peer.Closing.{close, connection_close}
use raknet_python.Peer.Closing.Invariant.{
  close-IsValid, connection_close-IsValid, nil-Waits, nil-IsTracked,
}
use raknet_python.Peer.Connecting.{register_connect, withdraw_connect}
use raknet_python.Peer.Pinging.{register_ping, withdraw_ping}
use raknet_python.Peer.Accepting.{take_accepted}
use raknet_python.Peer.Pump.{pump_round}
use raknet_python.Peer.Pump.Invariant.{pump_round-IsValid}
use raknet_python.Peer.Starting.{new_peer}
use raknet_python.Mailbox.Bounds.{take_first-IsBounded}

-- The steps: a round of the pump; the blocks of `connect` and `ping` under the lock; a call of
-- RakNet that only changes its state; a message taken by `recv`; an entry taken by `accept`; and
-- the closing of a connection or of the peer, with the pump thread between two packets.
pub data Step (R : RakNet) : Peer R → Peer R → Type 0 where
  pumps : (now : ℕ) (p : Peer R) → Step R p (pump_round R now p)
  registers : (key : String) (p : Peer R) → p.closed ≡ false → Step R p (register_connect R key p)
  withdraws : (key : String) (p : Peer R) → Step R p (withdraw_connect R key p)
  pings :
      (now : ℕ) (key : String) (p : Peer R)
      → p.closed ≡ false
      → Step R p (register_ping R now key p)
  unpings : (key : String) (p : Peer R) → Step R p (withdraw_ping R key p)
  calls : (raw : R.RakPeerInterface) (p : Peer R) → Step R p (record p { raw = raw })
  takes :
      (r : Ref) (p : Peer R)
      → Step R p (record p {
        connection_at =
            put_at r
              (record (p.connection_at.at r) {
                mailbox = (Mailbox.take_first (p.connection_at.at r).mailbox).1;
              })
              p.connection_at;
      })
  accepts : (p : Peer R) → Step R p (take_accepted R p).1
  disconnects :
      (r : Ref) (notify : Bool) (p : Peer R)
      → r < p.connection_at.next
      → Step R p (connection_close R (λ q. q) r notify p)
  closes : (ms : ℕ) (p : Peer R) → Step R p (close R (λ q. q) ms p)

pub data Reach (R : RakNet) (p : Peer R) : Peer R → Type 0 where
  here : Reach R p p
  next : {q q' : Peer R} → Reach R p q → Step R q q' → Reach R p q'

module _ (R : RakNet) where
  open R use {SystemAddress}

  take_first-IsSound :
      (cap : Option ℕ) (c : Connection SystemAddress)
      → IsSound cap c
      → IsSound cap (record c { mailbox = (Mailbox.take_first c.mailbox).1 })
  unfolding Mailbox.take_first
  take_first-IsSound cap c h = record {
    limit = ground (arith, h.limit);
    bounded = take_first-IsBounded c.mailbox h.bounded;
    ended = λ shut e. ground (arith, h.ended);
  }

  takes-IsValid :
      (r : Ref) (p : Peer R) (c : Connection SystemAddress)
      → c ≡ record (p.connection_at.at r) {
        mailbox = (Mailbox.take_first (p.connection_at.at r).mailbox).1;
      }
      → IsValid p
      → IsValid {R = R} (record p { connection_at = put_at r c p.connection_at })
  takes-IsValid r p c e v = record {
    tracked = write-IsTracked v.tracked r c (ap (λ d. d.raw_guid.g) e) (ap (λ d. d.closed) e);
    sound =
        write-IsSound p.max_queue r c p.connection_at
          (λ made.
            subst (IsSound p.max_queue) (sym e) (take_first-IsSound p.max_queue _ (v.sound r made)))
          v.sound;
    connects = v.connects;
    pings = v.pings;
  }

  accepts-IsValid :
      (p : Peer R) (queue : List (Option Ref))
      → IsValid p
      → IsValid (take_accepted R (record p { accept_queue = queue })).1
  unfolding take_accepted
  accepts-IsValid p [] v = record {
    tracked = v.tracked;
    sound = v.sound;
    connects = v.connects;
    pings = v.pings;
  }
  accepts-IsValid p (none ∷ queue) v = record {
    tracked = v.tracked;
    sound = v.sound;
    connects = v.connects;
    pings = v.pings;
  }
  accepts-IsValid p (some r ∷ queue) v = record {
    tracked = v.tracked;
    sound = v.sound;
    connects = v.connects;
    pings = v.pings;
  }

  -- Every step leaves a peer that is in order in order.
  pub Step-IsValid : {p q : Peer R} → Step R p q → IsValid p → IsValid q
  unfolding register_connect withdraw_connect register_ping withdraw_ping
  Step-IsValid (pumps now p) v = pump_round-IsValid R now p v
  Step-IsValid (registers key p opened) v = record {
    tracked = v.tracked;
    sound = v.sound;
    connects = register-Waits v.connects key _ refl;
    pings = v.pings;
  }
  Step-IsValid (withdraws key p) v = record {
    tracked = v.tracked;
    sound = v.sound;
    connects = erase-Waits v.connects key;
    pings = v.pings;
  }
  Step-IsValid (pings now key p opened) v = record {
    tracked = v.tracked;
    sound = v.sound;
    connects = v.connects;
    pings = register-Waits v.pings key _ refl;
  }
  Step-IsValid (unpings key p) v = record {
    tracked = v.tracked;
    sound = v.sound;
    connects = v.connects;
    pings = erase-Waits v.pings key;
  }
  Step-IsValid (calls raw p) v = record {
    tracked = v.tracked;
    sound = v.sound;
    connects = v.connects;
    pings = v.pings;
  }
  Step-IsValid (takes r p) v = takes-IsValid r p _ refl v
  Step-IsValid (accepts p) v = accepts-IsValid p p.accept_queue v
  Step-IsValid (disconnects r notify p made) v = connection_close-IsValid R r notify p v
  Step-IsValid (closes ms p) v = (close-IsValid R ms (closed_ok "peer closed") p v).0

  new_peer-IsValid : (cap : Option ℕ) (raw : R.RakPeerInterface) → IsValid (new_peer R cap raw)
  unfolding new_peer
  new_peer-IsValid cap raw = record {
    tracked = nil-IsTracked _;
    sound = λ r h. absurd (omega arith);
    connects = nil-Waits _ _;
    pings = nil-Waits _ _;
  }

  -- A new peer is in order after any steps of its threads, in any order, where the pump thread is
  -- between two packets whenever the peer is closed: each connection in its table is open and
  -- stands under its own guid; every connection that was ever made has the limit of the peer,
  -- holds no more messages than it, and has an exception where it is closed; and the pending calls
  -- in its tables have been made, have events that are not set, and are different objects under
  -- different keys.
  pub Reach-IsValid :
      (cap : Option ℕ) (raw : R.RakPeerInterface) (q : Peer R)
      → Reach R (new_peer R cap raw) q
      → IsValid q
  Reach-IsValid cap raw q path = along path
    where
      along : {q : Peer R} → Reach R (new_peer R cap raw) q → IsValid q
      along here = new_peer-IsValid cap raw
      along (next before step) = Step-IsValid step (along before)
