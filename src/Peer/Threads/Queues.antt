-- ===== src/Peer/Threads/Queues.antt =====
-- What becomes of a connection, however the threads take turns.
use raknet_python.Prelude.{ℕ, ◌<◌, List, [], ◌∷◌, ◌++◌, arith, nat_eq, ◌==◌, if◌then◌else◌}
use raknet_python.Prelude.Objects.{Ref}
use raknet_python.Raw.Interface.{Bytes, RakNet}
use raknet_python.Mailbox
use raknet_python.Mailbox.{Mailbox}
use raknet_python.Peer.{Peer}
use raknet_python.Peer.Sink.{track, pop_pending_connect}
use raknet_python.Peer.Closing.{raw_shutdown}
use raknet_python.Peer.Connecting.{withdraw_connect}
use raknet_python.Peer.Pinging.{withdraw_ping}
use raknet_python.Peer.Threads.{
  Block, comes, enters_connect, enters_ping, accepts, takes, owns, closes, commits, puts, flags,
  seals,
}
use raknet_python.Peer.Threads.Exec.{exec}
use raknet_python.Peer.Threads.Turns.{Threads, begins, runs, Interleaved, start, later}
use raknet_python.Peer.Threads.Sealing.{
  enter_connect-connection_at, enter_ping-connection_at, begin_close-connection_at,
  accepts-connection_at,
}
use raknet_python.Peer.Threads.Progress.{
  Progress, front, HasProgress, Progress-refl, Progress-trans, alloc-Progress, same-HasProgress,
  write-Progress, flag-Progress, own-Progress, seal-Progress, takes-Progress, puts-Progress,
}

module _ {R : RakNet} where
  -- The messages that a block takes from the mailbox of a connection and puts into it.
  abbrev pub taken : Ref → Block R → Peer R → List Bytes
  taken r b p = elim b [
    | takes q ↦ if q == r then front (p.connection_at.at q).mailbox.items else []
    | _ ↦ []
  ]

  abbrev pub arrived : Ref → Block R → Peer R → List Bytes
  arrived r b p = elim b [
    | puts q bytes ↦
        if q == r
        then (if (Mailbox.put (p.connection_at.at q).mailbox bytes).0 then bytes ∷ [] else [])
        else []
    | _ ↦ []
  ]

module _ (R : RakNet) where
  exec-Progress :
      (now : ℕ) (b : Block R) (p : Peer R) (r : Ref)
      → r < p.connection_at.next
      → HasProgress (taken r b p) (arrived r b p) p.connection_at (exec R now b p).1.connection_at r
  unfolding exec track pop_pending_connect withdraw_connect withdraw_ping raw_shutdown
  exec-Progress now b p r made =
      elim b
        as (λ b.
          HasProgress (taken r b p) (arrived r b p) p.connection_at (exec R now b p).1.connection_at
            r) [
              | comes address guid ↦ (omega arith, alloc-Progress _ p.connection_at r made)
              | enters_connect key ↦
                  same-HasProgress _ _ (enter_connect-connection_at R key p) r made
              | enters_ping key ↦ same-HasProgress _ _ (enter_ping-connection_at R now key p) r made
              | accepts ↦ same-HasProgress _ _ (accepts-connection_at R now p) r made
              | takes q ↦ (made, takes-Progress q p.connection_at r)
              | owns q ↦
                  (made, write-Progress q _ p.connection_at r (own-Progress (p.connection_at.at q)))
              | closes ms exc ↦ same-HasProgress _ _ (begin_close-connection_at R p) r made
              | commits address guid pending ↦
                  (omega arith, alloc-Progress _ p.connection_at r made)
              | puts q bytes ↦ (made, puts-Progress q bytes p.connection_at r)
              | flags q notify exc ↦ (
                made,
                write-Progress q _ p.connection_at r (flag-Progress (p.connection_at.at q)),
              )
              | seals q exc ↦ (
                made,
                write-Progress q _ p.connection_at r (seal-Progress (p.connection_at.at q) exc),
              )
              | _ ↦ (made, Progress-refl _)
            ]

module _ {R : RakNet} {s : Threads R} (r : Ref) where
  -- The messages that are taken from the mailbox and put into it, over all turns.
  pub departures : {t : Threads R} → Interleaved s t → List Bytes
  departures start = []
  departures (later before (begins i b free first)) = departures before
  departures (later {t = t} before (runs i now b rest e)) = departures before ++ taken r b t.peer

  pub arrivals : {t : Threads R} → Interleaved s t → List Bytes
  arrivals start = []
  arrivals (later before (begins i b free first)) = arrivals before
  arrivals (later {t = t} before (runs i now b rest e)) = arrivals before ++ arrived r b t.peer

  along-HasProgress :
      {t : Threads R} (path : Interleaved s t)
      → r < s.peer.connection_at.next
      → HasProgress (departures path) (arrivals path) s.peer.connection_at t.peer.connection_at r
  unfolding departures arrivals
  along-HasProgress start made = (made, Progress-refl (s.peer.connection_at.at r))
  along-HasProgress (later before (begins i b free first)) made = along-HasProgress before made
  along-HasProgress (later {t = t} before (runs i now b rest e)) made =
      let (still, f) = along-HasProgress before made in
      let (there, g) = exec-Progress R now b t.peer r still in
      (there, Progress-trans _ _ _ _ _ _ _ f g)

-- However the threads take turns: a connection that has been made keeps its address and its guid;
-- once it is closed it stays closed, and once its mailbox has an exception it keeps that one; and the
-- messages that were taken from its mailbox, followed by those that are there, are those that were
-- there at first, followed by those that the mailbox has accepted, each once and in order.
pub Interleaved-Progress :
    (R : RakNet) (s t : Threads R) (r : Ref) (path : Interleaved s t)
    → r < s.peer.connection_at.next
    → Progress
        (departures r path)
        (arrivals r path)
        (s.peer.connection_at.at r)
        (t.peer.connection_at.at r)
Interleaved-Progress R s t r path made = (along-HasProgress r path made).1
