-- ===== src/Peer/Threads/Closings.antt =====
-- The same for closing a connection or the peer, and for `accept`.
use raknet_python.Prelude.{
  ℕ, Bool, true, false, Option, none, some, List, [], ◌∷◌, string_eq, nat_eq, if◌then◌else◌,
}
use raknet_python.Prelude.Objects.{Ref}
use raknet_python.Raw.Interface.{RakNet}
use raknet_python.Raw.MessageId.{id_connection_attempt_failed}
use raknet_python.Exceptions.{ConnectionClosed, closed_ok}
use raknet_python.Peer.{Peer}
use raknet_python.Peer.Closing.{
  Collected, begin_close, close_connections, fail_connects, end_pings, finish_close, raw_shutdown,
  close, fail, close_connection, connection_close,
}
use raknet_python.Peer.Accepting.{take_accepted}
use raknet_python.Peer.Threads.{
  disconnects, closes, blames, wakes_connect, pops, flags, closes_owner, accepts, close_blocks,
  fail_blocks, end_blocks, finish_blocks, after_begin,
}
use raknet_python.Peer.Threads.Exec.{exec}
use raknet_python.Peer.Threads.Alone.{Alone, ends, runs_on, append-Alone, first-Alone}
use raknet_python.Peer.Threads.Callbacks.{flags-Alone, blames-Alone, pops-Alone}

module _ (R : RakNet) (now : ℕ) where
  close_blocks-Alone :
      (exc : ConnectionClosed) (refs : List Ref) (p : Peer R)
      → Alone now (close_blocks R exc refs) p (close_connections R exc refs p)
  unfolding close_blocks close_connections
  close_blocks-Alone exc [] p = ends p
  close_blocks-Alone exc (r ∷ refs) p =
      append-Alone now (flags r none exc ∷ []) (close_blocks R exc refs) _ _ _
        (flags-Alone R now r exc p) (close_blocks-Alone exc refs _)

  fail_blocks-Alone :
      (refs : List Ref) (p : Peer R) → Alone now (fail_blocks R refs) p (fail_connects R refs p)
  unfolding fail_blocks fail_connects
  fail_blocks-Alone [] p = ends p
  fail_blocks-Alone (r ∷ refs) p =
      append-Alone now (blames r id_connection_attempt_failed ∷ wakes_connect r ∷ [])
        (fail_blocks R refs) _ _ _ (blames-Alone R now r id_connection_attempt_failed p)
        (fail_blocks-Alone refs _)

  end_blocks-Alone :
      (refs : List Ref) (p : Peer R) → Alone now (end_blocks R refs) p (end_pings R refs p)
  unfolding end_blocks end_pings exec
  end_blocks-Alone [] p = ends p
  end_blocks-Alone (r ∷ refs) p = runs_on _ _ _ _ (end_blocks-Alone refs _)

  finish_blocks-Alone :
      (state : Collected) (exc : ConnectionClosed) (p : Peer R)
      → Alone now (finish_blocks R state exc) p (finish_close R state exc p)
  unfolding finish_blocks finish_close exec
  finish_blocks-Alone state exc p =
      append-Alone now (close_blocks R exc state.connections) _ _ _ _
        (close_blocks-Alone exc state.connections p)
        (append-Alone now (fail_blocks R state.pending_connects) _ _ _ _
          (fail_blocks-Alone state.pending_connects _)
          (append-Alone now (end_blocks R state.pending_pings) _ _ _ _
            (end_blocks-Alone state.pending_pings _) (runs_on _ _ _ _ (ends _))))

  -- `_begin_close`, the shutdown of RakNet and `_finish_close`.
  after_begin-Alone :
      (ms : ℕ) (exc : ConnectionClosed) (state : Option Collected) (p : Peer R)
      → Alone now (after_begin R ms exc state) p (elim state [
        | none ↦ p
        | some collected ↦ finish_close R collected exc (raw_shutdown R ms p)
      ])
  unfolding after_begin exec
  after_begin-Alone ms exc none p = ends p
  after_begin-Alone ms exc (some state) p = runs_on _ _ _ _ (finish_blocks-Alone state exc _)

  pub closes-Alone :
      (ms : ℕ) (p : Peer R)
      → Alone now (closes ms (closed_ok "peer closed") ∷ []) p (close R (λ q. q) ms p)
  unfolding exec close
  closes-Alone ms p =
      first-Alone now _ _ _
        (after_begin-Alone ms (closed_ok "peer closed") (begin_close R p).0 (begin_close R p).1)

  pub crashes-Alone :
      (crash : ConnectionClosed) (p : Peer R) → Alone now (closes 0 crash ∷ []) p (fail R crash p)
  unfolding exec fail
  crashes-Alone crash p =
      first-Alone now _ _ _ (after_begin-Alone 0 crash (begin_close R p).0 (begin_close R p).1)

  owner-Alone :
      (owns : Bool) (p : Peer R)
      → Alone now
          (if owns then closes 500 (closed_ok "peer closed") ∷ [] else [])
          p
          (if owns then close R (λ q. q) 500 p else p)
  owner-Alone true p = closes-Alone 500 p
  owner-Alone false p = ends p

  closes_owner-Alone :
      (r : Ref) (p : Peer R)
      → Alone now
          (closes_owner r ∷ [])
          p
          (if (p.connection_at.at r).owns_peer then close R (λ q. q) 500 p else p)
  unfolding exec
  closes_owner-Alone r p = first-Alone now _ _ _ (owner-Alone (p.connection_at.at r).owns_peer p)

  disconnects_if-Alone :
      (shut : Bool) (r : Ref) (notify : Bool) (p : Peer R)
      → let q = if shut then p else close_connection R r notify p in
        Alone now
          (if shut
            then closes_owner r ∷ []
            else pops r notify (closed_ok "connection closed") ∷ closes_owner r ∷ [])
          p
          (if (q.connection_at.at r).owns_peer then close R (λ q. q) 500 q else q)
  unfolding close_connection
  disconnects_if-Alone true r notify p = closes_owner-Alone r p
  disconnects_if-Alone false r notify p =
      append-Alone now (pops r notify (closed_ok "connection closed") ∷ []) (closes_owner r ∷ []) _
        _ _ (pops-Alone R now r notify (closed_ok "connection closed") p)
        (closes_owner-Alone r (close_connection R r notify p))

  pub disconnects-Alone :
      (r : Ref) (notify : Bool) (p : Peer R)
      → Alone now (disconnects r notify ∷ []) p (connection_close R (λ q. q) r notify p)
  unfolding exec connection_close
  disconnects-Alone r notify p =
      first-Alone now _ _ _ (disconnects_if-Alone (p.connection_at.at r).closed r notify p)

  pub accepts-Alone :
      (queue : List (Option Ref)) (p : Peer R)
      → Alone now
          (accepts ∷ [])
          (record p { accept_queue = queue })
          (take_accepted R (record p { accept_queue = queue })).1
  unfolding exec take_accepted
  accepts-Alone [] p = runs_on _ _ _ _ (ends _)
  accepts-Alone (none ∷ queue) p = runs_on _ _ _ _ (runs_on _ _ _ _ (ends _))
  accepts-Alone (some r ∷ queue) p = runs_on _ _ _ _ (ends _)
