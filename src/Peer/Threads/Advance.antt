-- ===== src/Peer/Threads/Advance.antt =====
-- Every block leaves a peer that is safe safe, and the blocks that follow it and those of the other
-- threads fit the peer that it leaves.
use raknet_python.Prelude.{
  ℕ, ◌≡◌, refl, Bool, true, false, String, Option, none, some, List, [], ◌∷◌, arith, string_eq,
  nat_eq, if◌then◌else◌,
}
use raknet_python.Prelude.Dict.{lookup}
use raknet_python.Prelude.Objects.{Ref}
use raknet_python.Raw.Interface.{Bytes, RakNet}
use raknet_python.Exceptions.{ConnectionClosed, Result}
use raknet_python.Mailbox
use raknet_python.Mailbox.{Mailbox}
use raknet_python.Mailbox.Bounds.{put-IsBounded, take_first-IsBounded}
use raknet_python.Peer.{Peer, address_key}
use raknet_python.Peer.Sink.{pop_pending_connect}
use raknet_python.Peer.Closing.{Collected, begin_close, raw_shutdown}
use raknet_python.Peer.Closing.Settled.{emptied}
use raknet_python.Peer.Connecting.{enter_connect, register_connect, withdraw_connect}
use raknet_python.Peer.Pinging.{enter_ping, register_ping, withdraw_ping}
use raknet_python.Peer.Threads.{
  Block, comes, succeeds, fails, delivers, leaves, pongs, enters_connect, withdraws_connect,
  enters_ping, withdraws_ping, accepts, takes, owns, disconnects, closes, calls, queues, commits,
  attaches, blames, wakes_connect, wakes_ping, puts, pops, flags, hangs_up, drops, seals,
  closes_owner, answers, shuts_down, finish_blocks, after_begin,
}
use raknet_python.Peer.Threads.Exec.{exec}
use raknet_python.Peer.Threads.Fitting.{Fits}
use raknet_python.Peer.Threads.Following.{
  found-AllFit, if-AllFit, finish_blocks-AllFit, after_flag-AllFit,
}
use raknet_python.Peer.Threads.Moves.{
  write-SafeConnections, write-Keeps, insert-Keeps, erase-Keeps, nil-Keeps, register-SafePending,
  erase-SafePending, nil-SafePending, write-SafePending, wake-SafePending, erase-SafeConnections,
  nil-SafeConnections, flag-SafeConnections, popped-Loose, dropped-Loose,
}
use raknet_python.Peer.Threads.Safety.{
  IsSafe, IsAdvance, by_connections, by_connects, by_pings, by_rest, track-IsAdvance,
  mailbox-IsAdvance,
}

module _ (R : RakNet) where
  if-IsAdvance :
      {X : Type 0} (p : Peer R) (out : X → List (Block R) × Peer R) (b : Bool) (these those : X)
      → IsAdvance p (out these)
      → IsAdvance p (out those)
      → IsAdvance p (out (if b then these else those))
  if-IsAdvance p out true these those h g = h
  if-IsAdvance p out false these those h g = g

  enter_connect-IsAdvance :
      (key : String) (p : Peer R) → IsSafe p → IsAdvance p ([], (enter_connect R key p).1)
  unfolding enter_connect register_connect
  enter_connect-IsAdvance key p v =
      if-IsAdvance p (λ (o : Result Ref × Peer R). ([], o.1)) p.closed _ _ (by_rest R p v tt)
        (by_connects R p v (register-SafePending v.connects key _ refl) (insert-Keeps _ _ _ _) tt)

  enter_ping-IsAdvance :
      (now : ℕ) (key : String) (p : Peer R)
      → IsSafe p
      → IsAdvance p ([], (enter_ping R now key p).1)
  unfolding enter_ping register_ping
  enter_ping-IsAdvance now key p v =
      if-IsAdvance p (λ (o : Result Ref × Peer R). ([], o.1)) p.closed _ _ (by_rest R p v tt)
        (by_pings R p v (register-SafePending v.pings key _ refl) (insert-Keeps _ _ _ _) tt)

  accepts-IsAdvance :
      (now : ℕ) (p : Peer R) (queue : List (Option Ref))
      → IsSafe p
      → IsAdvance p (exec R now accepts (record p { accept_queue = queue }))
  unfolding exec
  accepts-IsAdvance now p [] v = by_rest R p v tt
  accepts-IsAdvance now p (none ∷ queue) v = by_rest R p v (tt, tt)
  accepts-IsAdvance now p (some r ∷ queue) v = by_rest R p v tt

  closes-IsAdvance :
      (now ms : ℕ) (exc : ConnectionClosed) (p : Peer R)
      → IsSafe p
      → IsAdvance p (exec R now (closes ms exc) p)
  unfolding exec begin_close after_begin finish_blocks
  closes-IsAdvance now ms exc p v =
      if-IsAdvance p (λ (o : Option Collected × Peer R). (after_begin R ms exc o.0, o.1)) p.closed _
        _ (by_rest R p v tt)
        (record {
          safe = record {
            connections = nil-SafeConnections v.connections;
            connects = nil-SafePending v.connects;
            pings = nil-SafePending v.pings;
          };
          forward = record {
            connections = nil-Keeps _ _;
            connects = nil-Keeps _ _;
            pings = nil-Keeps _ _;
          };
          fit = (
            tt,
            finish_blocks-AllFit R (emptied R p) _ exc refl refl refl v.connections.below
                v.connects.below v.pings.below,
          );
        })

  take_first-maxsize : (m : Mailbox) → (Mailbox.take_first m).1.maxsize ≡ m.maxsize
  unfolding Mailbox.take_first
  take_first-maxsize m = ground arith

  put-maxsize : (m : Mailbox) (bytes : Bytes) → (Mailbox.put m bytes).1.maxsize ≡ m.maxsize
  unfolding Mailbox.put
  put-maxsize m bytes = ground arith

  -- A block that fits a safe peer leaves a safe peer, and all blocks still fit.
  pub exec-IsAdvance :
      (now : ℕ) (b : Block R) (p : Peer R) → IsSafe p → Fits p b → IsAdvance p (exec R now b p)
  unfolding exec pop_pending_connect withdraw_connect withdraw_ping Mailbox.close raw_shutdown
  exec-IsAdvance now (comes address guid) p v h = track-IsAdvance R p v address guid _ (tt, tt)
  exec-IsAdvance now (succeeds address guid) p v h =
      let q = (exec R now (succeeds address guid) p).1 in
      by_connects R p v (erase-SafePending v.connects _) (erase-Keeps _ _ _) (
        found-AllFit R q (lookup (address_key R address) p.pending_connects) _
          (λ r e. (popped-Loose v.connects.waits _ r e, tt)))
  exec-IsAdvance now (fails address reason) p v h =
      let q = (exec R now (fails address reason) p).1 in
      by_connects R p v (erase-SafePending v.connects _) (erase-Keeps _ _ _) (
        found-AllFit R q (lookup (address_key R address) p.pending_connects) _
          (λ r e. (tt, (popped-Loose v.connects.waits _ r e, tt))))
  exec-IsAdvance now (delivers guid bytes) p v h =
      let q = (exec R now (delivers guid bytes) p).1 in
      by_rest R p v (
        found-AllFit R q (lookup guid.g p.connections) _
          (λ r e. (v.connections.tracked.made _ r e, tt)))
  exec-IsAdvance now (leaves guid graceful) p v h =
      let q = (exec R now (leaves guid graceful) p).1 in
      let t = v.connections.tracked in
      by_connections R p v (erase-SafeConnections v.connections _) (erase-Keeps _ _ _) (
        found-AllFit R q (lookup guid.g p.connections) _
          (λ r e. (dropped-Loose t _ r (t.made _ r e) (t.guid _ r e), tt)))
  exec-IsAdvance now (pongs address guid bytes) p v h =
      let q = (exec R now (pongs address guid bytes) p).1 in
      by_pings R p v (erase-SafePending v.pings _) (erase-Keeps _ _ _) (
        found-AllFit R q (lookup (address_key R address) p.pending_pings) _
          (λ r e. (tt, (popped-Loose v.pings.waits _ r e, tt))))
  exec-IsAdvance now (enters_connect key) p v h = enter_connect-IsAdvance key p v
  exec-IsAdvance now (withdraws_connect key) p v h =
      by_connects R p v (erase-SafePending v.connects key) (erase-Keeps _ _ _) tt
  exec-IsAdvance now (enters_ping key) p v h = enter_ping-IsAdvance now key p v
  exec-IsAdvance now (withdraws_ping key) p v h =
      by_pings R p v (erase-SafePending v.pings key) (erase-Keeps _ _ _) tt
  exec-IsAdvance now accepts p v h = accepts-IsAdvance now p p.accept_queue v
  exec-IsAdvance now (takes r) p v h =
      let m = (p.connection_at.at r).mailbox in
      mailbox-IsAdvance R p v r _ [] (take_first-maxsize m) (take_first-IsBounded m) tt
  exec-IsAdvance now (owns r) p v h =
      by_connections R p v
        (write-SafeConnections v.connections r _ refl refl
          (λ w. record { limit = w.limit; bounded = w.bounded }))
        (write-Keeps _ _ _ _) tt
  exec-IsAdvance now (disconnects r notify) p v h =
      let q = (exec R now (disconnects r notify) p).1 in
      by_rest R p v (if-AllFit R q (p.connection_at.at r).closed _ _ (tt, tt) (h, (tt, tt)))
  exec-IsAdvance now (closes ms exc) p v h = closes-IsAdvance now ms exc p v
  exec-IsAdvance now (calls raw) p v h = by_rest R p v tt
  exec-IsAdvance now (queues entry) p v h = by_rest R p v tt
  exec-IsAdvance now (commits address guid pending) p v h =
      track-IsAdvance R p v address guid _ (tt, (h, tt))
  exec-IsAdvance now (attaches pending r) p v h =
      by_connects R p v (write-SafePending v.connects pending _ refl) (write-Keeps _ _ _ _) tt
  exec-IsAdvance now (blames pending reason) p v h =
      by_connects R p v (write-SafePending v.connects pending _ refl) (write-Keeps _ _ _ _) tt
  exec-IsAdvance now (wakes_connect pending) p v h =
      by_connects R p v (wake-SafePending v.connects pending _ h) (write-Keeps _ _ _ _) tt
  exec-IsAdvance now (wakes_ping pending) p v h =
      by_pings R p v (wake-SafePending v.pings pending _ h) (write-Keeps _ _ _ _) tt
  exec-IsAdvance now (puts r bytes) p v h =
      let q = (exec R now (puts r bytes) p).1 in
      let m = (p.connection_at.at r).mailbox in
      mailbox-IsAdvance R p v r _ _ (put-maxsize m bytes) (put-IsBounded m bytes)
        (if-AllFit R q (Mailbox.put m bytes).0 _ _ tt (h, tt))
  exec-IsAdvance now (pops r notify exc) p v h =
      by_connections R p v (erase-SafeConnections v.connections _) (erase-Keeps _ _ _)
        (dropped-Loose v.connections.tracked _ r h refl, tt)
  exec-IsAdvance now (flags r notify exc) p v h =
      by_connections R p v
        (flag-SafeConnections v.connections r _ h
          (λ w. record { limit = w.limit; bounded = w.bounded }))
        (write-Keeps _ _ _ _)
        (after_flag-AllFit R (exec R now (flags r notify exc) p).1 r notify exc)
  exec-IsAdvance now (hangs_up r notify) p v h =
      let q = (exec R now (hangs_up r notify) p).1 in
      by_rest R p v (if-AllFit R q p.closed _ _ tt (tt, tt))
  exec-IsAdvance now (drops guid notify) p v h = by_rest R p v tt
  exec-IsAdvance now (seals r exc) p v h = mailbox-IsAdvance R p v r _ [] refl (λ h. h) tt
  exec-IsAdvance now (closes_owner r) p v h =
      let q = (exec R now (closes_owner r) p).1 in
      by_rest R p v (if-AllFit R q (p.connection_at.at r).owns_peer _ _ (tt, tt) tt)
  exec-IsAdvance now (answers pending address guid bytes) p v h =
      by_pings R p v (write-SafePending v.pings pending _ refl) (write-Keeps _ _ _ _) tt
  exec-IsAdvance now (shuts_down ms) p v h = by_rest R p v tt
