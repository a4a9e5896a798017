-- ===== src/Peer/Threads/Callbacks.antt =====
-- The programs of the sink callbacks, run with no other thread between their blocks, do what the
-- functions of `Peer.Sink` say.
use raknet_python.Prelude.{
  ℕ, ◌∙◌, ap, subst, sym, Bool, true, false, none, some, [], ◌∷◌, string_eq, nat_eq, if◌then◌else◌,
}
use raknet_python.Prelude.Dict.{lookup, erase}
use raknet_python.Prelude.Objects.{Ref, put_at, put_at-here, put_at-again, put_at-same}
use raknet_python.Prelude.Int.{pos}
use raknet_python.Raw.Enums.{low_priority}
use raknet_python.Raw.Peer as RawPeer
use raknet_python.Raw.Interface.{Bytes, RakNetGuid, RakNet}
use raknet_python.Raw.MessageId.{DefaultMessageIdTypes}
use raknet_python.Exceptions.{ConnectionClosed, closed_error}
use raknet_python.Mailbox
use raknet_python.Mailbox.{Mailbox}
use raknet_python.Peer.{Peer, address_key, close_mailbox, raw_close}
use raknet_python.Peer.Sink.{
  track, incoming_connection, pop_pending_connect, commit_connect, connect_succeeded, fail_connect,
  connect_failed, drop_connection, overflow, put_message, message, farewell, disconnected,
  answer_ping, pong,
}
use raknet_python.Peer.Threads.{
  hangs_up, drops, seals, comes, succeeds, fails, delivers, leaves, pongs, commits, blames,
  wakes_connect, wakes_ping, puts, pops, flags, answers, after_flag,
}
use raknet_python.Peer.Threads.Exec.{exec, set_connection}
use raknet_python.Peer.Threads.Alone.{
  append-Alone, Alone, ends, runs_on, first-Alone, ends-Alone, found-Alone,
}

module _ (R : RakNet) (now : ℕ) where
  open R use {SystemAddress}

  -- `connection._closed = True` and `connection._mailbox.close(exc)`, by themselves.
  pub flags-Alone :
      (r : Ref) (exc : ConnectionClosed) (p : Peer R)
      → Alone now
          (flags r none exc ∷ [])
          p
          (set_connection R r (close_mailbox R (p.connection_at.at r) exc) p)
  unfolding exec after_flag close_mailbox
  flags-Alone r exc p = runs_on _ _ _ _ (
      runs_on _ _ _ _ (
        ends-Alone now _ _ (
          ap (λ s. record p { connection_at = s })
            (put_at-again r _ p.connection_at
              (λ c. record c { mailbox = Mailbox.close c.mailbox exc })))))

  -- `shut` is what the test of `self._closed` finds.
  drops_if-Alone :
      (shut : Bool) (guid : RakNetGuid) (notify : Bool) (p : Peer R)
      → Alone now (if shut then [] else drops guid notify ∷ []) p (record p {
        raw =
            if shut
            then p.raw
            else RawPeer.close_connection R p.raw (R.of_guid guid) notify (pos 0) low_priority;
      })
  unfolding exec
  drops_if-Alone true guid notify p = ends p
  drops_if-Alone false guid notify p = runs_on _ _ _ _ (ends _)

  hangs_up-Alone :
      (r : Ref) (notify : Bool) (p : Peer R)
      → Alone now
          (hangs_up r notify ∷ [])
          p
          (record p { raw = raw_close R p (p.connection_at.at r).raw_guid notify })
  unfolding exec raw_close
  hangs_up-Alone r notify p =
      first-Alone now _ _ _ (drops_if-Alone p.closed (p.connection_at.at r).raw_guid notify p)

  -- And with the call of RakNet between them.
  flags_raw-Alone :
      (r : Ref) (notify : Bool) (exc : ConnectionClosed) (p : Peer R)
      → Alone now
          (flags r (some notify) exc ∷ [])
          p
          (record (set_connection R r (close_mailbox R (p.connection_at.at r) exc) p) {
            raw = raw_close R p (p.connection_at.at r).raw_guid notify;
          })
  unfolding exec after_flag close_mailbox raw_close
  flags_raw-Alone r notify exc p =
      let flagged = record (p.connection_at.at r) { closed = true } in
      let q = set_connection R r flagged p in
      first-Alone now _ _ _ (
        append-Alone now (hangs_up r notify ∷ []) (seals r exc ∷ []) q _ _
          (hangs_up-Alone r notify q)
          (runs_on _ _ _ _ (
            ends-Alone now _ _ (
              ap
                (λ s. record p {
                  connection_at = s;
                  raw = raw_close R p (q.connection_at.at r).raw_guid notify;
                })
                (put_at-again r flagged p.connection_at
                  (λ c. record c { mailbox = Mailbox.close c.mailbox exc }))
              ∙ ap
                  (λ c. record p {
                    connection_at =
                        put_at r (close_mailbox R (p.connection_at.at r) exc) p.connection_at;
                    raw = raw_close R p c.raw_guid notify;
                  })
                  (put_at-here r flagged p.connection_at)))))

  pub comes-Alone :
      (address : SystemAddress) (guid : RakNetGuid) (p : Peer R)
      → Alone now (comes address guid ∷ []) p (incoming_connection R address guid p)
  unfolding exec incoming_connection track
  comes-Alone address guid p = runs_on _ _ _ _ (runs_on _ _ _ _ (ends _))

  commits-Alone :
      (address : SystemAddress) (guid : RakNetGuid) (pending : Ref) (p : Peer R)
      → Alone now (commits address guid pending ∷ []) p (commit_connect R address guid pending p)
  unfolding exec commit_connect track
  commits-Alone address guid pending p = runs_on _ _ _ _ (
      runs_on _ _ _ _ (
        runs_on _ _ _ _ (
          ends-Alone now _ _ (
            ap (λ s. record (track R address guid p) { connect_at = s })
              (put_at-again pending _ p.connect_at (λ c. record c { event = true }))))))

  pub blames-Alone :
      (pending : Ref) (reason : DefaultMessageIdTypes) (p : Peer R)
      → Alone now
          (blames pending reason ∷ wakes_connect pending ∷ [])
          p
          (fail_connect R reason pending p)
  unfolding exec fail_connect
  blames-Alone pending reason p = runs_on _ _ _ _ (
      runs_on _ _ _ _ (
        ends-Alone now _ _ (
          ap (λ s. record p { connect_at = s })
            (put_at-again pending _ p.connect_at (λ c. record c { event = true })))))

  pub succeeds-Alone :
      (address : SystemAddress) (guid : RakNetGuid) (p : Peer R)
      → Alone now (succeeds address guid ∷ []) p (connect_succeeded R address guid p)
  unfolding exec connect_succeeded
  succeeds-Alone address guid p = first-Alone now _ _ _ (
      found-Alone now (lookup (address_key R address) p.pending_connects)
        (λ pending. commits address guid pending ∷ []) (pop_pending_connect R address p)
        (λ pending. commit_connect R address guid pending (pop_pending_connect R address p))
        (λ pending. commits-Alone address guid pending (pop_pending_connect R address p)))

  pub fails-Alone :
      (address : SystemAddress) (reason : DefaultMessageIdTypes) (p : Peer R)
      → Alone now (fails address reason ∷ []) p (connect_failed R address reason p)
  unfolding exec connect_failed
  fails-Alone address reason p = first-Alone now _ _ _ (
      found-Alone now (lookup (address_key R address) p.pending_connects)
        (λ pending. blames pending reason ∷ wakes_connect pending ∷ [])
        (pop_pending_connect R address p)
        (λ pending. fail_connect R reason pending (pop_pending_connect R address p))
        (λ pending. blames-Alone pending reason (pop_pending_connect R address p)))

  pub pops-Alone :
      (r : Ref) (notify : Bool) (exc : ConnectionClosed) (p : Peer R)
      → Alone now (pops r notify exc ∷ []) p (record (drop_connection R r exc p) {
        raw = raw_close R p (p.connection_at.at r).raw_guid notify;
      })
  unfolding exec drop_connection raw_close
  pops-Alone r notify exc p = first-Alone now _ _ _ (
      flags_raw-Alone r notify exc
        (record p { connections = erase (p.connection_at.at r).raw_guid.g p.connections }))

  -- `full` is what `put` finds; a mailbox that refuses a message stays as it is.
  puts_if-Alone :
      (full : Bool) (r : Ref) (m : Mailbox) (p : Peer R)
      → let c = p.connection_at.at r in
        let o : Bool × Mailbox = if full then (false, c.mailbox) else (true, m) in
        Alone now
          (if o.0 then [] else pops r true (closed_error "receive queue overflow") ∷ [])
          (set_connection R r (record c { mailbox = o.1 }) p)
          (if o.0 then set_connection R r (record c { mailbox = o.1 }) p else overflow R r p)
  unfolding overflow
  puts_if-Alone true r m p =
      subst
        (λ s.
          Alone now (pops r true (closed_error "receive queue overflow") ∷ [])
            (record p { connection_at = s }) (overflow R r p))
        (sym (put_at-same r p.connection_at)) (pops-Alone r true _ p)
  puts_if-Alone false r m p = ends _

  puts-Alone :
      (r : Ref) (bytes : Bytes) (p : Peer R)
      → Alone now (puts r bytes ∷ []) p (put_message R r bytes p)
  unfolding exec put_message Mailbox.put
  puts-Alone r bytes p =
      first-Alone now _ _ _ (puts_if-Alone (Mailbox.is_full (p.connection_at.at r).mailbox) r _ p)

  pub delivers-Alone :
      (guid : RakNetGuid) (bytes : Bytes) (p : Peer R)
      → Alone now (delivers guid bytes ∷ []) p (message R guid bytes p)
  unfolding exec message
  delivers-Alone guid bytes p = first-Alone now _ _ _ (
      found-Alone now (lookup guid.g p.connections) (λ r. puts r bytes ∷ []) p
        (λ r. put_message R r bytes p) (λ r. puts-Alone r bytes p))

  pub leaves-Alone :
      (guid : RakNetGuid) (graceful : Bool) (p : Peer R)
      → Alone now (leaves guid graceful ∷ []) p (disconnected R guid graceful p)
  unfolding exec disconnected
  leaves-Alone guid graceful p =
      let popped = record p { connections = erase guid.g p.connections } in
      first-Alone now _ _ _ (
        found-Alone now (lookup guid.g p.connections) (λ r. flags r none (farewell R graceful) ∷ [])
          popped
          (λ r.
            set_connection R r (close_mailbox R (p.connection_at.at r) (farewell R graceful))
              popped)
          (λ r. flags-Alone r (farewell R graceful) popped))

  answers-Alone :
      (r : Ref) (address : SystemAddress) (guid : RakNetGuid) (bytes : Bytes) (p : Peer R)
      → Alone now (answers r address guid bytes ∷ wakes_ping r ∷ []) p (record p {
        ping_at = put_at r (answer_ping R now address guid bytes (p.ping_at.at r)) p.ping_at;
      })
  unfolding exec answer_ping
  answers-Alone r address guid bytes p = runs_on _ _ _ _ (
      runs_on _ _ _ _ (
        ends-Alone now _ _ (
          ap (λ s. record p { ping_at = s })
            (put_at-again r _ p.ping_at (λ c. record c { event = true })))))

  pub pongs-Alone :
      (address : SystemAddress) (guid : RakNetGuid) (bytes : Bytes) (p : Peer R)
      → Alone now (pongs address guid bytes ∷ []) p (pong R now address guid bytes p)
  unfolding exec pong
  pongs-Alone address guid bytes p =
      let popped = record p { pending_pings = erase (address_key R address) p.pending_pings } in
      first-Alone now _ _ _ (
        found-Alone now (lookup (address_key R address) p.pending_pings)
          (λ r. answers r address guid bytes ∷ wakes_ping r ∷ []) popped
          (λ r. record popped {
            ping_at = put_at r (answer_ping R now address guid bytes (p.ping_at.at r)) p.ping_at;
          })
          (λ r. answers-Alone r address guid bytes popped))
