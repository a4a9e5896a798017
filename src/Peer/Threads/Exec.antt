-- ===== src/Peer/Threads/Exec.antt =====
-- What one block does, of those that `Peer.Threads` lists.
use raknet_python.Prelude.{
  ℕ, true, none, some, List, [], ◌∷◌, ◌++◌, nat_eq, string_eq, if◌then◌else◌,
}
use raknet_python.Prelude.Dict.{lookup, erase}
use raknet_python.Prelude.Objects.{Ref, put_at}
use raknet_python.Raw.Interface.{RakNet}
use raknet_python.Raw.Enums.{low_priority}
use raknet_python.Raw.Peer as RawPeer
use raknet_python.Prelude.Int.{pos}
use raknet_python.Exceptions.{closed_ok, closed_error}
use raknet_python.Mailbox
use raknet_python.Peer.{Connection, PendingConnect, PendingPing, Peer, address_key}
use raknet_python.Peer.Sink.{track, pop_pending_connect, farewell, answer_ping}
use raknet_python.Peer.Closing.{begin_close, raw_shutdown}
use raknet_python.Peer.Connecting.{enter_connect, withdraw_connect}
use raknet_python.Peer.Pinging.{enter_ping, withdraw_ping}
use raknet_python.Peer.Threads.{
  Block, comes, succeeds, fails, delivers, leaves, pongs, enters_connect, withdraws_connect,
  enters_ping, withdraws_ping, accepts, takes, owns, disconnects, closes, calls, queues, commits,
  attaches, blames, wakes_connect, wakes_ping, puts, pops, flags, hangs_up, drops, seals,
  closes_owner, answers, shuts_down, after_begin, after_flag,
}

module _ (R : RakNet) where
  open R use {SystemAddress}

  -- Assignments to the fields of shared objects.
  abbrev pub set_connection : Ref → Connection SystemAddress → Peer R → Peer R
  set_connection r c self = record self { connection_at = put_at r c self.connection_at }

  abbrev pub set_connect : Ref → PendingConnect → Peer R → Peer R
  set_connect r p self = record self { connect_at = put_at r p self.connect_at }

  abbrev pub set_ping : Ref → PendingPing → Peer R → Peer R
  set_ping r p self = record self { ping_at = put_at r p self.ping_at }

  -- A block: what the thread has to do next, before the rest of its program, and the peer
  -- afterwards. `now` is `time.monotonic()`.
  unfoldable pub exec : (now : ℕ) → Block R → Peer R → List (Block R) × Peer R
  unfolding lookup erase address_key RawPeer.close_connection track pop_pending_connect farewell
      answer_ping begin_close raw_shutdown enter_connect withdraw_connect enter_ping withdraw_ping
      after_begin after_flag Mailbox.put Mailbox.take_first Mailbox.close
  exec now (comes address guid) self =
      (queues (some self.connection_at.next) ∷ [], track R address guid self)
  exec now (succeeds address guid) self = (
    elim (lookup (address_key R address) self.pending_connects) [
      | none ↦ []
      | some pending ↦ commits address guid pending ∷ []
    ],
    pop_pending_connect R address self,
  )
  exec now (fails address reason) self = (
    elim (lookup (address_key R address) self.pending_connects) [
      | none ↦ []
      | some pending ↦ blames pending reason ∷ wakes_connect pending ∷ []
    ],
    pop_pending_connect R address self,
  )
  exec now (delivers guid bytes) self =
      (elim (lookup guid.g self.connections) [ none ↦ [] | some r ↦ puts r bytes ∷ [] ], self)
  exec now (leaves guid graceful) self = (
    elim (lookup guid.g self.connections) [
      | none ↦ []
      | some r ↦ flags r none (farewell R graceful) ∷ []
    ],
    record self { connections = erase guid.g self.connections },
  )
  exec now (pongs address guid bytes) self = (
    elim (lookup (address_key R address) self.pending_pings) [
      | none ↦ []
      | some r ↦ answers r address guid bytes ∷ wakes_ping r ∷ []
    ],
    record self { pending_pings = erase (address_key R address) self.pending_pings },
  )
  exec now (enters_connect key) self = ([], (enter_connect R key self).1)
  exec now (withdraws_connect key) self = ([], withdraw_connect R key self)
  exec now (enters_ping key) self = ([], (enter_ping R now key self).1)
  exec now (withdraws_ping key) self = ([], withdraw_ping R key self)
  exec now accepts self = elim self.accept_queue [
    | [] ↦ ([], self)
    | none ∷ queue ↦ (queues none ∷ [], record self { accept_queue = queue })
    | some r ∷ queue ↦ ([], record self { accept_queue = queue })
  ]
  exec now (takes r) self =
      let c = self.connection_at.at r in
      ([], set_connection r (record c { mailbox = (Mailbox.take_first c.mailbox).1 }) self)
  exec now (owns r) self =
      ([], set_connection r (record (self.connection_at.at r) { owns_peer = true }) self)
  exec now (disconnects r notify) self = (
    if (self.connection_at.at r).closed
        then closes_owner r ∷ []
        else pops r notify (closed_ok "connection closed") ∷ closes_owner r ∷ [],
    self,
  )
  exec now (closes ms exc) self =
      let (state, self') = begin_close R self in (after_begin R ms exc state, self')
  exec now (calls raw) self = ([], record self { raw = raw })
  exec now (queues entry) self =
      ([], record self { accept_queue = self.accept_queue ++ entry ∷ [] })
  exec now (commits address guid pending) self = (
    attaches pending self.connection_at.next ∷ wakes_connect pending ∷ [],
    track R address guid self,
  )
  exec now (attaches pending r) self =
      ([], set_connect pending (record (self.connect_at.at pending) { connection = some r }) self)
  exec now (blames pending reason) self =
      ([], set_connect pending (record (self.connect_at.at pending) { reason = some reason }) self)
  exec now (wakes_connect pending) self =
      ([], set_connect pending (record (self.connect_at.at pending) { event = true }) self)
  exec now (wakes_ping pending) self =
      ([], set_ping pending (record (self.ping_at.at pending) { event = true }) self)
  exec now (puts r bytes) self =
      let c = self.connection_at.at r in
      let (done, mailbox) = Mailbox.put c.mailbox bytes in
      (
        if done then [] else pops r true (closed_error "receive queue overflow") ∷ [],
        set_connection r (record c { mailbox = mailbox }) self,
      )
  exec now (pops r notify exc) self = (
    flags r (some notify) exc ∷ [],
    record self { connections = erase (self.connection_at.at r).raw_guid.g self.connections },
  )
  exec now (flags r notify exc) self = (
    after_flag R r notify exc,
    set_connection r (record (self.connection_at.at r) { closed = true }) self,
  )
  exec now (hangs_up r notify) self =
      (if self.closed then [] else drops (self.connection_at.at r).raw_guid notify ∷ [], self)
  exec now (drops guid notify) self = (
    [],
    record self {
      raw = RawPeer.close_connection R self.raw (R.of_guid guid) notify (pos 0) low_priority;
    },
  )
  exec now (seals r exc) self =
      let c = self.connection_at.at r in
      ([], set_connection r (record c { mailbox = Mailbox.close c.mailbox exc }) self)
  exec now (closes_owner r) self = (
    if (self.connection_at.at r).owns_peer then closes 500 (closed_ok "peer closed") ∷ [] else [],
    self,
  )
  exec now (answers pending address guid bytes) self = (
    [],
    set_ping pending
        (record (answer_ping R now address guid bytes (self.ping_at.at pending)) {
          event = (self.ping_at.at pending).event;
        })
        self,
  )
  exec now (shuts_down ms) self = ([], raw_shutdown R ms self)
