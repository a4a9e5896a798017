-- ===== src/AsyncPeer.antt =====
-- `Peer` and `Connection` of src/raknet/asyncio.py, which share their state and most of their
-- blocks with src/raknet/_peer.py. An `await` ends with what it waits for, is cancelled, or goes
-- on; what the other threads and tasks do meanwhile is an argument. The mailbox of a connection is
-- shown as the synchronous one that it stands for, and the event of a pending call is set when the
-- other thread sets it; `Events` has the callback that lies between.
pub mod Events
pub mod Misses
pub mod Unsettled
pub mod Factories
pub mod AcceptQueue
use raknet_python.Prelude.{
  ℕ, Bool, true, false, String, Option, none, some, List, [], ◌∷◌, ◌++◌, if◌then◌else◌,
}
use raknet_python.Prelude.Objects.{Ref}
use raknet_python.Raw.Interface.{RakNet}
use raknet_python.Exceptions.{text, raknet_error, closed_ok, is_raknet_error, Result, ok, raise}
use raknet_python.Peer.{Pong, Peer}
use raknet_python.Peer.Closing.{
  Collected, begin_close, finish_close, raw_shutdown, close_connection,
}
use raknet_python.Peer.Connecting.{
  AddressInfo, ConnectCall, Started, start_connect, abandon_connect, finish_connect,
}
use raknet_python.Peer.Accepting.Handlers.{swallow}
use raknet_python.Peer.Pinging.{start_ping, finish_ping, withdraw_ping}

-- Whether an `await` raises `CancelledError`. It may do so although what it waits for has come.
pub data Wait : Type 0 where
  goes_on is_cancelled : Wait

-- What becomes of `asyncio.to_thread`: the task waits for its end, or is cancelled while the other
-- thread is at work, which that thread does to its end, or is cancelled before that thread begins.
pub data Offload : Type 0 where
  completes is_abandoned never_begins : Offload

-- Where `close` ends.
pub data CloseEnd : Type 0 where
  finishes stops_at_join stops_at_shutdown : CloseEnd

-- How a coroutine ends: with a value or an exception, by the failure of its `assert`, with
-- `CancelledError`, or not yet.
pub data TaskEnd (A : Type 0) : Type 0 where
  ends : Result A → TaskEnd A
  asserts : TaskEnd A
  cancelled : TaskEnd A
  suspends : TaskEnd A

module _ (R : RakNet) where
  -- `accept` behind `_check_open`, at the end of its `await`.
  unfoldable pub take_accepted : Wait → Peer R → TaskEnd Ref × Peer R
  take_accepted is_cancelled self = (cancelled, self)
  take_accepted goes_on self = elim self.accept_queue [
    | [] ↦ (suspends, self)
    | none ∷ queue ↦ (
      ends (raise (raknet_error (text "peer is closed"))),
      record self { accept_queue = queue ++ none ∷ [] },
    )
    | some r ∷ queue ↦ (ends (ok r), record self { accept_queue = queue })
  ]

  unfoldable pub accept : Wait → (Peer R → Peer R) → Peer R → TaskEnd Ref × Peer R
  unfolding take_accepted
  accept wait others self =
      if self.closed
      then (ends (raise (raknet_error (text "peer is closed"))), self)
      else take_accepted wait (others self)

  -- What follows an `accept` in the loop of `serve_forever`, given the rest of the loop.
  unfoldable pub after_accept :
      (Peer R → List Ref × TaskEnd Unit) → TaskEnd Ref × Peer R → List Ref × TaskEnd Unit
  unfolding is_raknet_error
  after_accept rest (ends (raise e), self) =
      ([], if is_raknet_error e then ends (ok tt) else ends (raise e))
  after_accept rest (ends (ok r), self) = let (refs, end) = rest self in (r ∷ refs, end)
  after_accept rest (asserts, self) = ([], asserts)
  after_accept rest (cancelled, self) = ([], cancelled)
  after_accept rest (suspends, self) = ([], suspends)

  -- `serve_forever`, by what comes of each of its calls of `accept`: the connections that it makes
  -- a task for, and how it ends.
  unfoldable pub serve_forever : List (Wait × (Peer R → Peer R)) → Peer R → List Ref × TaskEnd Unit
  unfolding accept after_accept
  serve_forever [] self = ([], suspends)
  serve_forever ((wait, others) ∷ schedule) self =
      after_accept (λ next. serve_forever schedule next) (accept wait others self)

  -- `close` behind `_begin_close`, which found the peer open. A cancellation at the first `await`
  -- skips all that follows it; at the second one the other thread still shuts RakNet down.
  unfoldable pub after_begin : CloseEnd → (Peer R → Peer R) → ℕ → Collected → Peer R → Peer R
  unfolding finish_close raw_shutdown
  after_begin finishes pump_rest ms collected self =
      finish_close R collected (closed_ok "peer closed") (raw_shutdown R ms (pump_rest self))
  after_begin stops_at_join pump_rest ms collected self = pump_rest self
  after_begin stops_at_shutdown pump_rest ms collected self = raw_shutdown R ms (pump_rest self)

  -- `close`; `pump_rest` is what the pump thread does until it ends.
  unfoldable pub close : CloseEnd → (Peer R → Peer R) → ℕ → Peer R → Peer R
  unfolding begin_close after_begin
  close end pump_rest ms self =
      let (state, self') = begin_close R self in
      elim state [ none ↦ self' | some collected ↦ after_begin end pump_rest ms collected self' ]

  -- `Connection.close`; the default timeout of `Peer.close` is half a second.
  unfoldable pub connection_close : CloseEnd → (Peer R → Peer R) → Ref → Bool → Peer R → Peer R
  unfolding close_connection close
  connection_close end pump_rest r notify self =
      let self' =
        if (self.connection_at.at r).closed then self else close_connection R r notify self in
      if (self'.connection_at.at r).owns_peer then close end pump_rest 500 self' else self'

  -- `_run_handler`, by what the handler comes to: its end and the peer that it and the others
  -- leave. `end` is where `Peer.close` ends, should the connection own its peer.
  unfoldable pub run_handler :
      CloseEnd → (pump_rest : Peer R → Peer R) → Ref → TaskEnd Unit × Peer R → TaskEnd Unit × Peer R
  unfolding connection_close swallow
  run_handler end pump_rest r (suspends, self) = (suspends, self)
  run_handler end pump_rest r (asserts, self) =
      (asserts, connection_close end pump_rest r true self)
  run_handler end pump_rest r (cancelled, self) =
      (cancelled, connection_close end pump_rest r true self)
  run_handler end pump_rest r (ends (ok done), self) =
      (ends (ok done), connection_close end pump_rest r true self)
  run_handler end pump_rest r (ends (raise e), self) = (
    elim (swallow (some e)) [ none ↦ ends (ok tt) | some other ↦ ends (raise other) ],
    connection_close end pump_rest r true self,
  )

  -- What `connect` does with the answer of `_abandon_connect` when it is cancelled: a connection
  -- that is there is closed. `pump_rest` belongs to `Connection.close`.
  unfoldable pub reap_cancelled : (Peer R → Peer R) → Ref → Bool × Peer R → Peer R
  unfolding connection_close
  reap_cancelled pump_rest pending (true, self) = self
  reap_cancelled pump_rest pending (false, self) = elim (self.connect_at.at pending).connection [
    | none ↦ self
    | some r ↦ connection_close finishes pump_rest r true self
  ]

  -- The handler of `CancelledError` in `connect`.
  unfoldable pub cancel_connect : (Peer R → Peer R) → String → String → ℕ → Ref → Peer R → Peer R
  unfolding abandon_connect reap_cancelled
  cancel_connect pump_rest key ip port pending self =
      reap_cancelled pump_rest pending (abandon_connect R key ip port self)

  unfoldable pub connected : ConnectCall → Ref → Peer R → TaskEnd Ref
  unfolding finish_connect
  connected call pending self = elim (finish_connect R call (self.connect_at.at pending)) [
    | none ↦ asserts
    | some result ↦ ends result
  ]

  -- `connect` behind `_start_connect`.
  unfoldable pub await_connect :
      Wait
      → (meanwhile pump_rest : Peer R → Peer R) → ConnectCall
      → Result Started × Peer R
      → TaskEnd Ref × Peer R
  unfolding connected cancel_connect
  await_connect wait meanwhile pump_rest call (raise e, self) = (ends (raise e), self)
  await_connect wait meanwhile pump_rest call (ok (pending, key, ip), self) =
      let waited = meanwhile self in
      elim wait [
        | is_cancelled ↦ (cancelled, cancel_connect pump_rest key ip call.port pending waited)
        | goes_on ↦
            if (waited.connect_at.at pending).event
            then (connected call pending waited, waited)
            else (suspends, waited)
      ]

  -- `_start_connect` runs in another thread.
  unfoldable pub connect :
      Offload
      → Wait
      → (meanwhile pump_rest : Peer R → Peer R) → ConnectCall
      → Option (List AddressInfo)
      → Peer R
      → TaskEnd Ref × Peer R
  unfolding start_connect await_connect
  connect completes wait meanwhile pump_rest call infos self =
      await_connect wait meanwhile pump_rest call (start_connect R call infos self)
  connect is_abandoned wait meanwhile pump_rest call infos self =
      (cancelled, (start_connect R call infos self).1)
  connect never_begins wait meanwhile pump_rest call infos self = (cancelled, self)

  unfoldable pub await_ping :
      Wait → (Peer R → Peer R) → Result (Ref × String) × Peer R → TaskEnd Pong × Peer R
  unfolding finish_ping withdraw_ping
  await_ping wait meanwhile (raise e, self) = (ends (raise e), self)
  await_ping wait meanwhile (ok (pending, key), self) =
      let waited = meanwhile self in
      elim wait [
        | is_cancelled ↦ (cancelled, withdraw_ping R key waited)
        | goes_on ↦
            if (waited.ping_at.at pending).event
            then (ends (finish_ping R (waited.ping_at.at pending)), waited)
            else (suspends, waited)
      ]

  -- `_start_ping` runs in another thread.
  unfoldable pub ping :
      Offload
      → Wait
      → (Peer R → Peer R)
      → ℕ
      → String
      → ℕ
      → Option (List AddressInfo)
      → Peer R
      → TaskEnd Pong × Peer R
  unfolding start_ping await_ping
  ping completes wait meanwhile now host port infos self =
      await_ping wait meanwhile (start_ping R now host port infos self)
  ping is_abandoned wait meanwhile now host port infos self =
      (cancelled, (start_ping R now host port infos self).1)
  ping never_begins wait meanwhile now host port infos self = (cancelled, self)
