-- ===== src/Peer/Accepting/Handlers.antt =====
-- `_run_handler` of src/raknet/_peer.py, which a thread of its own runs for each connection that
-- `serve_forever` accepts, and of src/raknet/asyncio.py, where it is a task.
use raknet_python.Prelude.{◌≡◌, ◌≢◌, true, false, Option, none, some}
use raknet_python.Prelude.Objects.{Ref}
use raknet_python.Raw.Interface.{RakNet}
use raknet_python.Exceptions.{
  ConnectionClosed, Exception, raknet_error, startup_error, connect_error, connection_closed,
  timeout_error, value_error,
}
use raknet_python.Peer.{Peer}
use raknet_python.Peer.Closing.{connection_close}
use raknet_python.Peer.Connecting.Timeouts.{closed-connection_close}

-- `except ConnectionClosed: pass`: what is left of the end of a handler.
unfoldable pub swallow : Option Exception → Option Exception
swallow none = none
swallow (some (connection_closed e)) = none
swallow (some (raknet_error t)) = some (raknet_error t)
swallow (some (startup_error r)) = some (startup_error r)
swallow (some (connect_error host port reason)) = some (connect_error host port reason)
swallow (some (timeout_error t)) = some (timeout_error t)
swallow (some (value_error t)) = some (value_error t)

module _ (R : RakNet) where
  -- The handler is any function: the exception that it ends with, if any, and the peer that it and
  -- the other threads leave meanwhile. `pump_rest` belongs to `Connection.close`.
  unfoldable pub run_handler :
      (pump_rest : Peer R → Peer R)
      → (handler : Ref → Peer R → Option Exception × Peer R) → Ref
      → Peer R
      → Option Exception × Peer R
  unfolding swallow connection_close
  run_handler pump_rest handler r self =
      let (end, self') = handler r self in (swallow end, connection_close R pump_rest r true self')

  swallow-ne :
      (end : Option Exception) (e : ConnectionClosed) → swallow end ≡ some (connection_closed e) → ⊥
  unfolding swallow
  swallow-ne none e h = cc
  swallow-ne (some (connection_closed d)) e h = cc
  swallow-ne (some (raknet_error t)) e h = cc
  swallow-ne (some (startup_error r)) e h = cc
  swallow-ne (some (connect_error host port reason)) e h = cc
  swallow-ne (some (timeout_error t)) e h = cc
  swallow-ne (some (value_error t)) e h = cc

  -- However a handler ends, and whatever it and other threads have done, its connection is closed
  -- when `_run_handler` is over, where the connection does not own its peer; and no
  -- `ConnectionClosed` comes out of it.
  pub run_handler-closes :
      (pump_rest : Peer R → Peer R) (handler : Ref → Peer R → Option Exception × Peer R) (r : Ref)
      (self : Peer R) (e : ConnectionClosed)
      → ((handler r self).1.connection_at.at r).owns_peer ≡ false
      → let (end, self') = run_handler pump_rest handler r self in
        ((self'.connection_at.at r).closed ≡ true) × (end ≢ some (connection_closed e))
  unfolding run_handler
  run_handler-closes pump_rest handler r self e alone = (
    closed-connection_close R pump_rest r true (handler r self).1 alone,
    swallow-ne (handler r self).0 e,
  )
