-- ===== src/Peer/Accepting.antt =====
-- `accept` and `serve_forever` of src/raknet/_peer.py.
pub mod Drained
pub mod Serving
pub mod Handlers
use raknet_python.Prelude.{none, some, List, [], ◌∷◌, ◌++◌, if◌then◌else◌}
use raknet_python.Prelude.Objects.{Ref}
use raknet_python.Raw.Interface.{RakNet}
use raknet_python.Exceptions.{
  text, Exception, raknet_error, timeout_error, Result, ok, raise, is_raknet_error,
}
use raknet_python.Peer.{Peer}

-- How `serve_forever` ends; `serves` stands for a loop that goes on.
pub data ServeEnd : Type 0 where
  returns serves : ServeEnd
  raises : Exception → ServeEnd

unfoldable pub after_raise : Exception → ServeEnd
unfolding is_raknet_error
after_raise e = if is_raknet_error e then returns else raises e

module _ (R : RakNet) where
  -- `accept` behind `_check_open`, at the end of its wait: the queue has an entry, or the wait has
  -- run out.
  unfoldable pub take_accepted : Peer R → Result Ref × Peer R
  take_accepted self = elim self.accept_queue [
    | [] ↦ (raise (timeout_error (text "accept timed out")), self)
    | none ∷ queue ↦ (
      raise (raknet_error (text "peer is closed")),
      record self { accept_queue = queue ++ none ∷ [] },
    )
    | some r ∷ queue ↦ (ok r, record self { accept_queue = queue })
  ]

  -- `others` is what the other threads do while `accept` waits.
  unfoldable pub accept : (Peer R → Peer R) → Peer R → Result Ref × Peer R
  unfolding take_accepted
  accept others self =
      if self.closed
      then (raise (raknet_error (text "peer is closed")), self)
      else take_accepted (others self)

  -- What follows an `accept` in the loop, given the rest of the loop.
  unfoldable pub after_accept :
      (Peer R → List Ref × ServeEnd) → Result Ref × Peer R → List Ref × ServeEnd
  unfolding after_raise
  after_accept rest (raise e, self) = ([], after_raise e)
  after_accept rest (ok r, self) = let (refs, end) = rest self in (r ∷ refs, end)

  -- `serve_forever`, by what the other threads do during each of its calls of `accept`: the
  -- connections that it starts a handler for, and how it ends.
  unfoldable pub serve_forever : List (Peer R → Peer R) → Peer R → List Ref × ServeEnd
  unfolding accept after_accept
  serve_forever [] self = ([], serves)
  serve_forever (others ∷ schedule) self =
      after_accept (λ next. serve_forever schedule next) (accept others self)
