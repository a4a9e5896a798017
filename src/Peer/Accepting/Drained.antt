-- ===== src/Peer/Accepting/Drained.antt =====
-- What `accept` returns once the peer's closing mark is in the queue.
use raknet_python.Prelude.{
  ℕ, zero, suc, ◌+◌, ◌≡◌, refl, ap, none, some, List, [], ◌∷◌, ◌++◌, map, replicate, length, subst,
  sym,
}
use native.Mathlib.Nat.{zero-add, suc-add}
use raknet_python.Prelude.Objects.{Ref}
use raknet_python.Raw.Interface.{RakNet}
use raknet_python.Exceptions.{text, raknet_error, Result, ok, raise}
use raknet_python.Peer.{Peer}
use raknet_python.Peer.Accepting.{take_accepted}

module _ (R : RakNet) where
  -- The results of so many waits of `accept` that have begun before the peer was closed.
  pub accept_times : ℕ → Peer R → List (Result Ref)
  unfolding take_accepted
  accept_times zero self = []
  accept_times (suc n) self =
      let (result, self') = take_accepted R self in result ∷ accept_times n self'

  accept_times_marked :
      (k : ℕ) (self : Peer R)
      → accept_times k (record self { accept_queue = none ∷ [] })
        ≡ replicate k (raise (raknet_error (text "peer is closed")))
  unfolding accept_times
  accept_times_marked zero self = refl
  accept_times_marked (suc k) self =
      ap (◌∷◌ (raise (raknet_error (text "peer is closed")))) (accept_times_marked k self)

  accept_times_queue :
      (refs : List Ref) (k : ℕ) (self : Peer R)
      → accept_times (length refs + k) (record self { accept_queue = map some refs ++ none ∷ [] })
        ≡ map ok refs ++ replicate k (raise (raknet_error (text "peer is closed")))
  unfolding accept_times
  accept_times_queue [] k self = rw zero-add (accept_times_marked k self)
  accept_times_queue (r ∷ refs) k self =
      rw suc-add (ap (◌∷◌ (ok r)) (accept_times_queue refs k self))

  -- Once the closing mark is the last entry of the accept queue, the callers that wait in `accept`
  -- first get the connections before it, all of them and in order; every later one of them gets
  -- the error that the peer is closed, and none is left waiting.
  pub accept_times_drains :
      (refs : List Ref) (k : ℕ) (self : Peer R)
      → self.accept_queue ≡ map some refs ++ none ∷ []
      → accept_times (length refs + k) self
        ≡ map ok refs ++ replicate k (raise (raknet_error (text "peer is closed")))
  accept_times_drains refs k self e =
      subst
        (λ queue.
          accept_times (length refs + k) (record self { accept_queue = queue })
          ≡ map ok refs ++ replicate k (raise (raknet_error (text "peer is closed"))))
        (sym e) (accept_times_queue refs k self)
