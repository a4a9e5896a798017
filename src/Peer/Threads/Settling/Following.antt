-- ===== src/Peer/Threads/Settling/Following.antt =====
-- The blocks that follow a block wake only calls that are settled.
use raknet_python.Prelude.{
  ◌≡◌, inl, refl, Bool, true, false, Option, none, some, List, [], ◌∷◌, nat_eq, string_eq,
  if◌then◌else◌,
}
use raknet_python.Prelude.Objects.{Ref, Objects}
use raknet_python.Raw.Interface.{RakNet}
use raknet_python.Exceptions.{ConnectionClosed}
use raknet_python.Peer.{PendingConnect}
use raknet_python.Peer.Closing.{Collected}
use raknet_python.Peer.Threads.{
  Block, close_blocks, fail_blocks, end_blocks, finish_blocks, after_flag,
}
use raknet_python.Peer.Threads.Moves.{Below}
use raknet_python.Peer.Threads.Settling.{Ready, append-Ready}

module _ (R : RakNet) where
  pub found-Ready :
      (s : Objects PendingConnect) (o : Option Ref) (next : Ref → List (Block R))
      → ((r : Ref) → o ≡ some r → Ready s [] (next r))
      → Ready s [] (elim o [ none ↦ [] | some r ↦ next r ])
  found-Ready s none next h = tt
  found-Ready s (some r) next h = h r refl

  pub if-Ready :
      (s : Objects PendingConnect) (b : Bool) (these those : List (Block R))
      → Ready s [] these
      → Ready s [] those
      → Ready s [] (if b then these else those)
  if-Ready s true these those h g = h
  if-Ready s false these those h g = g

  close_blocks-Ready :
      (s : Objects PendingConnect) (exc : ConnectionClosed) (refs : List Ref)
      → Ready s [] (close_blocks R exc refs)
  unfolding close_blocks
  close_blocks-Ready s exc [] = tt
  close_blocks-Ready s exc (r ∷ refs) = (tt, close_blocks-Ready s exc refs)

  fail_blocks-Ready :
      (s : Objects PendingConnect) (done refs : List Ref)
      → Below s.next refs
      → Ready s done (fail_blocks R refs)
  unfolding fail_blocks
  fail_blocks-Ready s done [] h = tt
  fail_blocks-Ready s done (r ∷ refs) (h, hs) =
      (tt, ((h, inl (inl refl)), fail_blocks-Ready s (r ∷ done) refs hs))

  end_blocks-Ready : (s : Objects PendingConnect) (refs : List Ref) → Ready s [] (end_blocks R refs)
  unfolding end_blocks
  end_blocks-Ready s [] = tt
  end_blocks-Ready s (r ∷ refs) = (tt, end_blocks-Ready s refs)

  pub finish_blocks-Ready :
      (s : Objects PendingConnect) (state : Collected) (exc : ConnectionClosed)
      → Below s.next state.pending_connects
      → Ready s [] (finish_blocks R state exc)
  unfolding finish_blocks
  finish_blocks-Ready s state exc h =
      append-Ready s [] (close_blocks R exc state.connections) _
        (close_blocks-Ready s exc state.connections)
        (append-Ready s [] (fail_blocks R state.pending_connects) _
          (fail_blocks-Ready s [] state.pending_connects h)
          (append-Ready s [] (end_blocks R state.pending_pings) _
            (end_blocks-Ready s state.pending_pings) (tt, tt)))

  pub after_flag-Ready :
      (s : Objects PendingConnect) (r : Ref) (notify : Option Bool) (exc : ConnectionClosed)
      → Ready s [] (after_flag R r notify exc)
  unfolding after_flag
  after_flag-Ready s r none exc = (tt, tt)
  after_flag-Ready s r (some notify) exc = (tt, (tt, tt))
