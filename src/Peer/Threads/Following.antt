-- ===== src/Peer/Threads/Following.antt =====
-- The blocks that follow a block fit the peer that it leaves.
use raknet_python.Prelude.{
  ◌≡◌, refl, Bool, true, false, Option, none, some, List, [], ◌∷◌, string_eq, nat_eq, if◌then◌else◌,
}
use raknet_python.Prelude.Objects.{Ref}
use raknet_python.Raw.Interface.{RakNet}
use raknet_python.Exceptions.{ConnectionClosed}
use raknet_python.Peer.{Peer}
use raknet_python.Peer.Closing.{Collected}
use raknet_python.Peer.Threads.{
  Block, close_blocks, fail_blocks, end_blocks, finish_blocks, after_flag,
}
use raknet_python.Peer.Threads.Fitting.{AllFit, append-AllFit}
use raknet_python.Peer.Threads.Moves.{Below, made-Loose}

module _ (R : RakNet) where
  -- The blocks that follow where an object was found.
  pub found-AllFit :
      (q : Peer R) (o : Option Ref) (next : Ref → List (Block R))
      → ((r : Ref) → o ≡ some r → AllFit q (next r))
      → AllFit q (elim o [ none ↦ [] | some r ↦ next r ])
  found-AllFit q none next h = tt
  found-AllFit q (some r) next h = h r refl

  pub if-AllFit :
      (q : Peer R) (b : Bool) (these those : List (Block R))
      → AllFit q these
      → AllFit q those
      → AllFit q (if b then these else those)
  if-AllFit q true these those h g = h
  if-AllFit q false these those h g = g

  close_blocks-AllFit :
      (q : Peer R) (exc : ConnectionClosed) (refs : List Ref)
      → q.connections ≡ []
      → Below q.connection_at.next refs
      → AllFit q (close_blocks R exc refs)
  unfolding close_blocks
  close_blocks-AllFit q exc [] e h = tt
  close_blocks-AllFit q exc (r ∷ refs) e (h, hs) =
      (rw e (made-Loose _ r h), close_blocks-AllFit q exc refs e hs)

  fail_blocks-AllFit :
      (q : Peer R) (refs : List Ref)
      → q.pending_connects ≡ []
      → Below q.connect_at.next refs
      → AllFit q (fail_blocks R refs)
  unfolding fail_blocks
  fail_blocks-AllFit q [] e h = tt
  fail_blocks-AllFit q (r ∷ refs) e (h, hs) =
      (tt, (rw e (made-Loose _ r h), fail_blocks-AllFit q refs e hs))

  end_blocks-AllFit :
      (q : Peer R) (refs : List Ref)
      → q.pending_pings ≡ []
      → Below q.ping_at.next refs
      → AllFit q (end_blocks R refs)
  unfolding end_blocks
  end_blocks-AllFit q [] e h = tt
  end_blocks-AllFit q (r ∷ refs) e (h, hs) =
      (rw e (made-Loose _ r h), end_blocks-AllFit q refs e hs)

  pub finish_blocks-AllFit :
      (q : Peer R) (state : Collected) (exc : ConnectionClosed)
      → q.connections ≡ []
      → q.pending_connects ≡ []
      → q.pending_pings ≡ []
      → Below q.connection_at.next state.connections
      → Below q.connect_at.next state.pending_connects
      → Below q.ping_at.next state.pending_pings
      → AllFit q (finish_blocks R state exc)
  unfolding finish_blocks
  finish_blocks-AllFit q state exc d e f g h i =
      append-AllFit q (close_blocks R exc state.connections) _ (close_blocks-AllFit q exc _ d g) (
        append-AllFit q (fail_blocks R state.pending_connects) _ (fail_blocks-AllFit q _ e h) (
          append-AllFit q (end_blocks R state.pending_pings) _ (end_blocks-AllFit q _ f i)
            (tt, tt)))

  pub after_flag-AllFit :
      (q : Peer R) (r : Ref) (notify : Option Bool) (exc : ConnectionClosed)
      → AllFit q (after_flag R r notify exc)
  unfolding after_flag
  after_flag-AllFit q r none exc = (tt, tt)
  after_flag-AllFit q r (some notify) exc = (tt, (tt, tt))
