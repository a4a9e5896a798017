-- ===== src/Peer/Threads/Alone.antt =====
-- A thread that runs its program with no other thread between its blocks.
use mathlib.Core.List.{append_assoc, append-nil}
use raknet_python.Prelude.{ℕ, ◌≡◌, subst, sym, Option, none, some, List, [], ◌∷◌, ◌++◌}
use raknet_python.Prelude.Objects.{Ref}
use raknet_python.Raw.Interface.{RakNet}
use raknet_python.Peer.{Peer}
use raknet_python.Peer.Threads.{Block}
use raknet_python.Peer.Threads.Exec.{exec}

-- The program ends, and leaves the second peer. The clock stands still.
pub data Alone {R : RakNet} (now : ℕ) : List (Block R) → Peer R → Peer R → Type 0 where
  ends : (p : Peer R) → Alone now [] p p
  runs_on :
      (b : Block R) (rest : List (Block R)) (p q : Peer R)
      → Alone now ((exec R now b p).0 ++ rest) (exec R now b p).1 q
      → Alone now (b ∷ rest) p q

module _ {R : RakNet} (now : ℕ) where
  pub append-Alone :
      (blocks more : List (Block R)) (p q r : Peer R)
      → Alone now blocks p q
      → Alone now more q r
      → Alone now (blocks ++ more) p r
  append-Alone [] more p q r (ends _) h = h
  append-Alone (b ∷ rest) more p q r (runs_on _ _ _ _ g) h = runs_on b (rest ++ more) p r (
      subst (λ blocks. Alone now blocks (exec R now b p).1 r)
        (append_assoc (exec R now b p).0 rest more) (append-Alone _ more _ q r g h))

  -- A first block by what follows it.
  pub first-Alone :
      (b : Block R) (p q : Peer R)
      → Alone now (exec R now b p).0 (exec R now b p).1 q
      → Alone now (b ∷ []) p q
  first-Alone b p q h =
      runs_on b [] p q
        (subst (λ blocks. Alone now blocks (exec R now b p).1 q) (sym (append-nil _)) h)

  pub ends-Alone : (p q : Peer R) → p ≡ q → Alone now [] p q
  ends-Alone p q e = subst (Alone now [] p) e (ends p)

  pub found-Alone :
      (o : Option Ref) (next : Ref → List (Block R)) (p : Peer R) (target : Ref → Peer R)
      → ((r : Ref) → Alone now (next r) p (target r))
      → Alone now
          (elim o [ none ↦ [] | some r ↦ next r ])
          p
          (elim o [ none ↦ p | some r ↦ target r ])
  found-Alone none next p target h = ends p
  found-Alone (some r) next p target h = h r
