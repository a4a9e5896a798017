-- ===== src/Peer/Threads/Fitting.antt =====
-- What a block of a thread's program needs of the peer, and that no other block takes it away.
use raknet_python.Prelude.{◌<◌, ◌≢◌, List, [], ◌∷◌, ◌++◌, some, arith}
use raknet_python.Prelude.Dict.{
  Dict, lookup, insert, erase, lookup-insert, lookup-erase, lookup-nil,
}
use raknet_python.Prelude.{Eq, string_eq, nat_eq}
use raknet_python.Prelude.Objects.{Ref, Objects, alloc}
use raknet_python.Raw.Interface.{RakNet}
use raknet_python.Peer.{Peer}
use raknet_python.Peer.Threads.{
  Block, disconnects, commits, wakes_connect, wakes_ping, puts, pops, flags,
}

-- An object that has been made, and that stands in the table under no key.
pub record Loose {K A : Type 0} ⦃e : Eq K⦄ (d : Dict K Ref) (s : Objects A) (r : Ref) : Type 0 where
  pub made : r < s.next
  pub absent : (k : K) → lookup k d ≢ some r

module _ {K A : Type 0} ⦃e : Eq K⦄ (d : Dict K Ref) (s : Objects A) (r : Ref)
    (h : Loose d s r) where
  pub insert-Loose : (k : K) (a : A) → Loose (insert k s.next d) (alloc a s) r
  insert-Loose k a = record {
    made = ground (arith, h.made);
    absent = λ j same. ground (arith, lookup-insert j k s.next d, h.absent j, h.made);
  }

  pub erase-Loose : (k : K) → Loose (erase k d) s r
  erase-Loose k = record {
    made = h.made;
    absent = λ j same. ground (arith, lookup-erase j k d, h.absent j);
  }

  pub nil-Loose : Loose {K = K} [] s r
  nil-Loose = record { made = h.made; absent = λ j same. ground (arith, lookup-nil {V = Ref} j) }

-- No object is lost, and what is in no table comes into none.
pub record Keeps {K A : Type 0} ⦃e : Eq K⦄ (d : Dict K Ref) (s : Objects A) (d' : Dict K Ref)
    (s' : Objects A) : Type 0 where
  pub grows : (r : Ref) → r < s.next → r < s'.next
  pub loose : (r : Ref) → Loose d s r → Loose d' s' r

module _ {R : RakNet} where
  -- What a block leaves to the others.
  pub record IsForward (p q : Peer R) : Type 0 where
    pub connections : Keeps p.connections p.connection_at q.connections q.connection_at
    pub connects : Keeps p.pending_connects p.connect_at q.pending_connects q.connect_at
    pub pings : Keeps p.pending_pings p.ping_at q.pending_pings q.ping_at

  -- A connection that is closed has been made and has left the table; a pending call that is woken
  -- has left its table.
  abbrev pub Fits : Peer R → Block R → Type 0
  Fits self b = elim b [
    | disconnects r notify ↦ r < self.connection_at.next
    | commits address guid pending ↦ Loose self.pending_connects self.connect_at pending
    | wakes_connect pending ↦ Loose self.pending_connects self.connect_at pending
    | wakes_ping pending ↦ Loose self.pending_pings self.ping_at pending
    | puts r bytes ↦ r < self.connection_at.next
    | pops r notify exc ↦ r < self.connection_at.next
    | flags r notify exc ↦ Loose self.connections self.connection_at r
    | _ ↦ Unit {0}
  ]

  abbrev pub AllFit : Peer R → List (Block R) → Type 0
  AllFit self [] = Unit {0}
  AllFit self (b ∷ blocks) = Fits self b × AllFit self blocks

  Fits-onward : (p q : Peer R) (b : Block R) → IsForward p q → Fits p b → Fits q b
  Fits-onward p q b f = elim b as (λ b. Fits p b → Fits q b) [
    | disconnects r notify ↦ f.connections.grows r
    | commits address guid pending ↦ f.connects.loose pending
    | wakes_connect pending ↦ f.connects.loose pending
    | wakes_ping pending ↦ f.pings.loose pending
    | puts r bytes ↦ f.connections.grows r
    | pops r notify exc ↦ f.connections.grows r
    | flags r notify exc ↦ f.connections.loose r
    | _ ↦ λ h. tt
  ]

  pub AllFit-onward :
      (p q : Peer R) (blocks : List (Block R)) → IsForward p q → AllFit p blocks → AllFit q blocks
  AllFit-onward p q [] f h = tt
  AllFit-onward p q (b ∷ blocks) f (h, hs) = (Fits-onward p q b f h, AllFit-onward p q blocks f hs)

  pub append-AllFit :
      (p : Peer R) (blocks more : List (Block R))
      → AllFit p blocks
      → AllFit p more
      → AllFit p (blocks ++ more)
  append-AllFit p [] more h hs = hs
  append-AllFit p (b ∷ blocks) more (h, rest) hs = (h, append-AllFit p blocks more rest hs)
