-- ===== src/Peer/Threads/Settling.antt =====
-- No pending connect is woken before it has its connection or its reason: what the blocks of a
-- thread's program promise of that.
pub mod Following
pub mod Blocks
pub mod Turns
use raknet_python.Prelude.{
  ◌<◌, ◌≡◌, ◌⊎◌, inl, inr, sym, subst, Bool, true, false, none, some, List, [], ◌∷◌, ◌++◌, arith,
  nat_eq, string_eq,
}
use raknet_python.Prelude.Objects.{Ref, Objects, put_at, put_at-here}
use raknet_python.Raw.Interface.{RakNet}
use raknet_python.Mailbox
use raknet_python.Peer.{PendingConnect, Peer}
use raknet_python.Peer.Threads.{Block, calls, attaches, blames, wakes_connect}
use raknet_python.Peer.Threads.Turns.{Starts}

-- The pending call has what `_finish_connect` looks for.
abbrev pub is_settled : PendingConnect → Bool
is_settled c = elim c.reason [
  | some reason ↦ true
  | none ↦ elim c.connection [ some r ↦ true | none ↦ false ]
]

attached_settled :
    (c : PendingConnect) (r : Ref) → is_settled (record c { connection = some r }) ≡ true
attached_settled c r = ground arith

here_settled :
    (q : Ref) (c : PendingConnect) (s : Objects PendingConnect)
    → is_settled c ≡ true
    → is_settled ((put_at q c s).at q) ≡ true
here_settled q c s h = subst (λ c. is_settled c ≡ true) (sym (put_at-here q c s)) h

-- What a block does to a pending connect, if anything.
data Role : Type 0 where
  settles wakes : Ref → Role
  passes : Role

module _ {R : RakNet} where
  abbrev role : Block R → Role
  role b = elim b [
    | attaches pending r ↦ settles pending
    | blames pending reason ↦ settles pending
    | wakes_connect pending ↦ wakes pending
    | _ ↦ passes
  ]

abbrev In : Ref → List Ref → Type 0
In r [] = ⊥
In r (q ∷ refs) = (q ≡ r) ⊎ In r refs

-- Behind such a block these are settled too.
abbrev behind : Role → List Ref → List Ref
behind (settles r) refs = r ∷ refs
behind (wakes r) refs = refs
behind passes refs = refs

abbrev ReadyRole : Objects PendingConnect → List Ref → Role → Type 0
ReadyRole s refs (settles r) = Unit {0}
ReadyRole s refs (wakes r) = (r < s.next) × (In r refs ⊎ (is_settled (s.at r) ≡ true))
ReadyRole s refs passes = Unit {0}

abbrev HasSettled : Objects PendingConnect → Role → Type 0
HasSettled s (settles r) = is_settled (s.at r) ≡ true
HasSettled s (wakes r) = Unit {0}
HasSettled s passes = Unit {0}

-- A call is woken only once it is settled.
abbrev Woken : Objects PendingConnect → Type 0
Woken s = (r : Ref) → r < s.next → (s.at r).event ≡ true → is_settled (s.at r) ≡ true

-- What is settled, or will be, in the first case is so in the second.
record Covers (s : Objects PendingConnect) (refs : List Ref) (s' : Objects PendingConnect)
    (refs' : List Ref) : Type 0 where
  grows : (r : Ref) → r < s.next → r < s'.next
  covers :
      (r : Ref)
      → r < s.next
      → In r refs ⊎ (is_settled (s.at r) ≡ true)
      → In r refs' ⊎ (is_settled (s'.at r) ≡ true)

module _ {s s' : Objects PendingConnect} {refs refs' : List Ref} (c : Covers s refs s' refs') where
  behind-Covers : (x : Role) → Covers s (behind x refs) s' (behind x refs')
  behind-Covers (wakes q) = c
  behind-Covers passes = c
  behind-Covers (settles q) = record { grows = c.grows; covers = cover }
    where
      cover :
          (r : Ref)
          → r < s.next
          → In r (q ∷ refs) ⊎ (is_settled (s.at r) ≡ true)
          → In r (q ∷ refs') ⊎ (is_settled (s'.at r) ≡ true)
      cover r h (inl (inl e)) = inl (inl e)
      cover r h (inl (inr e)) = elim (c.covers r h (inl e)) [ inl f ↦ inl (inr f) | inr f ↦ inr f ]
      cover r h (inr e) = elim (c.covers r h (inr e)) [ inl f ↦ inl (inr f) | inr f ↦ inr f ]

  ReadyRole-onward : (x : Role) → ReadyRole s refs x → ReadyRole s' refs' x
  ReadyRole-onward (settles q) h = tt
  ReadyRole-onward (wakes q) (made, h) = (c.grows q made, c.covers q made h)
  ReadyRole-onward passes h = tt

behind_more :
    (s : Objects PendingConnect) (refs : List Ref) (x : Role) → Covers s refs s (behind x refs)
behind_more s refs (settles q) = record {
  grows = λ r h. h;
  covers = λ r h g. elim g [ inl e ↦ inl (inr e) | inr e ↦ inr e ];
}
behind_more s refs (wakes q) = record { grows = λ r h. h; covers = λ r h g. g }
behind_more s refs passes = record { grows = λ r h. h; covers = λ r h g. g }

module _ {R : RakNet} where
  -- Where the calls of the list will have been settled, the blocks wake only calls that are.
  abbrev Ready : Objects PendingConnect → List Ref → List (Block R) → Type 0
  Ready s refs [] = Unit {0}
  Ready s refs (b ∷ blocks) = ReadyRole s refs (role b) × Ready s (behind (role b) refs) blocks

  Ready-onward :
      (s s' : Objects PendingConnect) (refs refs' : List Ref) (blocks : List (Block R))
      → Covers s refs s' refs'
      → Ready s refs blocks
      → Ready s' refs' blocks
  Ready-onward s s' refs refs' [] c h = tt
  Ready-onward s s' refs refs' (b ∷ blocks) c (h, hs) = (
    ReadyRole-onward c (role b) h,
    Ready-onward s s' (behind (role b) refs) (behind (role b) refs') blocks
        (behind-Covers c (role b)) hs,
  )

  append-Ready :
      (s : Objects PendingConnect) (refs : List Ref) (blocks more : List (Block R))
      → Ready s refs blocks
      → Ready s refs more
      → Ready s refs (blocks ++ more)
  append-Ready s refs [] more h hs = hs
  append-Ready s refs (b ∷ blocks) more (h, rest) hs = (
    h,
    append-Ready s (behind (role b) refs) blocks more rest
        (Ready-onward s s refs (behind (role b) refs) more (behind_more s refs (role b)) hs),
  )

  -- A program that starts with no such block, and one behind a block that has run.
  Starts-ReadyRole : (p : Peer R) (b : Block R) → Starts p b → ReadyRole p.connect_at [] (role b)
  Starts-ReadyRole p b = elim b as (λ b. Starts p b → ReadyRole p.connect_at [] (role b)) [
    | wakes_connect pending ↦ λ h. absurd h
    | _ ↦ λ h. tt
  ]
