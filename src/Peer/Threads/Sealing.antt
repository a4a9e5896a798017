-- ===== src/Peer/Threads/Sealing.antt =====
-- A thread that marks a connection as closed goes on to close its mailbox.
use raknet_python.Prelude.{
  ℕ, ◌<◌, ◌≡◌, ◌⊎◌, inl, inr, refl, sym, ◌∙◌, Bool, true, false, Option, none, some, List, [], ◌∷◌,
  ◌++◌, arith, nat_eq, Bool-cases, nat_beq_iff, String, subst, ◌==◌,
}
use raknet_python.Prelude.Objects.{Ref, Objects, put_at, alloc}
use raknet_python.Raw.Interface.{Bytes, RakNet}
use raknet_python.Exceptions.{ConnectionClosed}
use raknet_python.Mailbox
use raknet_python.Mailbox.{Mailbox}
use raknet_python.Peer.{Connection, Peer}
use raknet_python.Peer.Sink.{track, pop_pending_connect}
use raknet_python.Peer.Closing.{begin_close, raw_shutdown}
use raknet_python.Peer.Connecting.{enter_connect, register_connect, withdraw_connect}
use raknet_python.Peer.Pinging.{enter_ping, register_ping, withdraw_ping}
use raknet_python.Peer.Threads.{
  Block, comes, enters_connect, enters_ping, accepts, takes, owns, closes, commits, puts, flags,
  seals, after_flag,
}
use raknet_python.Peer.Threads.Exec.{exec}

-- A connection that is marked as closed while `get` on its mailbox still waits.
pub record Owes {A : Type 0} (s : Objects (Connection A)) (r : Ref) : Type 0 where
  pub made : r < s.next
  pub shut : (s.at r).closed ≡ true
  pub unended : (s.at r).mailbox.exc ≡ none

module _ {A : Type 0} (s : Objects (Connection A)) where
  write-Owes :
      (q : Ref) (c : Connection A) (r : Ref)
      → c.closed ≡ (s.at q).closed
      → (c.mailbox.exc ≡ none → (s.at q).mailbox.exc ≡ none)
      → Owes (put_at q c s) r
      → Owes s r
  write-Owes q c r same still d = record {
    made = d.made;
    shut = ground (arith, d.shut);
    unended = ground (arith, d.unended);
  }

  made-Owes : (c : Connection A) → c.closed ≡ false → (r : Ref) → Owes (alloc c s) r → Owes s r
  made-Owes c fresh r d = record {
    made = ground (arith, d.made, d.shut);
    shut = ground (arith, d.shut);
    unended = ground (arith, d.unended, d.shut);
  }

take_first-exc : (m : Mailbox) → (Mailbox.take_first m).1.exc ≡ m.exc
unfolding Mailbox.take_first
take_first-exc m = ground arith

put-exc : (m : Mailbox) (bytes : Bytes) → (Mailbox.put m bytes).1.exc ≡ m.exc
unfolding Mailbox.put
put-exc m bytes = ground arith

close-exc : (m : Mailbox) (e : ConnectionClosed) → (Mailbox.close m e).exc ≡ none → m.exc ≡ none
unfolding Mailbox.close
close-exc m e h = ground arith

module _ {R : RakNet} where
  -- The program closes the mailbox.
  abbrev pub Seals : Ref → List (Block R) → Type 0
  Seals r [] = ⊥
  Seals r (b ∷ blocks) = ((exc : ConnectionClosed) × (b ≡ seals r exc)) ⊎ Seals r blocks

  pub append-Seals :
      (r : Ref) (blocks more : List (Block R))
      → Seals r blocks ⊎ Seals r more
      → Seals r (blocks ++ more)
  append-Seals r [] more (inl h) = absurd h
  append-Seals r [] more (inr h) = h
  append-Seals r (b ∷ blocks) more (inl (inl h)) = inl h
  append-Seals r (b ∷ blocks) more (inl (inr h)) = inr (append-Seals r blocks more (inl h))
  append-Seals r (b ∷ blocks) more (inr h) = inr (append-Seals r blocks more (inr h))

module _ (R : RakNet) where
  pub enter_connect-connection_at :
      (key : String) (p : Peer R) → (enter_connect R key p).1.connection_at ≡ p.connection_at
  unfolding enter_connect register_connect
  enter_connect-connection_at key p = ground arith

  pub enter_ping-connection_at :
      (now : ℕ) (key : String) (p : Peer R)
      → (enter_ping R now key p).1.connection_at ≡ p.connection_at
  unfolding enter_ping register_ping
  enter_ping-connection_at now key p = ground arith

  pub begin_close-connection_at : (p : Peer R) → (begin_close R p).1.connection_at ≡ p.connection_at
  unfolding begin_close
  begin_close-connection_at p = ground arith

  pub accepts-connection_at :
      (now : ℕ) (p : Peer R) → (exec R now accepts p).1.connection_at ≡ p.connection_at
  unfolding exec
  accepts-connection_at now p = ground arith

  after_flag-Seals :
      (r : Ref) (notify : Option Bool) (exc : ConnectionClosed)
      → Seals r (after_flag R r notify exc)
  unfolding after_flag
  after_flag-Seals r none exc = inl (exc, refl)
  after_flag-Seals r (some notify) exc = inr (inl (exc, refl))

  -- A block that leaves a connection marked as closed with an open mailbox has found it so, or is
  -- followed by one that closes the mailbox.
  pub exec-Owes :
      (now : ℕ) (b : Block R) (p : Peer R) (q : Ref)
      → Owes (exec R now b p).1.connection_at q
      → Seals q (exec R now b p).0 ⊎ Owes p.connection_at q
  unfolding exec track pop_pending_connect withdraw_connect withdraw_ping Mailbox.close raw_shutdown
  exec-Owes now b p q =
      elim b
        as (λ b.
          Owes (exec R now b p).1.connection_at q
          → Seals q (exec R now b p).0 ⊎ Owes p.connection_at q) [
            | comes address guid ↦ λ d. inr (made-Owes _ _ refl _ d)
            | enters_connect key ↦
                λ d. inr (subst (λ s. Owes s q) (enter_connect-connection_at key p) d)
            | enters_ping key ↦
                λ d. inr (subst (λ s. Owes s q) (enter_ping-connection_at now key p) d)
            | accepts ↦ λ d. inr (subst (λ s. Owes s q) (accepts-connection_at now p) d)
            | takes r ↦ λ d. inr (write-Owes _ r _ _ refl (λ e. sym (take_first-exc _) ∙ e) d)
            | owns r ↦ λ d. inr (write-Owes _ r _ _ refl (λ e. e) d)
            | closes ms exc ↦ λ d. inr (subst (λ s. Owes s q) (begin_close-connection_at p) d)
            | commits address guid pending ↦ λ d. inr (made-Owes _ _ refl _ d)
            | puts r bytes ↦ λ d. inr (
                write-Owes _ r _ _ refl
                  (λ e. sym (put-exc (p.connection_at.at r).mailbox bytes) ∙ e) d)
            | flags r notify exc ↦ λ d. elim (Bool-cases (r == q)) [
              | inl same ↦ inl (
                  subst (λ q. Seals q (after_flag R r notify exc)) ((nat_beq_iff r q).0 same)
                    (after_flag-Seals r notify exc))
              | inr other ↦ inr (record {
                made = d.made;
                shut = ground (arith, d.shut);
                unended = ground (arith, d.unended);
              })
            ]
            | seals r exc ↦
                λ d. inr (write-Owes _ r _ _ refl (close-exc (p.connection_at.at r).mailbox exc) d)
            | _ ↦ λ d. inr d
          ]
