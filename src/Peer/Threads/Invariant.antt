-- ===== src/Peer/Threads/Invariant.antt =====
-- What holds of a peer and of its threads' programs however the threads take turns.
use raknet_python.Prelude.{
  ℕ, ◌<◌, ◌≡◌, ◌≢◌, inl, inr, sym, ◌∙◌, subst, ap, true, Option, none, List, [], ◌∷◌, arith, nat_eq,
  Bool-cases, nat_beq_iff, ==-refl, ◌==◌,
}
use raknet_python.Prelude.Dict.{values}
use raknet_python.Prelude.Objects.{Ref}
use raknet_python.Raw.Interface.{RakNet}
use raknet_python.Exceptions.{ConnectionClosed}
use raknet_python.Mailbox
use raknet_python.Mailbox.{Mailbox, is_ready}
use raknet_python.Mailbox.Waiting.{is_answer, get-ready}
use raknet_python.Peer.{Peer}
use raknet_python.Peer.Closing.Invariant.{nil-Waits, nil-IsTracked}
use raknet_python.Peer.Starting.{new_peer}
use raknet_python.Peer.Threads.{
  Block, disconnects, commits, wakes_connect, wakes_ping, puts, pops, flags, seals,
}
use raknet_python.Peer.Threads.Exec.{exec}
use raknet_python.Peer.Threads.Turns.{
  Starts, Threads, reprogram, Turn, begins, runs, Interleaved, start, later,
}
use raknet_python.Peer.Threads.Fitting.{Fits, AllFit, AllFit-onward, append-AllFit}
use raknet_python.Peer.Threads.Safety.{IsSafe}
use raknet_python.Peer.Threads.Advance.{exec-IsAdvance}
use raknet_python.Peer.Threads.Sealing.{Owes, Seals, append-Seals, exec-Owes}

module _ {R : RakNet} where
  -- The peer is safe, the blocks that the threads have still to run fit it, and whenever a
  -- connection is marked as closed but its mailbox is open, some thread will close the mailbox.
  pub record IsInOrder (s : Threads R) : Type 0 where
    pub safe : IsSafe s.peer
    pub fit : (i : ℕ) → AllFit s.peer (s.program i)
    pub sealed : (r : Ref) → Owes s.peer.connection_at r → (i : ℕ) × Seals r (s.program i)

module _ (R : RakNet) where
  pub reprogram-each :
      (P : List (Block R) → Type 0) (i : ℕ) (blocks : List (Block R)) (program : ℕ → List (Block R))
      → P blocks
      → ((j : ℕ) → P (program j))
      → (j : ℕ) → P (reprogram i blocks program j)
  reprogram-each P i blocks program h hs j = elim (Bool-cases (i == j)) [
    | inl same ↦ rw same h
    | inr other ↦ rw other (hs j)
  ]

  reprogram-Seals :
      (r : Ref) (i : ℕ) (old blocks : List (Block R)) (program : ℕ → List (Block R))
      → program i ≡ old
      → (Seals r old → Seals r blocks)
      → (j : ℕ) × Seals r (program j)
      → (j : ℕ) × Seals r (reprogram i blocks program j)
  reprogram-Seals r i old blocks program e h (j, g) = elim (Bool-cases (i == j)) [
    | inl same ↦
        let here : Seals r old =
          subst (Seals r) (ap program (sym ((nat_beq_iff i j).0 same)) ∙ e) g in
        (j, rw same (h here))
    | inr other ↦ (j, rw other g)
  ]

  reprogram-here :
      (r : Ref) (i : ℕ) (blocks : List (Block R)) (program : ℕ → List (Block R))
      → Seals r blocks
      → Seals r (reprogram i blocks program i)
  reprogram-here r i blocks program h = rw (==-refl i) h

  Starts-Fits : (p : Peer R) (b : Block R) → Starts p b → Fits p b
  Starts-Fits p b = elim b as (λ b. Starts p b → Fits p b) [
    | disconnects r notify ↦ λ h. h
    | commits address guid pending ↦ λ h. absurd h
    | wakes_connect pending ↦ λ h. absurd h
    | wakes_ping pending ↦ λ h. absurd h
    | puts r bytes ↦ λ h. absurd h
    | pops r notify exc ↦ λ h. absurd h
    | flags r notify exc ↦ λ h. absurd h
    | _ ↦ λ h. tt
  ]

  seals-not-Owes :
      (now : ℕ) (p : Peer R) (r : Ref) (exc : ConnectionClosed)
      → Owes (exec R now (seals r exc) p).1.connection_at r
      → ⊥
  unfolding exec Mailbox.close
  seals-not-Owes now p r exc d = ground (arith, d.unended)

  -- A program that closes the mailbox, and has not just done so, does it later.
  still_due :
      (now : ℕ) (b : Block R) (p : Peer R) (r : Ref)
      → Owes (exec R now b p).1.connection_at r
      → (rest : List (Block R)) → Seals r (b ∷ rest)
      → Seals r rest
  still_due now b p r d rest (inr due) = due
  still_due now b p r d rest (inl (exc, e)) =
      absurd (seals-not-Owes now p r exc (subst (λ b. Owes (exec R now b p).1.connection_at r) e d))

  Turn-IsInOrder : {s t : Threads R} → Turn s t → IsInOrder s → IsInOrder t
  Turn-IsInOrder {s = s} (begins i b idle h) v = record {
    safe = v.safe;
    fit = reprogram-each (AllFit s.peer) i (b ∷ []) s.program (Starts-Fits s.peer b h, tt) v.fit;
    sealed = λ r d. reprogram-Seals r i [] _ s.program idle (λ due. absurd due) (v.sealed r d);
  }
  Turn-IsInOrder {s = s} (runs i now b rest e) v =
      let (fits, others) : AllFit s.peer (b ∷ rest) = subst (AllFit s.peer) e (v.fit i) in
      let a = exec-IsAdvance R now b s.peer v.safe fits in
      let p = (exec R now b s.peer).1 in
      record {
        safe = a.safe;
        fit =
            reprogram-each (AllFit p) i _ s.program
              (append-AllFit p (exec R now b s.peer).0 rest a.fit
                (AllFit-onward s.peer p rest a.forward others))
              (λ j. AllFit-onward s.peer p (s.program j) a.forward (v.fit j));
        sealed = λ r d. elim (exec-Owes R now b s.peer r d) [
          | inl now_due ↦ (i, reprogram-here r i _ s.program (append-Seals r _ rest (inl now_due)))
          | inr before ↦
              reprogram-Seals r i (b ∷ rest) _ s.program e
                (λ due. append-Seals r _ rest (inr (still_due now b s.peer r d rest due)))
                (v.sealed r before)
        ];
      }

  -- A new peer, whose threads have nothing to do yet.
  abbrev pub new_threads : Option ℕ → R.RakPeerInterface → Threads R
  new_threads cap raw = record { peer = new_peer R cap raw; program = λ i. [] }

  new_threads-IsInOrder :
      (cap : Option ℕ) (raw : R.RakPeerInterface) → IsInOrder (new_threads cap raw)
  unfolding new_peer values
  new_threads-IsInOrder cap raw = record {
    safe = record {
      connections = record {
        tracked = nil-IsTracked _;
        within = λ r h. absurd (omega arith);
        below = tt;
      };
      connects = record { waits = nil-Waits _ _; below = tt };
      pings = record { waits = nil-Waits _ _; below = tt };
    };
    fit = λ i. tt;
    sealed = λ r d. absurd (omega (arith, d.made));
  }

  -- However the threads of a new peer take turns, block by block, and any number of them may run the
  -- callbacks of the pump: each connection in the table is open and stands under its own guid; every
  -- connection that was ever made has the limit of the peer and holds no more messages than it; the
  -- pending calls in the tables have been made, have events that are not set, and are different
  -- objects under different keys; each connection that a thread is about to mark as closed,
  -- and each pending call that it is about to wake, has been made and has left its table; and whenever a connection is marked as closed
  -- while its mailbox has no exception, some thread has still to close that mailbox.
  pub Interleaved-IsInOrder :
      (cap : Option ℕ) (raw : R.RakPeerInterface) (t : Threads R)
      → Interleaved (new_threads cap raw) t
      → IsInOrder t
  Interleaved-IsInOrder cap raw t path = along path
    where
      along : {t : Threads R} → Interleaved (new_threads cap raw) t → IsInOrder t
      along start = new_threads-IsInOrder cap raw
      along (later before turn) = Turn-IsInOrder turn (along before)

  ended-is_ready : (m : Mailbox) → m.exc ≢ none → is_ready m ≡ true
  unfolding is_ready
  ended-is_ready m h = ground (arith, h)

  pub idle-is_ready :
      (t : Threads R)
      → IsInOrder t
      → ((i : ℕ) → t.program i ≡ [])
      → (r : Ref) → r < t.peer.connection_at.next
      → (t.peer.connection_at.at r).closed ≡ true
      → is_ready (t.peer.connection_at.at r).mailbox ≡ true
  idle-is_ready t v idle r made shut = ended-is_ready _ (λ e.
      let (i, due) = v.sealed r (record { made = made; shut = shut; unended = e }) in
      subst (Seals r) (idle i) due)

  -- However the threads of a new peer have taken turns: once none of them has a block left to run,
  -- `recv` on a connection that is marked as closed does not wait, but returns a message or raises,
  -- with any timeout and also with none.
  pub Interleaved-answers :
      (cap : Option ℕ) (raw : R.RakPeerInterface) (t : Threads R) (r : Ref) (timeout : Option ℕ)
      → Interleaved (new_threads cap raw) t
      → ((i : ℕ) → t.program i ≡ [])
      → r < t.peer.connection_at.next
      → (t.peer.connection_at.at r).closed ≡ true
      → is_answer (Mailbox.get timeout [] (t.peer.connection_at.at r).mailbox).0 ≡ true
  Interleaved-answers cap raw t r timeout path idle made shut =
      get-ready timeout (t.peer.connection_at.at r).mailbox
        (idle-is_ready t (Interleaved-IsInOrder cap raw t path) idle r made shut)
