-- ===== src/Peer/Threads/Settling/Turns.antt =====
-- However the threads take turns, no pending connect is woken before it is settled.
use raknet_python.Prelude.{
  ℕ, ◌<◌, ◌≡◌, ◌≢◌, inl, inr, subst, true, Option, none, List, [], ◌∷◌, arith, nat_eq, string_eq,
}
use raknet_python.Prelude.Objects.{Ref}
use raknet_python.Raw.Interface.{RakNet}
use raknet_python.Peer.{Peer}
use raknet_python.Peer.Connecting.{ConnectCall, finish_connect}
use raknet_python.Peer.Threads.{Block}
use raknet_python.Peer.Threads.Exec.{exec}
use raknet_python.Peer.Threads.Turns.{Threads, Turn, begins, runs, Interleaved, start, later}
use raknet_python.Peer.Threads.Fitting.{AllFit}
use raknet_python.Peer.Starting.{new_peer}
use raknet_python.Peer.Threads.Invariant.{
  IsInOrder, reprogram-each, new_threads, Interleaved-IsInOrder,
}
use raknet_python.Peer.Threads.Settling.{
  is_settled, settles, wakes, passes, Role, role, behind, HasSettled, Woken, Covers, Ready,
  Ready-onward, append-Ready, Starts-ReadyRole,
}
use raknet_python.Peer.Threads.Settling.Blocks.{Settles, exec-Settles}

-- Calls are woken once they are settled, and the programs keep to it.
record IsSettling {R : RakNet} (s : Threads R) : Type 0 where
  woken : Woken s.peer.connect_at
  ready : (i : ℕ) → Ready s.peer.connect_at [] (s.program i)

module _ (R : RakNet) where
  -- Behind a block that has run, the rest of the program is ready.
  rest-Covers :
      (p : Peer R) (b : Block R) (out : List (Block R) × Peer R)
      → Settles p b out
      → Covers p.connect_at (behind (role b) []) out.1.connect_at []
  rest-Covers p b out f = by_role (role b) f.covers f.settled
    where
      by_role :
          (x : Role)
          → Covers p.connect_at [] out.1.connect_at []
          → HasSettled out.1.connect_at x
          → Covers p.connect_at (behind x []) out.1.connect_at []
      by_role (wakes q) c h = c
      by_role passes c h = c
      by_role (settles q) c h = record {
        grows = c.grows;
        covers = λ r made g. elim g [
          | inl (inl e) ↦ inr (subst (λ r. is_settled (out.1.connect_at.at r) ≡ true) e h)
          | inl (inr e) ↦ absurd e
          | inr e ↦ c.covers r made (inr e)
        ];
      }

  Turn-IsSettling : {s t : Threads R} → Turn s t → IsInOrder s → IsSettling s → IsSettling t
  Turn-IsSettling {s = s} (begins i b free first) v h = record {
    woken = h.woken;
    ready =
        reprogram-each R (Ready s.peer.connect_at []) i (b ∷ []) s.program
          (Starts-ReadyRole s.peer b first, tt) h.ready;
  }
  Turn-IsSettling {s = s} (runs i now b rest e) v h =
      let (fits, _) : AllFit s.peer (b ∷ rest) = subst (AllFit s.peer) e (v.fit i) in
      let (first, others) : Ready s.peer.connect_at [] (b ∷ rest) =
        subst (Ready s.peer.connect_at []) e (h.ready i) in
      let f = exec-Settles R now s.peer v.safe h.woken b fits first in
      let after = (exec R now b s.peer).1.connect_at in
      record {
        woken = f.woken;
        ready =
            reprogram-each R (Ready after []) i _ s.program
              (append-Ready after [] (exec R now b s.peer).0 rest f.ready (
                Ready-onward s.peer.connect_at after (behind (role b) []) [] rest
                  (rest-Covers s.peer b _ f) others))
              (λ j. Ready-onward s.peer.connect_at after [] [] (s.program j) f.covers (h.ready j));
      }

  new_threads-IsSettling :
      (cap : Option ℕ) (raw : R.RakPeerInterface) → IsSettling (new_threads R cap raw)
  unfolding new_peer
  new_threads-IsSettling cap raw = record { woken = λ r h e. absurd (omega arith); ready = λ i. tt }

  -- However the threads of a new peer take turns: once the event of a `connect` that has been
  -- registered is set, the call has its connection or its reason, so that `_finish_connect` returns
  -- or raises `ConnectError`, and its `assert` never fails.
  pub Interleaved-settled :
      (cap : Option ℕ) (raw : R.RakPeerInterface) (t : Threads R) (r : Ref) (call : ConnectCall)
      → Interleaved (new_threads R cap raw) t
      → r < t.peer.connect_at.next
      → (t.peer.connect_at.at r).event ≡ true
      → finish_connect R call (t.peer.connect_at.at r) ≢ none
  unfolding finish_connect
  Interleaved-settled cap raw t r call path made set =
      let done = (along path).woken r made set in λ e. ground (arith, done)
    where
      along : {t : Threads R} → Interleaved (new_threads R cap raw) t → IsSettling t
      along start = new_threads-IsSettling cap raw
      along (later {t = t} before turn) =
          Turn-IsSettling turn (Interleaved-IsInOrder R cap raw t before) (along before)
