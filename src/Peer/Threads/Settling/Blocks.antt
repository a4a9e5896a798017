-- ===== src/Peer/Threads/Settling/Blocks.antt =====
-- What each block does to the pending connects.
use raknet_python.Prelude.{
  ℕ, ◌≡◌, inl, inr, refl, sym, subst, String, Bool, true, false, Option, none, some, List, [], ◌∷◌,
  arith, nat_eq, string_eq, ◌==◌, Bool-cases, if◌then◌else◌,
}
use raknet_python.Prelude.Dict.{lookup}
use raknet_python.Prelude.Objects.{Ref, put_at}
use raknet_python.Raw.Interface.{RakNet}
use raknet_python.Exceptions.{Result}
use raknet_python.Mailbox
use raknet_python.Peer.{PendingConnect, Peer, address_key}
use raknet_python.Peer.Sink.{track, pop_pending_connect, farewell}
use raknet_python.Peer.Closing.{Collected, begin_close, raw_shutdown}
use raknet_python.Peer.Connecting.{enter_connect, register_connect, withdraw_connect}
use raknet_python.Peer.Pinging.{enter_ping, register_ping, withdraw_ping}
use raknet_python.Peer.Threads.{
  Block, comes, succeeds, fails, delivers, leaves, pongs, enters_connect, enters_ping, accepts,
  disconnects, closes, commits, attaches, blames, wakes_connect, wakes_ping, puts, pops, flags,
  hangs_up, closes_owner, answers, after_begin,
}
use raknet_python.Peer.Threads.Exec.{exec}
use raknet_python.Peer.Threads.Fitting.{Fits}
use raknet_python.Peer.Threads.Safety.{IsSafe}
use raknet_python.Peer.Threads.Settling.{
  is_settled, attached_settled, here_settled, role, ReadyRole, HasSettled, Woken, Covers, Ready,
}
use raknet_python.Peer.Threads.Settling.Following.{
  found-Ready, if-Ready, finish_blocks-Ready, after_flag-Ready,
}

-- What a block does to the pending connects.
pub record Settles {R : RakNet} (p : Peer R) (b : Block R) (out : List (Block R) × Peer R)
    : Type 0 where
  pub covers : Covers p.connect_at [] out.1.connect_at []
  pub settled : HasSettled out.1.connect_at (role b)
  pub ready : Ready out.1.connect_at [] out.0
  pub woken : Woken out.1.connect_at

module _ (R : RakNet) where
  module _ (p : Peer R) (w : Woken p.connect_at) where
    -- No pending connect changes.
    by_same :
        {q : Peer R} {b : Block R} {blocks : List (Block R)}
        → q.connect_at ≡ p.connect_at
        → Ready p.connect_at [] blocks
        → HasSettled q.connect_at (role b)
        → Settles p b (blocks, q)
    by_same {q = q} {b = b} {blocks = blocks} same fit done = record {
      covers =
          subst (λ s. Covers p.connect_at [] s []) (sym same)
            (record { grows = λ r h. h; covers = λ r h g. g });
      settled = done;
      ready = subst (λ s. Ready s [] blocks) (sym same) fit;
      woken = subst Woken (sym same) w;
    }

    -- One is settled, or is settled already.
    by_write :
        {b : Block R} (pending : Ref) (c : PendingConnect)
        → is_settled c ≡ true
        → let q = record p { connect_at = put_at pending c p.connect_at } in
          HasSettled q.connect_at (role b) → Settles p b ([], q)
    by_write pending c done first = record {
      covers = record {
        grows = λ r h. h;
        covers = λ r h g. elim (Bool-cases (pending == r)) [
          | inl same ↦ inr (rw same done)
          | inr other ↦ rw other g
        ];
      };
      settled = first;
      ready = tt;
      woken = λ r h e. elim (Bool-cases (pending == r)) [
        | inl same ↦ rw same done
        | inr other ↦ ground (arith, w r)
      ];
    }

  module _ (now : ℕ) (p : Peer R) (v : IsSafe p) (w : Woken p.connect_at) where
    if-Settles :
        {X : Type 0} (b : Block R) (out : X → List (Block R) × Peer R) (shut : Bool)
        (these those : X)
        → Settles p b (out these)
        → Settles p b (out those)
        → Settles p b (out (if shut then these else those))
    if-Settles b out true these those h g = h
    if-Settles b out false these those h g = g

    register-Settles :
        (key : String) → Settles p (enters_connect key) ([], register_connect R key p)
    unfolding register_connect
    register-Settles key = record {
      covers = record {
        grows = λ r h. omega arith;
        covers = λ r h g. let old : (p.connect_at.next == r) ≡ false = ground arith in rw old g;
      };
      settled = tt;
      ready = tt;
      woken = λ r h e. elim (Bool-cases (p.connect_at.next == r)) [
        | inl same ↦ absurd (ground arith)
        | inr old ↦ ground (arith, w r)
      ];
    }

    accepts-Settles :
        (queue : List (Option Ref))
        → Settles
            (record p { accept_queue = queue })
            accepts
            (exec R now accepts (record p { accept_queue = queue }))
    unfolding exec
    accepts-Settles [] = by_same (record p { accept_queue = [] }) w refl tt tt
    accepts-Settles (none ∷ queue) =
        by_same (record p { accept_queue = none ∷ queue }) w refl (tt, tt) tt
    accepts-Settles (some r ∷ queue) =
        by_same (record p { accept_queue = some r ∷ queue }) w refl tt tt

    pub exec-Settles :
        (b : Block R) → Fits p b → ReadyRole p.connect_at [] (role b) → Settles p b (exec R now b p)
    unfolding exec track pop_pending_connect withdraw_connect withdraw_ping raw_shutdown begin_close
        enter_connect register_connect enter_ping register_ping after_begin
    exec-Settles b =
        elim b
          as (λ b. Fits p b → ReadyRole p.connect_at [] (role b) → Settles p b (exec R now b p)) [
            | comes address guid ↦ λ h g. by_same p w refl (tt, tt) tt
            | succeeds address guid ↦ λ h g.
                by_same p w refl
                  (found-Ready R p.connect_at (lookup (address_key R address) p.pending_connects)
                    (λ r. commits address guid r ∷ []) (λ r found. (tt, tt)))
                  tt
            | fails address reason ↦ λ h g.
                by_same p w refl
                  (found-Ready R p.connect_at (lookup (address_key R address) p.pending_connects)
                    (λ r. blames r reason ∷ wakes_connect r ∷ [])
                    (λ r found. (tt, ((v.connects.waits.made _ r found, inl (inl refl)), tt))))
                  tt
            | delivers guid bytes ↦ λ h g.
                by_same p w refl
                  (found-Ready R p.connect_at (lookup guid.g p.connections) (λ r. puts r bytes ∷ [])
                    (λ r found. (tt, tt)))
                  tt
            | leaves guid graceful ↦ λ h g.
                by_same p w refl
                  (found-Ready R p.connect_at (lookup guid.g p.connections)
                    (λ r. flags r none (farewell R graceful) ∷ []) (λ r found. (tt, tt)))
                  tt
            | pongs address guid bytes ↦ λ h g.
                by_same p w refl
                  (found-Ready R p.connect_at (lookup (address_key R address) p.pending_pings)
                    (λ r. answers r address guid bytes ∷ wakes_ping r ∷ [])
                    (λ r found. (tt, (tt, tt))))
                  tt
            | enters_connect key ↦ λ h g.
                if-Settles (enters_connect key) (λ (o : Result Ref × Peer R). ([], o.1)) p.closed _
                  _ (by_same p w refl tt tt) (register-Settles key)
            | enters_ping key ↦ λ h g.
                if-Settles (enters_ping key) (λ (o : Result Ref × Peer R). ([], o.1)) p.closed _ _
                  (by_same p w refl tt tt) (by_same p w refl tt tt)
            | accepts ↦ λ h g. accepts-Settles p.accept_queue
            | disconnects r notify ↦ λ h g.
                by_same p w refl
                  (if-Ready R p.connect_at (p.connection_at.at r).closed _ _ (tt, tt)
                    (tt, (tt, tt)))
                  tt
            | closes ms exc ↦ λ h g.
                if-Settles (closes ms exc)
                  (λ (o : Option Collected × Peer R). (after_begin R ms exc o.0, o.1)) p.closed _ _
                  (by_same p w refl tt tt)
                  (by_same p w refl (tt, finish_blocks-Ready R p.connect_at _ exc v.connects.below)
                    tt)
            | commits address guid pending ↦
                λ h g. by_same p w refl (tt, ((h.made, inl (inl refl)), tt)) tt
            | attaches pending r ↦ λ h g.
                by_write p w pending _ (attached_settled (p.connect_at.at pending) r) (
                  here_settled pending _ p.connect_at
                    (attached_settled (p.connect_at.at pending) r))
            | blames pending reason ↦
                λ h g. by_write p w pending _ refl (here_settled pending _ p.connect_at refl)
            | wakes_connect pending ↦
                λ h g. by_write p w pending _ (elim g.1 [ inl e ↦ absurd e | inr e ↦ e ]) tt
            | puts r bytes ↦ λ h g.
                by_same p w refl
                  (if-Ready R p.connect_at (Mailbox.put (p.connection_at.at r).mailbox bytes).0 _ _
                    tt (tt, tt))
                  tt
            | pops r notify exc ↦ λ h g. by_same p w refl (tt, tt) tt
            | flags r notify exc ↦
                λ h g. by_same p w refl (after_flag-Ready R p.connect_at r notify exc) tt
            | hangs_up r notify ↦
                λ h g. by_same p w refl (if-Ready R p.connect_at p.closed _ _ tt (tt, tt)) tt
            | closes_owner r ↦ λ h g.
                by_same p w refl
                  (if-Ready R p.connect_at (p.connection_at.at r).owns_peer _ _ (tt, tt) tt) tt
            | _ ↦ λ h g. by_same p w refl tt tt
          ]
