-- ===== src/Peer/Threads/Safety.antt =====
-- When a peer is safe, and what a block that changes one table leaves safe.
use raknet_python.Prelude.{ℕ, ◌≡◌, ◌∙◌, refl, String, Option, List, string_eq, nat_eq}
use raknet_python.Prelude.Dict.{Dict}
use raknet_python.Prelude.Objects.{Ref, Objects}
use raknet_python.Raw.Interface.{RakNetGuid, RakNet}
use raknet_python.Mailbox.{Mailbox}
use raknet_python.Mailbox.Bounds.{IsBounded}
use raknet_python.Peer.{Connection, PendingConnect, PendingPing, Peer, new_connection}
use raknet_python.Peer.Sink.{track}
use raknet_python.Peer.Sink.Invariant.{new_connection-IsSound}
use raknet_python.Peer.Threads.{Block}
use raknet_python.Peer.Threads.Exec.{set_connection}
use raknet_python.Peer.Threads.Fitting.{Keeps, IsForward, AllFit}
use raknet_python.Peer.Threads.Moves.{
  stay-Keeps, write-Keeps, insert-Keeps, SafePending, SafeConnections, track-SafeConnections,
  write-SafeConnections,
}

-- The peer is safe: its tables are in order, and no connection holds more than its limit.
pub record IsSafe {R : RakNet} (self : Peer R) : Type 0 where
  pub connections : SafeConnections self.max_queue self.connections self.connection_at
  pub connects : SafePending (λ p. p.event) self.pending_connects self.connect_at
  pub pings : SafePending (λ p. p.event) self.pending_pings self.ping_at

-- A block has run.
pub record IsAdvance {R : RakNet} (p : Peer R) (out : List (Block R) × Peer R) : Type 0 where
  pub safe : IsSafe out.1
  pub forward : IsForward p out.1
  pub fit : AllFit out.1 out.0

module _ (R : RakNet) where
  open R use {SystemAddress}

  module _ (p : Peer R) (v : IsSafe p) {blocks : List (Block R)} where
    pub by_connections :
        {d : Dict ℕ Ref} {s : Objects (Connection SystemAddress)} {queue : List (Option Ref)}
        {raw : R.RakPeerInterface}
        → let q = record p {
          connections = d;
          connection_at = s;
          accept_queue = queue;
          raw = raw;
        } in
          SafeConnections p.max_queue d s
          → Keeps p.connections p.connection_at d s
          → AllFit q blocks
          → IsAdvance p (blocks, q)
    by_connections w f fit = record {
      safe = record { connections = w; connects = v.connects; pings = v.pings };
      forward = record { connections = f; connects = stay-Keeps _ _; pings = stay-Keeps _ _ };
      fit = fit;
    }

    pub by_connects :
        {d : Dict String Ref} {s : Objects PendingConnect}
        → let q = record p { pending_connects = d; connect_at = s } in
          SafePending (λ p. p.event) d s
          → Keeps p.pending_connects p.connect_at d s
          → AllFit q blocks
          → IsAdvance p (blocks, q)
    by_connects w f fit = record {
      safe = record { connections = v.connections; connects = w; pings = v.pings };
      forward = record { connections = stay-Keeps _ _; connects = f; pings = stay-Keeps _ _ };
      fit = fit;
    }

    pub by_pings :
        {d : Dict String Ref} {s : Objects PendingPing}
        → let q = record p { pending_pings = d; ping_at = s } in
          SafePending (λ p. p.event) d s
          → Keeps p.pending_pings p.ping_at d s
          → AllFit q blocks
          → IsAdvance p (blocks, q)
    by_pings w f fit = record {
      safe = record { connections = v.connections; connects = v.connects; pings = w };
      forward = record { connections = stay-Keeps _ _; connects = stay-Keeps _ _; pings = f };
      fit = fit;
    }

    -- Neither a table nor an object changes.
    pub by_rest :
        {queue : List (Option Ref)} {raw : R.RakPeerInterface}
        → let q = record p { accept_queue = queue; raw = raw } in
          AllFit q blocks → IsAdvance p (blocks, q)
    by_rest fit = by_connections v.connections (stay-Keeps _ _) fit

  module _ (p : Peer R) (v : IsSafe p) where
    pub track-IsAdvance :
        (address : SystemAddress) (guid : RakNetGuid) (blocks : List (Block R))
        → AllFit (track R address guid p) blocks
        → IsAdvance p (blocks, track R address guid p)
    unfolding track
    track-IsAdvance address guid blocks fit =
        let sound = new_connection-IsSound R p address guid in
        by_connections p v
          (track-SafeConnections v.connections (new_connection R p address guid) refl
            (record { limit = sound.limit; bounded = sound.bounded }))
          (insert-Keeps _ _ _ _) fit

    -- An assignment to the mailbox of a connection.
    pub mailbox-IsAdvance :
        (r : Ref) (m : Mailbox) (blocks : List (Block R))
        → m.maxsize ≡ (p.connection_at.at r).mailbox.maxsize
        → (IsBounded (p.connection_at.at r).mailbox → IsBounded m)
        → let q = set_connection R r (record (p.connection_at.at r) { mailbox = m }) p in
          AllFit q blocks → IsAdvance p (blocks, q)
    mailbox-IsAdvance r m blocks same bounded fit =
        by_connections p v
          (write-SafeConnections v.connections r _ refl refl
            (λ h. record { limit = same ∙ h.limit; bounded = bounded h.bounded }))
          (write-Keeps _ _ r _) fit
