-- ===== src/Peer/Sink/Onward.antt =====
-- What never comes back: a connection that has been closed stays closed, keeps its exception, and
-- gets no further message, in every sink callback.
use mathlib.Core.List.{append_assoc}
use raknet_python.Prelude.{
  ℕ, ◌≤◌, ◌<◌, ◌≡◌, ◌≢◌, ◌∙◌, refl, sym, ap, subst, Bool, true, false, none, List, [], ◌++◌, arith,
  ◌==◌, nat_eq, string_eq, Bool-cases, Option-cases, inl, inr,
}
use raknet_python.Prelude.Dict.{lookup}
use raknet_python.Prelude.Objects.{Ref, Objects, put_at, alloc}
use raknet_python.Raw.Interface.{Bytes, RakNetGuid, RakNet}
use raknet_python.Raw.MessageId.{DefaultMessageIdTypes}
use raknet_python.Exceptions.{ConnectionClosed}
use raknet_python.Mailbox
use raknet_python.Peer.{Connection, Peer, address_key, close_mailbox}
use raknet_python.Peer.Sink.{
  track, incoming_connection, pop_pending_connect, connect_succeeded, connect_failed,
  drop_connection, overflow, put_message, message, disconnected, pong,
}
use raknet_python.Peer.Sink.Invariant.{IsValid}

-- A list is the rest of another one.
abbrev pub IsRestOf {ℓ} : {A : Type ℓ} → List A → List A → Type ℓ
IsRestOf {A = A} rest items = (taken : List A) × (items ≡ taken ++ rest)

-- What may become of a connection, where it is closed with an exception.
abbrev pub Follows : {A : Type 0} → Connection A → Connection A → Type 0
Follows c d =
    c.closed ≡ true
    → c.mailbox.exc ≢ none
    → (d.closed ≡ true) × (d.mailbox.exc ≡ c.mailbox.exc) × IsRestOf d.mailbox.items c.mailbox.items

-- No connection is lost, and none is reopened.
pub record IsOnward {A : Type 0} (s t : Objects (Connection A)) : Type 0 where
  pub grows : s.next ≤ t.next
  pub follows : (r : Ref) → r < s.next → Follows (s.at r) (t.at r)

module _ {A : Type 0} where
  pub Follows-refl : (c : Connection A) → Follows c c
  Follows-refl c shut named = (shut, refl, ([], refl))

  Follows-trans : (c d e : Connection A) → Follows c d → Follows d e → Follows c e
  Follows-trans c d e f g shut named =
      let (shut', same', (taken', rest')) = f shut named in
      let (shut'', same'', (taken'', rest'')) = g shut' (λ h. named (sym same' ∙ h)) in
      (
        shut'',
        same'' ∙ same',
        (
          taken' ++ taken'',
          rest' ∙ ap (λ l. taken' ++ l) rest'' ∙ sym (append_assoc taken' taken'' e.mailbox.items),
        ),
      )

  pub IsOnward-refl : (s : Objects (Connection A)) → IsOnward s s
  IsOnward-refl s = record { grows = omega arith; follows = λ r made. Follows-refl (s.at r) }

  pub IsOnward-trans : (s t u : Objects (Connection A)) → IsOnward s t → IsOnward t u → IsOnward s u
  IsOnward-trans s t u f g = record {
    grows = omega (arith, f.grows, g.grows);
    follows = λ r made.
        Follows-trans (s.at r) (t.at r) (u.at r) (f.follows r made)
          (g.follows r (omega (arith, f.grows)));
  }

  pub put_at-IsOnward :
      (r : Ref) (c : Connection A) (s : Objects (Connection A))
      → Follows (s.at r) c
      → IsOnward s (put_at r c s)
  put_at-IsOnward r c s here = record {
    grows = omega arith;
    follows = λ q made. elim (Bool-cases (r == q)) [
      | inl same ↦ rw same (subst (λ p. Follows (s.at p) c) (ground arith) here)
      | inr other ↦ rw other (Follows-refl (s.at q))
    ];
  }

  pub alloc-IsOnward : (c : Connection A) (s : Objects (Connection A)) → IsOnward s (alloc c s)
  alloc-IsOnward c s = record {
    grows = omega arith;
    follows = λ q made. elim (Bool-cases (s.next == q)) [
      | inl same ↦ absurd (ground arith)
      | inr other ↦ rw other (Follows-refl (s.at q))
    ];
  }

module _ (R : RakNet) where
  open R use {SystemAddress}

  pub close_mailbox-Follows :
      (c : Connection SystemAddress) (exc : ConnectionClosed) → Follows c (close_mailbox R c exc)
  unfolding close_mailbox Mailbox.close
  close_mailbox-Follows c exc shut named = elim (Option-cases c.mailbox.exc) [
    | inl e ↦ absurd (named e)
    | inr (first, e) ↦ rw e (refl, refl, ([], refl))
  ]

  -- What a callback does to the connections.
  abbrev pub IsOnwardStep : Peer R → Peer R → Type 0
  IsOnwardStep p q = IsOnward p.connection_at q.connection_at

  track-IsOnward :
      (address : SystemAddress) (guid : RakNetGuid) (self : Peer R)
      → IsOnwardStep self (track R address guid self)
  unfolding track
  track-IsOnward address guid self = alloc-IsOnward _ self.connection_at

  pub incoming_connection-IsOnward :
      (address : SystemAddress) (guid : RakNetGuid) (self : Peer R)
      → IsOnwardStep self (incoming_connection R address guid self)
  unfolding incoming_connection
  incoming_connection-IsOnward address guid self = track-IsOnward address guid self

  pub connect_succeeded-IsOnward :
      (address : SystemAddress) (guid : RakNetGuid) (self : Peer R)
      → IsOnwardStep self (connect_succeeded R address guid self)
  unfolding connect_succeeded pop_pending_connect track
  connect_succeeded-IsOnward address guid self =
      elim (Option-cases (lookup (address_key R address) self.pending_connects)) [
        | inl e ↦ rw (connect_succeeded, e) (IsOnward-refl self.connection_at)
        | inr (r, e) ↦ rw (connect_succeeded, e) (alloc-IsOnward _ self.connection_at)
      ]

  pub connect_failed-IsOnward :
      (address : SystemAddress) (reason : DefaultMessageIdTypes) (self : Peer R)
      → IsOnwardStep self (connect_failed R address reason self)
  unfolding connect_failed pop_pending_connect
  connect_failed-IsOnward address reason self =
      elim (Option-cases (lookup (address_key R address) self.pending_connects)) [
        | inl e ↦ rw (connect_failed, e) (IsOnward-refl self.connection_at)
        | inr (r, e) ↦ rw (connect_failed, e) (IsOnward-refl self.connection_at)
      ]

  pub drop_connection-IsOnward :
      (r : Ref) (exc : ConnectionClosed) (self : Peer R)
      → IsOnwardStep self (drop_connection R r exc self)
  unfolding drop_connection
  drop_connection-IsOnward r exc self =
      put_at-IsOnward r _ self.connection_at (close_mailbox-Follows (self.connection_at.at r) exc)

  put_message-IsOnward :
      (r : Ref) (bytes : Bytes) (self : Peer R)
      → (self.connection_at.at r).closed ≡ false
      → IsOnwardStep self (put_message R r bytes self)
  unfolding put_message overflow
  put_message-IsOnward r bytes self opened =
      elim (Bool-cases (Mailbox.put (self.connection_at.at r).mailbox bytes).0) [
        | inl done ↦ rw done (put_at-IsOnward r _ self.connection_at (λ shut named. cc))
        | inr full ↦ rw full (drop_connection-IsOnward r _ self)
      ]

  pub message-IsOnward :
      (guid : RakNetGuid) (bytes : Bytes) (self : Peer R)
      → IsValid self
      → IsOnwardStep self (message R guid bytes self)
  unfolding message
  message-IsOnward guid bytes self v = elim (Option-cases (lookup guid.g self.connections)) [
    | inl e ↦ rw (message, e) (IsOnward-refl self.connection_at)
    | inr (r, e) ↦ rw (message, e) (put_message-IsOnward r bytes self (v.tracked.opened guid.g r e))
  ]

  pub disconnected-IsOnward :
      (guid : RakNetGuid) (graceful : Bool) (self : Peer R)
      → IsOnwardStep self (disconnected R guid graceful self)
  unfolding disconnected
  disconnected-IsOnward guid graceful self = elim (Option-cases (lookup guid.g self.connections)) [
    | inl e ↦ rw (disconnected, e) (IsOnward-refl self.connection_at)
    | inr (r, e) ↦
        rw (disconnected, e)
          (put_at-IsOnward r _ self.connection_at
            (close_mailbox-Follows (self.connection_at.at r) _))
  ]

  pub pong-IsOnward :
      (now : ℕ) (address : SystemAddress) (guid : RakNetGuid) (bytes : Bytes) (self : Peer R)
      → IsOnwardStep self (pong R now address guid bytes self)
  unfolding pong
  pong-IsOnward now address guid bytes self =
      elim (Option-cases (lookup (address_key R address) self.pending_pings)) [
        | inl e ↦ rw (pong, e) (IsOnward-refl self.connection_at)
        | inr (r, e) ↦ rw (pong, e) (IsOnward-refl self.connection_at)
      ]
