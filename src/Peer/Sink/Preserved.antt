-- ===== src/Peer/Sink/Preserved.antt =====
-- Every sink callback leaves a peer that is in order in order.
use raknet_python.Prelude.{ℕ, refl, Bool, string_eq, nat_eq, Option-cases, Bool-cases, inl, inr}
use raknet_python.Prelude.Dict.{lookup}
use raknet_python.Prelude.Objects.{Ref}
use raknet_python.Raw.Interface.{Bytes, RakNetGuid, RakNet}
use raknet_python.Raw.MessageId.{DefaultMessageIdTypes}
use raknet_python.Exceptions.{ConnectionClosed}
use raknet_python.Mailbox
use raknet_python.Peer.{Peer, address_key, new_connection}
use raknet_python.Peer.Tables.{
  erase-Waits, settle-Waits, track-IsTracked, erase-IsTracked, forget-IsTracked, write-IsTracked,
}
use raknet_python.Peer.Sink.{
  track, incoming_connection, pop_pending_connect, connect_succeeded, connect_failed,
  drop_connection, overflow, put_message, message, disconnected, pong,
}
use raknet_python.Peer.Sink.Invariant.{
  write-IsSound, make-IsSound, IsValid, new_connection-IsSound, close_mailbox-IsSound, put-IsSound,
}

module _ (R : RakNet) where
  open R use {SystemAddress}

  track-IsValid :
      (address : SystemAddress) (guid : RakNetGuid) (self : Peer R)
      → IsValid self
      → IsValid (track R address guid self)
  unfolding track
  track-IsValid address guid self v = record {
    tracked = track-IsTracked v.tracked (new_connection R self address guid) refl;
    sound =
        make-IsSound self.max_queue _ self.connection_at
          (new_connection-IsSound R self address guid) v.sound;
    connects = v.connects;
    pings = v.pings;
  }

  pub incoming_connection-IsValid :
      (address : SystemAddress) (guid : RakNetGuid) (self : Peer R)
      → IsValid self
      → IsValid (incoming_connection R address guid self)
  unfolding incoming_connection
  incoming_connection-IsValid address guid self v =
      let t = track-IsValid address guid self v in
      record { tracked = t.tracked; sound = t.sound; connects = t.connects; pings = t.pings }

  pub pop_pending_connect-IsValid :
      (address : SystemAddress) (self : Peer R)
      → IsValid self
      → IsValid (pop_pending_connect R address self)
  unfolding pop_pending_connect
  pop_pending_connect-IsValid address self v = record {
    tracked = v.tracked;
    sound = v.sound;
    connects = erase-Waits v.connects (address_key R address);
    pings = v.pings;
  }

  pub connect_succeeded-IsValid :
      (address : SystemAddress) (guid : RakNetGuid) (self : Peer R)
      → IsValid self
      → IsValid (connect_succeeded R address guid self)
  unfolding connect_succeeded track
  connect_succeeded-IsValid address guid self v =
      elim (Option-cases (lookup (address_key R address) self.pending_connects)) [
        | inl e ↦ rw (connect_succeeded, e) (pop_pending_connect-IsValid address self v)
        | inr (r, e) ↦
            let t = track-IsValid address guid self v in
            rw (connect_succeeded, e)
              (record {
                tracked = t.tracked;
                sound = t.sound;
                connects = settle-Waits v.connects (address_key R address) r _ e;
                pings = v.pings;
              })
      ]

  pub connect_failed-IsValid :
      (address : SystemAddress) (reason : DefaultMessageIdTypes) (self : Peer R)
      → IsValid self
      → IsValid (connect_failed R address reason self)
  unfolding connect_failed
  connect_failed-IsValid address reason self v =
      elim (Option-cases (lookup (address_key R address) self.pending_connects)) [
        | inl e ↦ rw (connect_failed, e) (pop_pending_connect-IsValid address self v)
        | inr (r, e) ↦
            rw (connect_failed, e)
              (record {
                tracked = v.tracked;
                sound = v.sound;
                connects = settle-Waits v.connects (address_key R address) r _ e;
                pings = v.pings;
              })
      ]

  pub drop_connection-IsValid :
      (r : Ref) (exc : ConnectionClosed) (self : Peer R)
      → IsValid self
      → IsValid (drop_connection R r exc self)
  unfolding drop_connection
  drop_connection-IsValid r exc self v = record {
    tracked = erase-IsTracked v.tracked r _ (self.connection_at.at r).raw_guid.g refl;
    sound =
        write-IsSound self.max_queue r _ self.connection_at
          (λ made. close_mailbox-IsSound R _ _ exc (v.sound r made)) v.sound;
    connects = v.connects;
    pings = v.pings;
  }

  overflow-IsValid : (r : Ref) (self : Peer R) → IsValid self → IsValid (overflow R r self)
  unfolding overflow
  overflow-IsValid r self v =
      let t = drop_connection-IsValid r _ self v in
      record { tracked = t.tracked; sound = t.sound; connects = t.connects; pings = t.pings }

  put_message-IsValid :
      (r : Ref) (bytes : Bytes) (self : Peer R)
      → IsValid self
      → IsValid (put_message R r bytes self)
  unfolding put_message
  put_message-IsValid r bytes self v =
      elim (Bool-cases (Mailbox.put (self.connection_at.at r).mailbox bytes).0) [
        | inl done ↦ rw done (record {
          tracked = write-IsTracked v.tracked r _ refl refl;
          sound =
              write-IsSound self.max_queue r _ self.connection_at
                (λ made. put-IsSound R _ _ bytes (v.sound r made)) v.sound;
          connects = v.connects;
          pings = v.pings;
        })
        | inr full ↦ rw full (overflow-IsValid r self v)
      ]

  pub message-IsValid :
      (guid : RakNetGuid) (bytes : Bytes) (self : Peer R)
      → IsValid self
      → IsValid (message R guid bytes self)
  unfolding message
  message-IsValid guid bytes self v = elim (Option-cases (lookup guid.g self.connections)) [
    | inl e ↦ rw (message, e) v
    | inr (r, e) ↦ rw (message, e) (put_message-IsValid r bytes self v)
  ]

  pub disconnected-IsValid :
      (guid : RakNetGuid) (graceful : Bool) (self : Peer R)
      → IsValid self
      → IsValid (disconnected R guid graceful self)
  unfolding disconnected
  disconnected-IsValid guid graceful self v = elim (Option-cases (lookup guid.g self.connections)) [
    | inl e ↦
        rw (disconnected, e)
          (record {
            tracked = forget-IsTracked v.tracked guid.g;
            sound = v.sound;
            connects = v.connects;
            pings = v.pings;
          })
    | inr (r, e) ↦
        rw (disconnected, e)
          (record {
            tracked = erase-IsTracked v.tracked r _ guid.g (v.tracked.guid guid.g r e);
            sound =
                write-IsSound self.max_queue r _ self.connection_at
                  (λ made. close_mailbox-IsSound R _ _ _ (v.sound r made)) v.sound;
            connects = v.connects;
            pings = v.pings;
          })
  ]

  pub pong-IsValid :
      (now : ℕ) (address : SystemAddress) (guid : RakNetGuid) (bytes : Bytes) (self : Peer R)
      → IsValid self
      → IsValid (pong R now address guid bytes self)
  unfolding pong
  pong-IsValid now address guid bytes self v =
      elim (Option-cases (lookup (address_key R address) self.pending_pings)) [
        | inl e ↦
            rw (pong, e)
              (record {
                tracked = v.tracked;
                sound = v.sound;
                connects = v.connects;
                pings = erase-Waits v.pings (address_key R address);
              })
        | inr (r, e) ↦
            rw (pong, e)
              (record {
                tracked = v.tracked;
                sound = v.sound;
                connects = v.connects;
                pings = settle-Waits v.pings (address_key R address) r _ e;
              })
      ]
