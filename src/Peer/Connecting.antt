-- ===== src/Peer/Connecting.antt =====
-- `connect` of src/raknet/_peer.py, by its blocks under the lock. The name resolution of the
-- operating system is an argument, and so is what the other threads do while `connect` waits.
pub mod Attempts
pub mod Clash
pub mod Starts
pub mod Timeouts
use raknet_python.Prelude.{
  ℕ, Bool, true, false, String, Option, none, some, List, [], ◌∷◌, ◌++◌, ltb, nat_eq, string_eq,
  if◌then◌else◌,
}
use raknet_python.Prelude.Dict.{lookup, insert, erase}
use raknet_python.Prelude.Objects.{Ref, alloc}
use raknet_python.Raw.Enums.{
  ConnectionAttemptResult, connection_attempt_started, invalid_parameter,
  cannot_resolve_domain_name, already_connected_to_endpoint, connection_attempt_already_in_progress,
  security_initialization_failed,
}
use raknet_python.Raw.Interface.{Bytes, RakNet}
use raknet_python.Raw.Peer as RawPeer
use raknet_python.Exceptions.{
  text, attempt_result, message_id, raknet_error, connect_error, value_error, Result, ok, raise,
}
use raknet_python.Peer.{PendingConnect, Peer, pending_key}
use raknet_python.Peer.Closing.{connection_close}

-- An entry of `socket.getaddrinfo`: whether its family is `AF_INET`, and its address.
pub record AddressInfo : Type 0 where
  pub is_inet : Bool
  pub ip : String

unfoldable pub family : Bool → List AddressInfo → List AddressInfo
family inet [] = []
family true (i ∷ infos) = if i.is_inet then i ∷ family true infos else family true infos
family false (i ∷ infos) = if i.is_inet then family false infos else i ∷ family false infos

-- `_resolve` on the answer of `getaddrinfo`: a stable sort that puts the `AF_INET` entries first,
-- and the first entry. `getaddrinfo` raises `OSError`, here `none`, sooner than give no entry.
unfoldable pub resolve : Option (List AddressInfo) → Option String
unfolding family
resolve none = none
resolve (some infos) = elim (family true infos ++ family false infos) [
  | [] ↦ none
  | i ∷ rest ↦ some i.ip
]

unfoldable pub is_started : ConnectionAttemptResult → Bool
is_started connection_attempt_started = true
is_started invalid_parameter = false
is_started cannot_resolve_domain_name = false
is_started already_connected_to_endpoint = false
is_started connection_attempt_already_in_progress = false
is_started security_initialization_failed = false

-- What `_start_connect` returns: the pending call, its key, and the address that is tried.
abbrev pub Started : Type 0
Started = Ref × String × String

-- The arguments of `connect`. The interval is in milliseconds, as it is handed on.
pub record ConnectCall : Type 0 where
  pub host : String
  pub port : ℕ
  pub password : Option Bytes
  pub attempts : ℕ
  pub attempt_interval_ms : ℕ

unfoldable pub password_or_empty : Option Bytes → Bytes
password_or_empty none = []
password_or_empty (some password) = password

module _ (R : RakNet) where
  open R use {SystemAddress}

  -- `_start_connect` up to the lock: the address that is tried, or the exception.
  unfoldable pub check_connect : ConnectCall → Option (List AddressInfo) → Peer R → Result String
  unfolding resolve
  check_connect call infos self =
      if self.closed
      then raise (raknet_error (text "peer is closed"))
      else if ltb call.attempts 3
      then raise (
          value_error (
            text
              "attempts must be at least 3, RakNet probes one MTU size per third of the attempts"))
      else elim (resolve infos) [
        | none ↦
            raise (connect_error call.host call.port (attempt_result cannot_resolve_domain_name))
        | some ip ↦ ok ip
      ]

  -- A new `_PendingConnect`, entered under its key; its reference is the old `next`.
  unfoldable pub register_connect : String → Peer R → Peer R
  unfolding insert
  register_connect key self = record self {
    connect_at = alloc (record { event = false; connection = none; reason = none }) self.connect_at;
    pending_connects = insert key self.connect_at.next self.pending_connects;
  }

  -- `self._pending_connects.pop(key, None)`
  unfoldable pub withdraw_connect : String → Peer R → Peer R
  unfolding erase
  withdraw_connect key self = record self { pending_connects = erase key self.pending_connects }

  -- The call of RakNet that starts the attempt, and what follows a refusal.
  unfoldable pub launch_connect :
      ConnectCall → String → String → Ref → Peer R → Result Started × Peer R
  unfolding withdraw_connect is_started password_or_empty
  launch_connect call ip key pending self =
      let (result, raw) =
        RawPeer.connect R self.raw ip call.port (password_or_empty call.password) 0 call.attempts
          call.attempt_interval_ms 0 in
      if is_started result then (ok (pending, key, ip), record self { raw = raw }) else (
        raise (connect_error call.host call.port (attempt_result result)),
        withdraw_connect key (record self { raw = raw }),
      )

  -- The block of `_start_connect` under the lock, which looks at `_closed` again.
  unfoldable pub enter_connect : String → Peer R → Result Ref × Peer R
  unfolding register_connect
  enter_connect key self =
      if self.closed
      then (raise (raknet_error (text "peer is closed")), self)
      else (ok self.connect_at.next, register_connect key self)

  -- `_start_connect` behind that block.
  unfoldable pub launch_entered :
      ConnectCall → String → String → Result Ref × Peer R → Result Started × Peer R
  unfolding launch_connect
  launch_entered call ip key (raise e, self) = (raise e, self)
  launch_entered call ip key (ok pending, self) = launch_connect call ip key pending self

  -- `_start_connect` where no other thread comes between its blocks.
  unfoldable pub start_connect :
      ConnectCall → Option (List AddressInfo) → Peer R → Result Started × Peer R
  unfolding check_connect enter_connect launch_entered pending_key
  start_connect call infos self = elim (check_connect call infos self) [
    | raise e ↦ (raise e, self)
    | ok ip ↦
        let key = pending_key R ip call.port in launch_entered call ip key (enter_connect key self)
  ]

  -- `_abandon_connect`; the attempt is cancelled where it was still pending.
  unfoldable pub abandon_connect : String → String → ℕ → Peer R → Bool × Peer R
  unfolding lookup withdraw_connect
  abandon_connect key ip port self =
      let self' = withdraw_connect key self in
      elim (lookup key self.pending_connects) [
        | none ↦ (false, self')
        | some pending ↦ (
          true,
          record self' {
            raw = RawPeer.cancel_connection_attempt R self'.raw (R.system_address ip port);
          },
        )
      ]

  -- `_finish_connect`; `none` is the failure of its `assert`.
  unfoldable pub finish_connect : ConnectCall → PendingConnect → Option (Result Ref)
  finish_connect call pending = elim pending.reason [
    | some reason ↦ some (raise (connect_error call.host call.port (message_id reason)))
    | none ↦ elim pending.connection [ none ↦ none | some r ↦ some (ok r) ]
  ]

  -- What `connect` does with the answer of `_abandon_connect`: the attempt is cancelled, or it is
  -- already settled, and a connection that came too late is closed. `later` is what the other
  -- threads do until the event is set, and `pump_rest` belongs to `Connection.close`.
  unfoldable pub reap_connect : (later pump_rest : Peer R → Peer R) → Ref → Bool × Peer R → Peer R
  unfolding connection_close
  reap_connect later pump_rest pending (true, self) = self
  reap_connect later pump_rest pending (false, self) =
      let waited = later self in
      elim (waited.connect_at.at pending).connection [
        | none ↦ waited
        | some r ↦ connection_close R pump_rest r true waited
      ]

  -- What `connect` does when its wait has run out, before it raises `TimeoutError`.
  unfoldable pub give_up_connect :
      (later pump_rest : Peer R → Peer R) → String → String → ℕ → Ref → Peer R → Peer R
  unfolding abandon_connect reap_connect
  give_up_connect later pump_rest key ip port pending self =
      reap_connect later pump_rest pending (abandon_connect key ip port self)
