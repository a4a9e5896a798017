-- ===== src/Peer/Connecting/Starts.antt =====
-- What `_start_connect` and a `connect` whose time runs out leave behind.
use raknet_python.Prelude.{
  sym, subst, ap, if◌then◌else◌, ◌≡◌, refl, false, String, Option, none, some, List, arith, ==-refl,
  nat_eq, string_eq, Bool-cases, inl, inr,
}
use raknet_python.Prelude.Dict.{lookup, insert, lookup-erase, lookup-insert}
use raknet_python.Raw.Interface.{RakNet}
use raknet_python.Raw.Peer as RawPeer
use raknet_python.Exceptions.{Result-cases, text, raknet_error, Result, ok, raise}
use raknet_python.Peer.{Peer, pending_key}
use raknet_python.Peer.Connecting.{
  Started, AddressInfo, ConnectCall, resolve, is_started, password_or_empty, check_connect,
  register_connect, withdraw_connect, launch_connect, enter_connect, launch_entered, start_connect,
}

module _ (R : RakNet) where
  -- The table after a start that failed, or the entry after one that did not.
  abbrev Left : ConnectCall → Option (List AddressInfo) → Peer R → Result Started × Peer R → Type 0
  Left call infos self (raise e, self') =
      (k : String) → lookup k self'.pending_connects ≡ lookup k self.pending_connects
  Left call infos self (ok (pending, key, ip), self') =
      (resolve infos ≡ some ip)
      × (key ≡ pending_key R ip call.port)
      × (lookup key self'.pending_connects ≡ some pending)
      × ((self'.connect_at.at pending).event ≡ false)

  -- RakNet is called with the pending call in the table. A refusal takes it out again.
  launch_connect-Left :
      (call : ConnectCall) (infos : Option (List AddressInfo)) (self : Peer R) (ip : String)
      → resolve infos ≡ some ip
      → lookup (pending_key R ip call.port) self.pending_connects ≡ none
      → let key = pending_key R ip call.port in
        Left call infos self
          (launch_connect R call ip key self.connect_at.next (register_connect R key self))
  unfolding launch_connect register_connect withdraw_connect
  launch_connect-Left call infos self ip resolved free =
      let key = pending_key R ip call.port in
      let result =
        (RawPeer.connect R self.raw ip call.port (password_or_empty call.password) 0 call.attempts
          call.attempt_interval_ms 0).0 in
      elim (Bool-cases (is_started result)) [
        | inl started ↦ rw started (
          resolved,
          refl,
          rw (lookup-insert key key self.connect_at.next self.pending_connects, ==-refl key) refl,
          rw (==-refl self.connect_at.next) refl,
        )
        | inr refused ↦ rw refused (λ k. ground (
          arith,
          free,
          lookup-erase k key (insert key self.connect_at.next self.pending_connects),
          lookup-insert k key self.connect_at.next self.pending_connects,
          string_eq.same_iff key k,
        ))
      ]

  check_connect-resolves :
      (call : ConnectCall) (infos : Option (List AddressInfo)) (self : Peer R) (ip : String)
      → check_connect R call infos self ≡ ok ip
      → resolve infos ≡ some ip
  unfolding check_connect
  check_connect-resolves call infos self ip e = ground arith

  pub check_connect-opened :
      (call : ConnectCall) (infos : Option (List AddressInfo)) (self : Peer R) (ip : String)
      → check_connect R call infos self ≡ ok ip
      → self.closed ≡ false
  unfolding check_connect
  check_connect-opened call infos self ip e = ground arith

  pub enter_connect-open :
      (key : String) (self : Peer R)
      → self.closed ≡ false
      → enter_connect R key self ≡ (ok self.connect_at.next, register_connect R key self)
  unfolding enter_connect
  enter_connect-open key self opened =
      ap
        (λ b.
          if b
          then (raise (raknet_error (text "peer is closed")), self)
          else (ok self.connect_at.next, register_connect R key self))
        opened

  launch_entered-Left :
      (call : ConnectCall) (infos : Option (List AddressInfo)) (self : Peer R) (ip : String)
      → self.closed ≡ false
      → resolve infos ≡ some ip
      → lookup (pending_key R ip call.port) self.pending_connects ≡ none
      → let key = pending_key R ip call.port in
        Left call infos self (launch_entered R call ip key (enter_connect R key self))
  unfolding launch_entered
  launch_entered-Left call infos self ip opened resolved free =
      let key = pending_key R ip call.port in
      subst (λ entered. Left call infos self (launch_entered R call ip key entered))
        (sym (enter_connect-open key self opened))
        (launch_connect-Left call infos self ip resolved free)

  -- Where no connect to the resolved address is pending, a start that raises leaves the table of
  -- pending connects as it was, whatever it raises; a start that returns names the resolved address
  -- and its key, and its pending call, which stands in the table under that key with the event not
  -- set.
  start_connect-Left :
      (call : ConnectCall) (infos : Option (List AddressInfo)) (self : Peer R)
      → ((ip : String)
          → resolve infos ≡ some ip
          → lookup (pending_key R ip call.port) self.pending_connects ≡ none)
      → Left call infos self (start_connect R call infos self)
  unfolding start_connect
  start_connect-Left call infos self free = elim (Result-cases (check_connect R call infos self)) [
    | inl (e, raised) ↦ rw (start_connect, raised) (λ k. refl)
    | inr (ip, checked) ↦
        let resolved = check_connect-resolves call infos self ip checked in
        let opened = check_connect-opened call infos self ip checked in
        rw (start_connect, checked)
          (launch_entered-Left call infos self ip opened resolved (free ip resolved))
  ]
