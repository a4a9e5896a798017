-- ===== src/Raw/Peer/Buffers/Password.antt =====
-- The incoming password goes in and comes out.
use raknet_python.Prelude.{
  ℕ, ◌<◌, ◌≤◌, ◌≡◌, ◌∙◌, some, ap, take_of_length-le, take-min_length, length-take-le, arith,
  length, take, min,
}
use raknet_python.Prelude.Int.{pos, to_int, to_int-pos}
use raknet_python.Raw.Interface.{RakNet, Bytes}
use raknet_python.Raw.Peer.{set_incoming_password}
use raknet_python.Raw.Peer.Buffers.{copy_bytes, get_incoming_password}

module _ (R : RakNet) where
  open R use {RakPeerInterface}

  -- What RakNet documents of the incoming password: it keeps 255 bytes at most, and copies out as
  -- much as the caller's buffer holds, with the number of bytes.
  pub record KeepsPassword (password : RakPeerInterface → Bytes) : Type 0 where
    pub sets :
        (b : Bytes) (n : ℕ) (self : RakPeerInterface)
        → password (R.set_incoming_password b (pos n) self) ≡ take (min n 255) b
    pub gets :
        (n : ℕ) (self : RakPeerInterface)
        → (R.get_incoming_password (pos n) self).1 ≡ pos (min n (length (password self)))
    pub copies :
        (n : ℕ) (self : RakPeerInterface)
        → copy_bytes (min n (length (password self))) (R.get_incoming_password (pos n) self).0
          ≡ some (take n (password self))

  get_incoming_password_lem :
      (password : RakPeerInterface → Bytes)
      → KeepsPassword password
      → (self : RakPeerInterface) (b : Bytes) → password self ≡ b
      → length b ≤ 255
      → get_incoming_password R self ≡ some b
  unfolding get_incoming_password
  get_incoming_password_lem password law self b e h =
      rw (law.gets 256 self)
        (law.copies 256 self ∙ ap some (ap (take 256) e ∙ take_of_length-le 256 b (omega arith)))

  -- Where RakNet keeps a password as documented, a password of less than 2^31 bytes that was set
  -- reads back as its first 255 bytes, and the read stays in the buffer of 256 bytes.
  pub get-set_incoming_password :
      (password : RakPeerInterface → Bytes)
      → KeepsPassword password
      → (self : RakPeerInterface) (b : Bytes) → length b < 2147483648
      → get_incoming_password R (set_incoming_password R self b) ≡ some (take 255 b)
  unfolding get_incoming_password set_incoming_password
  get-set_incoming_password password law self b h =
      let e : to_int (length b) ≡ pos (length b) = to_int-pos (length b) h in
      get_incoming_password_lem password law (set_incoming_password R self b) (take 255 b)
        (ap (λ z. password (R.set_incoming_password b z self)) e
          ∙ law.sets b (length b) self
          ∙ take-min_length 255 b)
        (length-take-le 255 b)
