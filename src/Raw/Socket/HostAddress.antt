-- ===== src/Raw/Socket/HostAddress.antt =====
-- What a host address reads as after it has been set.
use raknet_python.Prelude.{
  ℕ, zero, suc, ◌-◌, ◌<◌, ◌≡◌, refl, ap, some, [], ◌∷◌, ◌++◌, arith, length, take, replicate,
  length-append, length-replicate,
}
use raknet_python.Raw.Interface.{Bytes, SocketDescriptor}
use raknet_python.Raw.Socket.{c_str, strncpy, read_c_string, get_host_address, set_host_address}

read_c_string-zeros : (n : ℕ) → read_c_string (replicate n 0 ++ 0 ∷ []) ≡ some []
unfolding read_c_string
read_c_string-zeros zero = refl
read_c_string-zeros (suc n) = refl

read_c_string-strncpy :
    (s : Bytes) (n : ℕ) → read_c_string (strncpy s n ++ 0 ∷ []) ≡ some (take n (c_str s))
unfolding read_c_string strncpy c_str
read_c_string-strncpy s zero = refl
read_c_string-strncpy [] (suc n) = refl
read_c_string-strncpy (c ∷ s) (suc n) = ground (arith, read_c_string-strncpy s n)

length-strncpy : (s : Bytes) (n : ℕ) → length (strncpy s n) ≡ n
unfolding strncpy
length-strncpy s zero = refl
length-strncpy [] (suc n) = ap suc (length-replicate {A = ℕ} n 0)
length-strncpy (c ∷ s) (suc n) = ground (arith, length-strncpy s n, length-replicate {A = ℕ} n 0)

-- In a buffer of `size` bytes, with `size` at least 1, setting a host address keeps the buffer's
-- size, and reading it back never runs past the buffer: it gives the bytes of the value before its
-- first zero byte, cut at `size - 1`.
pub get-set_host_address :
    (size : ℕ) (d : SocketDescriptor) (value : Bytes)
    → 0 < size
    → (length (set_host_address size d value).host_address ≡ size)
      × (get_host_address (set_host_address size d value) ≡ some (take (size - 1) (c_str value)))
unfolding get_host_address set_host_address
get-set_host_address size d value h = (
  omega (arith, length-append (strncpy value (size - 1)) (0 ∷ []), length-strncpy value (size - 1)),
  read_c_string-strncpy value (size - 1),
)
