-- ===== src/Raw/Socket.antt =====
-- The property `host_address` of `SocketDescriptor` in src/raknet_python.cpp: a C string in a
-- buffer of fixed size. A byte is a number, and 0 ends a string.
pub mod HostAddress
use mathlib.Core.Option
use raknet_python.Prelude.{
  ℕ, zero, suc, ◌-◌, Option, none, some, [], ◌∷◌, ◌++◌, replicate, ◌==◌, nat_eq, if◌then◌else◌,
}
use raknet_python.Raw.Interface.{Bytes, SocketDescriptor}

-- The bytes of `value` before its first 0: what `value.c_str()` stands for.
unfoldable pub c_str : Bytes → Bytes
c_str [] = []
c_str (c ∷ s) = let rest = c_str s in if c == 0 then [] else c ∷ rest

-- The `n` bytes that `strncpy(…, s, n)` writes: the string, cut at `n` and padded with 0.
unfoldable pub strncpy : Bytes → ℕ → Bytes
strncpy s zero = []
strncpy [] (suc n) = 0 ∷ replicate n 0
strncpy (c ∷ s) (suc n) = let rest = strncpy s n in if c == 0 then 0 ∷ replicate n 0 else c ∷ rest

-- `std::string(buffer)`; `none` is a read past the end of the buffer.
unfoldable pub read_c_string : Bytes → Option Bytes
read_c_string [] = none
read_c_string (c ∷ s) =
    let rest = Option.map (λ t. c ∷ t) (read_c_string s) in if c == 0 then some [] else rest

unfoldable pub get_host_address : SocketDescriptor → Option Bytes
unfolding read_c_string
get_host_address self = read_c_string self.host_address

-- `size` is `sizeof(self.hostAddress)`. All of the buffer is written.
unfoldable pub set_host_address : ℕ → SocketDescriptor → Bytes → SocketDescriptor
unfolding strncpy
set_host_address size self value = record self { host_address = strncpy value (size - 1) ++ 0 ∷ [] }
