-- ===== src/Word.antt =====
-- Byte order and TCP flag words: src/core.cc (ptr2ip_t, ip_t2ptr, h2n), src/utils.cc (change_Endian)
-- and the flag functions of src/tcp.cc. A buffer is the list of its bytes, a uintN_t is a number
-- below 2 ^ N. The program overlays C structs on buffers, so the byte order is that of the host,
-- which is little-endian (x86).
pub mod Order
pub mod Flags
mod Tests
use Prim.Native.Nat.{bit_and, bit_or}
use i_tcp.Common.{
  ℕ, ◌+◌, ◌*◌, ◌/◌, ◌%◌, ◌^◌, Bool, not, Option, none, some, List, [], ◌∷◌, ◌==◌, ◌>>=◌,
}

-- (uint8_t) x, (uint16_t) x, (uint32_t) x
abbrev pub u8 : ℕ → ℕ
u8 x = x % 2 ^ 8

abbrev pub u16 : ℕ → ℕ
u16 x = x % 2 ^ 16

abbrev pub u32 : ℕ → ℕ
u32 x = x % 2 ^ 32

-- The bytes of a field in a struct.
abbrev pub le8 : ℕ → List ℕ
le8 x = u8 x ∷ []

abbrev pub le16 : ℕ → List ℕ
le16 x = u8 x ∷ u8 (x / 2 ^ 8) ∷ []

abbrev pub le32 : ℕ → List ℕ
le32 x = u8 x ∷ u8 (x / 2 ^ 8) ∷ u8 (x / 2 ^ 16) ∷ u8 (x / 2 ^ 24) ∷ []

-- A field read from the front of a buffer, with what follows it; `none` is a read past the end.
unfoldable pub read8 : List ℕ → Option (ℕ × List ℕ)
read8 (a ∷ rest) = some (a, rest)
read8 _ = none

unfoldable pub read16 : List ℕ → Option (ℕ × List ℕ)
read16 (a ∷ b ∷ rest) = some (a + b * 2 ^ 8, rest)
read16 _ = none

unfoldable pub read32 : List ℕ → Option (ℕ × List ℕ)
read32 (a ∷ b ∷ c ∷ d ∷ rest) = some (a + b * 2 ^ 8 + c * 2 ^ 16 + d * 2 ^ 24, rest)
read32 _ = none

-- `*((const ipv4_t*) ptr)`
unfoldable pub ptr2ip_t : List ℕ → Option ℕ
unfolding read32
ptr2ip_t ptr = do (ret, _) ← read32 ptr; some ret

-- `*((ipv4_t*) ptr) = ip` fills the four bytes at `ptr`.
unfoldable pub ip_t2ptr : ℕ → List ℕ
ip_t2ptr ip = le32 ip

unfoldable pub h2n : ℕ → ℕ
h2n host = u16 (bit_and host 0xff * 2 ^ 8 + bit_and (host / 2 ^ 8) 0xff)

unfoldable pub change_endian : ℕ → ℕ
change_endian x =
    let mask : ℕ = 0xff in u16 (bit_and x mask * 2 ^ 8 + bit_and x (mask * 2 ^ 8) / 2 ^ 8)

-- htonl and ntohl of <arpa/inet.h>: on a little-endian host both reverse the four bytes.
unfoldable pub htonl : ℕ → ℕ
htonl x = u8 x * 2 ^ 24 + u8 (x / 2 ^ 8) * 2 ^ 16 + u8 (x / 2 ^ 16) * 2 ^ 8 + u8 (x / 2 ^ 24)

unfoldable pub is_syn : ℕ → Bool
is_syn flag = not (bit_and flag (2 ^ 9) == 0)

unfoldable pub is_fin : ℕ → Bool
is_fin flag = not (bit_and flag (2 ^ 8) == 0)

unfoldable pub is_ack : ℕ → Bool
is_ack flag = not (bit_and flag (2 ^ 12) == 0)

unfoldable pub set_syn : ℕ → ℕ
set_syn flag = bit_or flag (2 ^ 9)

unfoldable pub set_fin : ℕ → ℕ
set_fin flag = bit_or flag (2 ^ 8)

unfoldable pub set_ack : ℕ → ℕ
set_ack flag = bit_or flag (2 ^ 12)
