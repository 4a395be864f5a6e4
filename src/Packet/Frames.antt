-- ===== src/Packet/Frames.antt =====
-- What constructIPPacket and constructFrame put into their buffers, read back.
use Prim.Native.Nat.{bit_and}
use mathlib.Core.List.{append_assoc}
use i_tcp.Common.{
  Bool, ℕ, ◌+◌, ◌*◌, ◌/◌, ◌%◌, ◌^◌, ◌<◌, ◌≡◌, refl, ap, some, List, [], ◌∷◌, ◌++◌, arith, ◌&&◌,
  ◌==◌, length, take, get_elem?, replicate, length-append, drop-append, take-append, sym,
  counterexample, none, passes-below,
}
use i_tcp.Word.{u8, u16, u32, le16, change_endian, ptr2ip_t}
use i_tcp.Device.{Device}
use i_tcp.Packet.{
  IpHdr, memcpy, ip_hdr_bytes, read_ip_hdr, ip_row1, construct_ip_packet, construct_frame,
}
use i_tcp.Packet.Headers.{read-ip_hdr_bytes}

pub take-length {ℓ} : {A : Type ℓ} (xs : List A) → take (length xs) xs ≡ xs
take-length [] = refl
take-length (x ∷ xs) = ap (λ r. x ∷ r) (take-length xs)

-- A copy of a whole buffer.
pub memcpy-all : (buf : List ℕ) (n : ℕ) → n ≡ length buf → memcpy buf 0 n ≡ some buf
unfolding memcpy
memcpy-all buf n h = rw h (ground (arith, take-length buf))

-- The two bytes that constructIPPacket takes from a length.
abbrev splits : ℕ → Bool
splits n = u8 (bit_and n 0xff00 / 2 ^ 8) == n / 256 && u8 (bit_and n 0xff) == n % 256

row1_table : counterexample splits 65536 ≡ none
unfolding counterexample
row1_table = refl

-- The header of constructIPPacket.
abbrev pub packet_hdr : ℕ → ℕ → ℕ → ℕ → ℕ → IpHdr
packet_hdr src dest proto total ttl = record {
  part1 = 0x45 + total / 256 * 2 ^ 16 + total % 256 * 2 ^ 24;
  part2 = 0;
  ttl = u8 ttl;
  protocol = u8 proto;
  hdr_crc = 0;
  src = src;
  dst = dest;
}

row1_value :
    (n : ℕ) → n < 65536 → ptr2ip_t (ip_row1 n) ≡ some (0x45 + n / 256 * 2 ^ 16 + n % 256 * 2 ^ 24)
unfolding ptr2ip_t ip_row1
row1_value n h = ground (arith, passes-below splits 65536 row1_table h)

pub construct_ip_packet_eq :
    (src dest proto : ℕ) (buf : List ℕ) (len ttl : ℕ)
    → len ≡ length buf
    → 20 + len < 65536
    → construct_ip_packet src dest proto buf len ttl
      ≡ some (ip_hdr_bytes (packet_hdr src dest proto (20 + len) ttl) ++ buf)
unfolding construct_ip_packet
construct_ip_packet_eq src dest proto buf len ttl e h =
    let small : u32 (20 + u32 len) ≡ 20 + len = omega arith in
    rw (small, row1_value (20 + len) h, memcpy-all buf len e)

-- A packet that constructIPPacket makes of a payload is 20 bytes longer. Its header is read back with
-- the source, destination, protocol and TTL that were given (the last two as bytes), version 4,
-- header length 5 and the packet's length in network byte order, and what follows is the payload.
pub read-construct_ip_packet :
    (src dest proto : ℕ) (buf : List ℕ) (ttl : ℕ)
    → src < 2 ^ 32
    → dest < 2 ^ 32
    → 20 + length buf < 65536
    → (packet : List ℕ) × (hdr : IpHdr) × (construct_ip_packet src dest proto buf (length buf) ttl
        ≡ some packet)
      × (length packet ≡ 20 + length buf)
      × (read_ip_hdr packet ≡ some (hdr, buf))
      × ((hdr.src ≡ src) × (hdr.dst ≡ dest))
      × ((hdr.protocol ≡ u8 proto) × (hdr.ttl ≡ u8 ttl))
      × (hdr.part1 % 2 ^ 8 ≡ 0x45)
      × (hdr.part1 / 2 ^ 16 % 2 ^ 8 * 2 ^ 8 + hdr.part1 / 2 ^ 24 ≡ length packet)
read-construct_ip_packet src dest proto buf ttl hs hd hb =
    let total : ℕ = 20 + length buf in
    let hdr : IpHdr = packet_hdr src dest proto total ttl in
    let (back, size) = read-ip_hdr_bytes hdr buf (omega arith) in
    let n : length (ip_hdr_bytes hdr ++ buf) ≡ 20 + length buf =
      omega (arith, length-append {0} (ip_hdr_bytes hdr) buf, size) in
    (
      ip_hdr_bytes hdr ++ buf,
      hdr,
      construct_ip_packet_eq src dest proto buf (length buf) ttl refl hb,
      n,
      back,
      (refl, refl),
      (refl, refl),
      omega arith,
      rw n (omega arith),
    )

pub memcpy-append :
    (xs ys zs : List ℕ) (off n : ℕ)
    → off ≡ length xs
    → n ≡ length ys
    → memcpy (xs ++ (ys ++ zs)) off n ≡ some ys
unfolding memcpy
memcpy-append xs ys zs off n p q =
    rw (p, q)
      (ground (
        arith,
        length-append {0} xs (ys ++ zs),
        length-append {0} ys zs,
        drop-append (length xs) xs (ys ++ zs) refl,
        take-append (length ys) ys zs refl,
      ))

-- The Ethernet header of constructFrame.
abbrev pub eth_bytes : List ℕ → List ℕ → ℕ → List ℕ
eth_bytes dst src ethtype = dst ++ (src ++ le16 (change_endian (u16 ethtype)))

pub construct_frame_eq :
    (ds : List Device) (buf : List ℕ) (ethtype : ℕ) (destmac : List ℕ) (id : ℕ) (tx : Device)
    → get_elem? ds id ≡ some tx
    → length tx.mac ≡ 6
    → length destmac ≡ 6
    → construct_frame ds buf (length buf) ethtype destmac id
      ≡ some (eth_bytes destmac tx.mac ethtype ++ (buf ++ replicate 4 0))
unfolding construct_frame
construct_frame_eq ds buf ethtype destmac id tx at hm hd =
    rw
      (
        at,
        memcpy-all destmac 6 (sym hd),
        memcpy-all tx.mac 6 (sym hm),
        memcpy-all buf (length buf) refl,
      )
      (simp append_assoc)
