-- ===== src/Packet.antt =====
-- The layout of frames and packets: ipHdr_t and eth_hdr_t (include/utils.h), tcp_hdr_t
-- (include/tcp.h), constructFrame (src/packetio.cc) and constructIPPacket (src/ip.cc). A struct is a
-- record of its fields, and its bytes are those of the x86 ABI: little-endian, with no padding in
-- these three. An `int` that may be negative is its 32-bit pattern.
pub mod Headers
pub mod Frames
mod Tests
use Prim.Native.Nat.{bit_and}
use i_tcp.Common.{
  ℕ, ◌+◌, ◌/◌, ◌^◌, ◌*◌, Option, none, some, List, [], ◌∷◌, ◌++◌, if◌then◌else◌, ◌>>=◌, leb,
  get_elem?, length, take, drop, replicate,
}
use i_tcp.Word.{u8, u16, u32, le8, le16, le32, read8, read16, read32, ptr2ip_t, change_endian}
use i_tcp.Device.{Device}

-- memcpy of `n` bytes from `buf + off`; `none` is a read past the end of the buffer.
unfoldable pub memcpy : List ℕ → ℕ → ℕ → Option (List ℕ)
memcpy buf off n = if leb (off + n) (length buf) then some (take n (drop off buf)) else none

pub record IpHdr : Type 0 where
  pub part1 : ℕ  -- uint32_t
  pub part2 : ℕ  -- uint32_t
  pub ttl : ℕ  -- uint8_t
  pub protocol : ℕ  -- uint8_t
  pub hdr_crc : ℕ  -- uint16_t
  pub src : ℕ  -- uint32_t
  pub dst : ℕ  -- uint32_t

pub record TcpHdr : Type 0 where
  pub src_port : ℕ  -- uint16_t
  pub dst_port : ℕ  -- uint16_t
  pub seq : ℕ  -- uint32_t
  pub ack : ℕ  -- uint32_t
  pub flag : ℕ  -- uint16_t
  pub size : ℕ  -- uint16_t
  pub other : ℕ  -- uint32_t

abbrev pub sizeof_eth_hdr : ℕ
sizeof_eth_hdr = 14

abbrev pub sizeof_ip_hdr : ℕ
sizeof_ip_hdr = 20

abbrev pub sizeof_tcp_hdr : ℕ
sizeof_tcp_hdr = 20

-- L2_IPV4 and L3_MYARP
abbrev pub l2_ipv4 : ℕ
l2_ipv4 = 0x0800

abbrev pub l3_myarp : ℕ
l3_myarp = 0x8f

-- The bytes of a header in memory, and a header laid over the front of a buffer.
unfoldable pub ip_hdr_bytes : IpHdr → List ℕ
ip_hdr_bytes h =
    le32 h.part1
    ++ (le32 h.part2
        ++ (le8 h.ttl ++ (le8 h.protocol ++ (le16 h.hdr_crc ++ (le32 h.src ++ le32 h.dst)))))

unfoldable pub read_ip_hdr : List ℕ → Option (IpHdr × List ℕ)
unfolding read8 read16 read32
read_ip_hdr buf = do
  (part1, rest) ← read32 buf
  (part2, rest) ← read32 rest
  (ttl, rest) ← read8 rest
  (protocol, rest) ← read8 rest
  (hdr_crc, rest) ← read16 rest
  (src, rest) ← read32 rest
  (dst, rest) ← read32 rest
  some (
    record {
      part1 = part1;
      part2 = part2;
      ttl = ttl;
      protocol = protocol;
      hdr_crc = hdr_crc;
      src = src;
      dst = dst;
    },
    rest,
  )

unfoldable pub tcp_hdr_bytes : TcpHdr → List ℕ
tcp_hdr_bytes h =
    le16 h.src_port
    ++ (le16 h.dst_port
        ++ (le32 h.seq ++ (le32 h.ack ++ (le16 h.flag ++ (le16 h.size ++ le32 h.other)))))

unfoldable pub read_tcp_hdr : List ℕ → Option (TcpHdr × List ℕ)
unfolding read8 read16 read32
read_tcp_hdr buf = do
  (src_port, rest) ← read16 buf
  (dst_port, rest) ← read16 rest
  (seq, rest) ← read32 rest
  (ack, rest) ← read32 rest
  (flag, rest) ← read16 rest
  (size, rest) ← read16 rest
  (other, rest) ← read32 rest
  some (
    record {
      src_port = src_port;
      dst_port = dst_port;
      seq = seq;
      ack = ack;
      flag = flag;
      size = size;
      other = other;
    },
    rest,
  )

-- part1 of the header that constructIPPacket makes: version and header length, type of service, and
-- the total length with its high byte first.
unfoldable pub ip_row1 : ℕ → List ℕ
ip_row1 total_length =
    0x45 ∷ 0 ∷ u8 (bit_and total_length 0xff00 / 2 ^ 8) ∷ u8 (bit_and total_length 0xff) ∷ []

unfoldable pub construct_ip_packet : ℕ → ℕ → ℕ → List ℕ → ℕ → ℕ → Option (List ℕ)
construct_ip_packet src dest proto buf len ttl = do
  let total_length = u32 (sizeof_ip_hdr + u32 len)
  part1 ← ptr2ip_t (ip_row1 total_length)
  payload ← memcpy buf 0 len
  some (
      ip_hdr_bytes (record {
        part1 = part1;
        part2 = 0;
        ttl = u8 ttl;
        protocol = u8 proto;
        hdr_crc = 0;
        src = src;
        dst = dest;
      })
      ++ payload)

-- The frame and, in its list, its length. `none` also where `id` is past the end of currDevice.
unfoldable pub construct_frame : List Device → List ℕ → ℕ → ℕ → List ℕ → ℕ → Option (List ℕ)
construct_frame devices buf len ethtype destmac id = do
  device ← get_elem? devices id
  dst ← memcpy destmac 0 6
  src ← memcpy device.mac 0 6
  payload ← memcpy buf 0 len
  some (dst ++ (src ++ (le16 (change_endian (u16 ethtype)) ++ (payload ++ replicate 4 0))))
