-- ===== src/Packet/Headers.antt =====
-- A header written to memory is read back as it was, with what follows it.

use i_tcp.Common.{ℕ, ◌^◌, ◌<◌, ◌≡◌, refl, some, List, ◌++◌, arith, length}
use i_tcp.Packet.{IpHdr, TcpHdr, ip_hdr_bytes, read_ip_hdr, tcp_hdr_bytes, read_tcp_hdr}

-- Each field fits its type.
pub record Fits (h : IpHdr) : Type 0 where
  pub part1 : h.part1 < 2 ^ 32
  pub part2 : h.part2 < 2 ^ 32
  pub ttl : h.ttl < 2 ^ 8
  pub protocol : h.protocol < 2 ^ 8
  pub hdr_crc : h.hdr_crc < 2 ^ 16
  pub src : h.src < 2 ^ 32
  pub dst : h.dst < 2 ^ 32

pub record TcpFits (h : TcpHdr) : Type 0 where
  pub src_port : h.src_port < 2 ^ 16
  pub dst_port : h.dst_port < 2 ^ 16
  pub seq : h.seq < 2 ^ 32
  pub ack : h.ack < 2 ^ 32
  pub flag : h.flag < 2 ^ 16
  pub size : h.size < 2 ^ 16
  pub other : h.other < 2 ^ 32

-- An IP header whose fields fit their types takes 20 bytes in memory and is read back from them,
-- whatever follows.
pub read-ip_hdr_bytes :
    (h : IpHdr) (rest : List ℕ)
    → Fits h
    → (read_ip_hdr (ip_hdr_bytes h ++ rest) ≡ some (h, rest)) × (length (ip_hdr_bytes h) ≡ 20)
unfolding read_ip_hdr ip_hdr_bytes
read-ip_hdr_bytes h rest f = (ground arith, refl)

-- A TCP header whose fields fit their types takes 20 bytes in memory and is read back from them,
-- whatever follows.
pub read-tcp_hdr_bytes :
    (h : TcpHdr) (rest : List ℕ)
    → TcpFits h
    → (read_tcp_hdr (tcp_hdr_bytes h ++ rest) ≡ some (h, rest)) × (length (tcp_hdr_bytes h) ≡ 20)
unfolding read_tcp_hdr tcp_hdr_bytes
read-tcp_hdr_bytes h rest f = (ground arith, refl)

pub length-tcp_hdr_bytes : (h : TcpHdr) → length (tcp_hdr_bytes h) ≡ 20
unfolding tcp_hdr_bytes
length-tcp_hdr_bytes h = refl
