-- ===== src/Packet/Tests.antt =====
-- A packet of concrete fields.
use i_tcp.Common.{ℕ, ◌+◌, ◌*◌, ◌/◌, ◌%◌, ◌^◌, ◌≡◌, some, List, [], ◌∷◌, length, arith}
use i_tcp.Word.{u8}
use i_tcp.Packet.{IpHdr, read_ip_hdr, construct_ip_packet}
use i_tcp.Packet.Frames.{read-construct_ip_packet}
use i_tcp.Sample.{ip_a, ip_b}

abbrev payload : List ℕ
payload = 1 ∷ 2 ∷ 3 ∷ []

read-construct_ip_packet_example :
    (packet : List ℕ) × (hdr : IpHdr) × (construct_ip_packet ip_a ip_b 6 payload (length payload) 10
      ≡ some packet)
    × (length packet ≡ 20 + length payload)
    × (read_ip_hdr packet ≡ some (hdr, payload))
    × ((hdr.src ≡ ip_a) × (hdr.dst ≡ ip_b))
    × ((hdr.protocol ≡ u8 6) × (hdr.ttl ≡ u8 10))
    × (hdr.part1 % 2 ^ 8 ≡ 0x45)
    × (hdr.part1 / 2 ^ 16 % 2 ^ 8 * 2 ^ 8 + hdr.part1 / 2 ^ 24 ≡ length packet)
read-construct_ip_packet_example =
    read-construct_ip_packet ip_a ip_b 6 payload 10 (omega arith) (omega arith) (omega arith)
