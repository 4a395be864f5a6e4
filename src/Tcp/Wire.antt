-- ===== src/Tcp/Wire.antt =====
-- sendTCPPacket of src/tcp.cc, and the first lines of readIPPacket, which take a packet apart. The
-- code clears only the first eight bytes of a new tcp_hdr_t and never sets `size` and `other`: what
-- memory holds there is an argument.
use i_tcp.Common.{
  ℕ, ◌+◌, ◌^◌, ◌<◌, ◌≤◌, ◌≡◌, ◌≢◌, refl, ◌∙◌, ap, true, false, Option, some, List, [], ◌∷◌, ◌++◌,
  ◌==◌, ◌>>=◌, ◌>>◌, guard, leb, length, arith, get_elem?, length-append,
}
use mathlib.Core.Path.{subst}
use i_tcp.Word.{htonl}
use i_tcp.Word.Order.{htonl-htonl, htonl-lt}
use i_tcp.Device.{Device}
use i_tcp.Packet.{
  TcpHdr, IpHdr, tcp_hdr_bytes, read_ip_hdr, read_tcp_hdr, sizeof_tcp_hdr, construct_ip_packet,
  l2_ipv4,
}
use i_tcp.Packet.Headers.{TcpFits, length-tcp_hdr_bytes, read-tcp_hdr_bytes}
use i_tcp.Packet.Frames.{read-construct_ip_packet}
use i_tcp.Dict.{find, pair_ordered, Ascends}
use i_tcp.Route.{RtValue, all_ones, look_for_route}
use i_tcp.Route.Lookup.{hop_of, look_for_route_lem}
use i_tcp.Ip.Host.{Host, full_mask, send_all, send_hops, Sent, send_frame, send_ip_packet}
use i_tcp.Ip.Arp.{recv_frame, memcmp_eq}
use i_tcp.Ip.Recv.{recv_frame-send_frame}
use i_tcp.Tcp.Types.{Segment, Reply}

-- The header of sendTCPPacket; ntohl is htonl.
abbrev pub hdr_of : ℕ → ℕ → Reply → TcpHdr
hdr_of size other r = record {
  src_port = r.info.src_port;
  dst_port = r.info.dst_port;
  seq = htonl r.seq;
  ack = htonl r.ack;
  flag = r.flag;
  size = size;
  other = other;
}

-- The payload of the IP packet.
unfoldable pub tcp_bytes : ℕ → ℕ → Reply → List ℕ
tcp_bytes size other r = tcp_hdr_bytes (hdr_of size other r) ++ r.buf

unfoldable pub send_tcp_packet : Host → ℕ → ℕ → Reply → Option (List Sent)
send_tcp_packet h size other r = do
  (_, sent) ←
      send_ip_packet h r.info.src_ip r.info.dst_ip 6 (tcp_bytes size other r)
        (length r.buf + sizeof_tcp_hdr) 10
  some sent

-- The packet is copied to a buffer of 2000 bytes first.
unfoldable pub parse_packet : List ℕ → Option Segment
parse_packet buf = do
  guard (leb (length buf) 2000)
  (ip_hdr, ip_payload) ← read_ip_hdr buf
  (tcp_hdr, tcp_payload) ← read_tcp_hdr ip_payload
  some (record {
    info = record {
      src_ip = ip_hdr.src;
      dst_ip = ip_hdr.dst;
      src_port = tcp_hdr.src_port;
      dst_port = tcp_hdr.dst_port;
    };
    seq = htonl tcp_hdr.seq;
    ack = htonl tcp_hdr.ack;
    flag = tcp_hdr.flag;
    payload = tcp_payload;
  })

-- What the other side is to see of a call of sendTCPPacket.
abbrev pub segment_of : Reply → Segment
segment_of r = record { info = r.info; seq = r.seq; ack = r.ack; flag = r.flag; payload = r.buf }

-- The arguments fit their types, and the packet fits the receiver's buffer.
pub record Sendable (r : Reply) : Type 0 where
  pub src_ip : r.info.src_ip < 2 ^ 32
  pub dst_ip : r.info.dst_ip < 2 ^ 32
  pub src_port : r.info.src_port < 2 ^ 16
  pub dst_port : r.info.dst_port < 2 ^ 16
  pub seq : r.seq < 2 ^ 32
  pub ack : r.ack < 2 ^ 32
  pub flag : r.flag < 2 ^ 16
  pub room : length r.buf ≤ 1960

length-tcp_bytes :
    (size other : ℕ) (r : Reply) → length (tcp_bytes size other r) ≡ 20 + length r.buf
unfolding tcp_bytes
length-tcp_bytes size other r =
    length-append (tcp_hdr_bytes (hdr_of size other r)) r.buf
    ∙ ap (λ n. n + length r.buf) (length-tcp_hdr_bytes (hdr_of size other r))

read-tcp_bytes :
    (size other : ℕ) (r : Reply)
    → size < 2 ^ 16
    → other < 2 ^ 32
    → Sendable r
    → (hdr : TcpHdr) × (read_tcp_hdr (tcp_bytes size other r) ≡ some (hdr, r.buf))
      × (hdr.src_port ≡ r.info.src_port)
      × (hdr.dst_port ≡ r.info.dst_port)
      × (htonl hdr.seq ≡ r.seq)
      × (htonl hdr.ack ≡ r.ack)
      × (hdr.flag ≡ r.flag)
unfolding tcp_bytes
read-tcp_bytes size other r hs ho v =
    let hdr : TcpHdr = hdr_of size other r in
    let fits : TcpFits hdr = record {
      src_port = v.src_port;
      dst_port = v.dst_port;
      seq = htonl-lt r.seq;
      ack = htonl-lt r.ack;
      flag = v.flag;
      size = hs;
      other = ho;
    } in
    (
      hdr,
      (read-tcp_hdr_bytes hdr r.buf fits).0,
      refl,
      refl,
      htonl-htonl r.seq v.seq,
      htonl-htonl r.ack v.ack,
      refl,
    )

-- A packet that sendTCPPacket and constructIPPacket make is taken apart into what was sent.
parse-construct :
    (size other : ℕ) (r : Reply) (packet : List ℕ) (ip : IpHdr)
    → size < 2 ^ 16
    → other < 2 ^ 32
    → Sendable r
    → length packet ≡ 20 + length (tcp_bytes size other r)
    → read_ip_hdr packet ≡ some (ip, tcp_bytes size other r)
    → ip.src ≡ r.info.src_ip
    → ip.dst ≡ r.info.dst_ip
    → parse_packet packet ≡ some (segment_of r)
unfolding parse_packet
parse-construct size other r packet ip hs ho v n back src dst =
    let (hdr, p, sp, dp, seq, ack, flag) = read-tcp_bytes size other r hs ho v in
    let fits : leb (length packet) 2000 ≡ true =
      ground (arith, length-tcp_bytes size other r, v.room) in
    rw (fits, back, p) (rw (src, dst, sp, dp, seq, ack, flag))

some_inj : {xs ys : List ℕ} (o : Option (List ℕ)) → o ≡ some xs → o ≡ some ys → xs ≡ ys
some_inj o p q = ground (arith, p, q)

-- sendTCPPacket over a route with one hop, up to the frame that leaves the device.
send_routed :
    (from : Host) (size other : ℕ) (r : Reply) (v : RtValue) (tx : Device) (packet frame : List ℕ)
    → Ascends from.route_table
    → find (r.info.dst_ip, full_mask) from.route_table ≡ some v
    → r.info.dst_ip ≢ all_ones
    → get_elem? from.curr_device v.device_id ≡ some tx
    → tx.id ≡ v.device_id
    → construct_ip_packet r.info.src_ip r.info.dst_ip 6
        (tcp_bytes size other r)
        (length (tcp_bytes size other r))
        10
      ≡ some packet
    → length packet ≡ 20 + length (tcp_bytes size other r)
    → send_frame from.curr_device packet (length packet) l2_ipv4 v.dst_mac v.device_id
      ≡ some (record { device = v.device_id; frame = frame })
    → send_tcp_packet from size other r ≡ some (record { device = v.device_id; frame = frame } ∷ [])
unfolding send_tcp_packet send_ip_packet send_all send_hops
send_routed from size other r v tx packet frame asc found ne at tid made n sent =
    let len : length r.buf + 20 ≡ length (tcp_bytes size other r) =
      omega (arith, length-tcp_bytes size other r) in
    let len' : length (tcp_bytes size other r) + 20 ≡ length packet = omega arith in
    let one : look_for_route from.curr_device from.route_table r.info.dst_ip full_mask
        ≡ hop_of v ∷ [] =
      ground (
        arith,
        look_for_route_lem from.curr_device from.route_table r.info.dst_ip full_mask asc,
        found,
      ) in
    rw (len, made, one, at, tid, len', sent)

==_same : (a b : ℕ) → a ≡ b → (a == b) ≡ true
==_same a b h = ground arith

-- What it takes for a packet to go from `from` to the device `id` of `to` in one hop: a route for
-- exactly the destination, MACs of six bytes, and the destination's address on that device.
pub record OneHop (from to : Host) (r : Reply) (v : RtValue) (tx rx : Device) (id : ℕ)
    : Type 0 where
  pub ascends : Ascends from.route_table
  pub routed : find (r.info.dst_ip, full_mask) from.route_table ≡ some v
  pub unicast : r.info.dst_ip ≢ all_ones
  pub out : get_elem? from.curr_device v.device_id ≡ some tx
  pub out_id : tx.id ≡ v.device_id
  pub at : get_elem? to.curr_device id ≡ some rx
  pub tx_mac : length tx.mac ≡ 6
  pub rx_mac : length rx.mac ≡ 6
  pub hop_mac : length v.dst_mac ≡ 6
  pub apart : memcmp_eq tx.mac rx.mac ≡ false
  pub addressed : rx.ip ≡ r.info.dst_ip

-- Over one hop, sendTCPPacket hands exactly one frame to pcap, on the route's device; recvFrame of
-- the addressed device passes one packet to the IP callback, sends nothing and changes nothing; and
-- readIPPacket takes that packet apart into the addresses, ports, numbers, flags and payload that
-- sendTCPPacket was called with, whatever the two header fields hold that it does not set. The frame
-- is 58 bytes longer than the payload.
pub tcp-OneHop :
    (from to : Host) (r : Reply) (v : RtValue) (tx rx : Device) (id size other : ℕ)
    (arp_byte : List ℕ)
    → Sendable r
    → OneHop from to r v tx rx id
    → size < 2 ^ 16
    → other < 2 ^ 32
    → (frame packet : List ℕ) × (send_tcp_packet from size other r
        ≡ some (record { device = v.device_id; frame = frame } ∷ []))
      × (recv_frame to frame (length frame) id arp_byte
          ≡ some (record { ok = true; host = to; sent = []; up = some packet }))
      × (parse_packet packet ≡ some (segment_of r))
      × (length frame ≡ 58 + length r.buf)
tcp-OneHop from to r v tx rx id size other arp_byte s o hs ho =
    let body : List ℕ = tcp_bytes size other r in
    let small : 20 + length body < 65536 = omega (arith, length-tcp_bytes size other r, s.room) in
    let (packet, frame, made, sent, got, framed) =
      recv_frame-send_frame from.curr_device v.device_id tx v.dst_mac r.info.src_ip r.info.dst_ip 6
        body 10 to id rx arp_byte o.out o.at o.tx_mac o.rx_mac o.hop_mac s.src_ip s.dst_ip small in
    let (packet', ip, made', n, back, ends, _, _, _) =
      read-construct_ip_packet r.info.src_ip r.info.dst_ip 6 body 10 s.src_ip s.dst_ip small in
    let same : packet' ≡ packet = some_inj _ made' made in
    let n' : length packet ≡ 20 + length body = subst (λ l. length l ≡ 20 + length body) same n in
    let back' : read_ip_hdr packet ≡ some (ip, body) =
      subst (λ l. read_ip_hdr l ≡ some (ip, body)) same back in
    (
      frame,
      packet,
      send_routed from size other r v tx packet frame o.ascends o.routed o.unicast o.out o.out_id
          made n' sent,
      got ∙ rw (o.apart, ==_same rx.ip r.info.dst_ip o.addressed),
      parse-construct size other r packet ip hs ho s n' back' ends.0 ends.1,
      omega (arith, length-tcp_bytes size other r),
    )
