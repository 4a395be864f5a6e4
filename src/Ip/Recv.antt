-- ===== src/Ip/Recv.antt =====
-- recvFrame of src/ip.cc on the frames that constructFrame and constructIPPacket make.
use i_tcp.Common.{
  ℕ, ◌+◌, ◌-◌, ◌^◌, ◌<◌, ◌≡◌, refl, ◌∙◌, ap, sym, Bool, true, false, Option, none, some, List, [],
  ◌∷◌, ◌++◌, arith, ◌==◌, if◌then◌else◌, ◌>>=◌, leb, length, take, drop, get_elem?, replicate,
  length-append, drop-append, take-append,
}
use mathlib.Core.List.{append_assoc}
use mathlib.Core.Path.{subst}
use i_tcp.Word.{u8, u16, le16, change_endian}
use i_tcp.Device.{Device}
use i_tcp.Packet.{IpHdr, memcpy, read_ip_hdr, construct_ip_packet, l3_myarp, l2_ipv4}
use i_tcp.Packet.Frames.{
  eth_bytes, memcpy-append, memcpy-all, read-construct_ip_packet, construct_frame_eq,
}
use i_tcp.Ip.Host.{Host, send_frame, forward}
use i_tcp.Ip.Arp.{Outcome, recv_frame, dispatch, memcmp_eq, reach_dst, recv_arp}

abbrev pub dropped : Host → Outcome
dropped h = record { ok = false; host = h; sent = []; up = none }

pub memcmp_eq_iff : (xs ys : List ℕ) → (memcmp_eq xs ys ≡ true) → xs ≡ ys
unfolding memcmp_eq
memcmp_eq_iff [] [] h = refl
memcmp_eq_iff [] (y ∷ ys) h = cc
memcmp_eq_iff (x ∷ xs) [] h = cc
memcmp_eq_iff (x ∷ xs) (y ∷ ys) h = ground (arith, memcmp_eq_iff xs ys)

module _ (h : Host) (id : ℕ) (rx : Device) (destmac txmac packet : List ℕ) (ethtype : ℕ) where
  recv_frame_eq :
      (n : ℕ) (arp_byte : List ℕ)
      → get_elem? h.curr_device id ≡ some rx
      → length rx.mac ≡ 6
      → length destmac ≡ 6
      → length txmac ≡ 6
      → n ≡ 14 + length packet + 4
      → recv_frame h (eth_bytes destmac txmac ethtype ++ (packet ++ replicate 4 0)) n id arp_byte
        ≡ (if memcmp_eq txmac rx.mac
            then some (dropped h)
            else (read_ip_hdr packet >>= λ r.
                dispatch h rx id txmac packet (length packet) arp_byte r.0 r.1))
  unfolding recv_frame
  recv_frame_eq n arp_byte at hr hd ht hn =
      let hdr : List ℕ = eth_bytes destmac txmac ethtype in
      let size : length hdr ≡ 14 = omega (
        arith,
        length-append {0} destmac (txmac ++ le16 (change_endian (u16 ethtype))),
        length-append {0} txmac (le16 (change_endian (u16 ethtype))),
      ) in
      let a : memcpy (hdr ++ (packet ++ replicate 4 0)) 0 14 ≡ some hdr =
        memcpy-append [] hdr (packet ++ replicate 4 0) 0 14 refl (sym size) in
      let b : memcpy (hdr ++ (packet ++ replicate 4 0)) 14 (n - 14 - 4) ≡ some packet =
        memcpy-append hdr packet (replicate 4 0) 14 (n - 14 - 4) (sym size) (omega arith) in
      let c : memcpy (hdr ++ (packet ++ replicate 4 0)) (n - 4) 4 ≡ some (replicate 4 0) =
        subst (λ l. memcpy l (n - 4) 4 ≡ some (replicate 4 0))
          (append_assoc hdr packet (replicate 4 0))
          (memcpy-append (hdr ++ packet) (replicate 4 0) [] (n - 4) 4
            (omega (arith, length-append {0} hdr packet, size)) refl) in
      let d : take 6 (drop 6 hdr) ≡ txmac =
        ap (take 6) (drop-append 6 destmac (txmac ++ le16 (change_endian (u16 ethtype))) hd)
        ∙ take-append 6 txmac (le16 (change_endian (u16 ethtype))) ht in
      let e : leb 18 n ≡ true = ground arith in
      let f : n - 14 - 4 ≡ length packet = omega arith in
      rw (a, e, b) (rw (c, at, memcpy-all rx.mac 6 (sym hr), d, f))

if_same : (b : Bool) → (if b then true else false) ≡ b
if_same true = refl
if_same false = refl

reach_dst_eq :
    (ds : List Device) (i : ℕ) (rx d : Device) (dst : ℕ) (r : Bool)
    → get_elem? ds i ≡ some d
    → reach_dst ds rx dst r ≡ (if rx.ip == dst then true else r)
unfolding reach_dst
reach_dst_eq [] i rx d dst r h = cc
reach_dst_eq (c ∷ []) i rx d dst r h = ground arith
reach_dst_eq (c ∷ e ∷ ds) i rx d dst r h =
    ground (arith, reach_dst_eq (e ∷ ds) 0 rx e dst (if rx.ip == dst then true else r) refl)

-- What recvFrame should do with a packet from a foreign MAC: deliver it if its destination is the
-- address of the receiving device, hand it to myArp if that is its protocol, else forward it.
abbrev pub handled :
    Host → ℕ → Device → List ℕ → List ℕ → List ℕ → ℕ → ℕ → ℕ → List ℕ → ℕ → Option Outcome
handled h id rx txmac arp_byte packet src dest proto payload ttl =
    if rx.ip == dest
    then some (record { ok = true; host = h; sent = []; up = some packet })
    else (if proto == l3_myarp
        then (recv_arp h src 0xffff_ffff id txmac ttl arp_byte >>= λ r.
            some (record { ok = true; host = r.0; sent = r.1; up = none }))
        else (forward h src dest proto payload (length payload) ttl >>= λ r.
            some (record { ok = true; host = h; sent = r.1; up = none })))

dispatch_eq :
    (h : Host) (id : ℕ) (rx : Device) (txmac arp_byte packet payload : List ℕ) (hdr : IpHdr)
    → get_elem? h.curr_device id ≡ some rx
    → length packet ≡ 20 + length payload
    → dispatch h rx id txmac packet (length packet) arp_byte hdr payload
      ≡ handled h id rx txmac arp_byte packet hdr.src hdr.dst hdr.protocol payload hdr.ttl
unfolding dispatch
dispatch_eq h id rx txmac arp_byte packet payload hdr at n =
    let e : length packet - 20 ≡ length payload = omega arith in
    rw (reach_dst_eq h.curr_device id rx rx hdr.dst false at, e, if_same (rx.ip == hdr.dst))

length-frame :
    (destmac txmac packet : List ℕ) (ethtype : ℕ)
    → length destmac ≡ 6
    → length txmac ≡ 6
    → length (eth_bytes destmac txmac ethtype ++ (packet ++ replicate 4 0)) ≡ 14 + length packet + 4
length-frame destmac txmac packet ethtype hd ht =
    let t : List ℕ = le16 (change_endian (u16 ethtype)) in
    omega (
      arith,
      length-append {0} (destmac ++ (txmac ++ t)) (packet ++ replicate 4 0),
      length-append {0} destmac (txmac ++ t),
      length-append {0} txmac t,
      length-append {0} packet (replicate 4 0),
    )

pub received :
    (h : Host) (id : ℕ) (rx : Device) (destmac txmac packet payload arp_byte : List ℕ) (ethtype : ℕ)
    (hdr : IpHdr)
    → get_elem? h.curr_device id ≡ some rx
    → length rx.mac ≡ 6
    → length destmac ≡ 6
    → length txmac ≡ 6
    → read_ip_hdr packet ≡ some (hdr, payload)
    → length packet ≡ 20 + length payload
    → let frame = eth_bytes destmac txmac ethtype ++ (packet ++ replicate 4 0) in
      recv_frame h frame (length frame) id arp_byte ≡ (
        if memcmp_eq txmac rx.mac
        then some (dropped h)
        else handled h id rx txmac arp_byte packet hdr.src hdr.dst hdr.protocol payload hdr.ttl)
received h id rx destmac txmac packet payload arp_byte ethtype hdr at hr hd ht back size =
    recv_frame_eq h id rx destmac txmac packet ethtype _ arp_byte at hr hd ht
      (length-frame destmac txmac packet ethtype hd ht)
    ∙ rw (back, dispatch_eq h id rx txmac arp_byte packet payload hdr at size)

-- One hop, from the arguments of constructIPPacket to the branch of recvFrame: the frame that
-- sendFrame makes of the packet on a device with a six-byte MAC is dropped by a receiving device that
-- has the same MAC; at any other it is delivered, handed to myArp or forwarded, with the source,
-- destination and payload that were sent and the protocol and TTL as bytes. It is delivered exactly
-- if the destination is the address of the device that received it, whatever the addresses of the
-- host's other devices. The frame is 38 bytes longer than the payload.
pub recv_frame-send_frame :
    (ds : List Device) (tid : ℕ) (tx : Device) (destmac : List ℕ) (src dest proto : ℕ)
    (payload : List ℕ) (ttl : ℕ) (h : Host) (id : ℕ) (rx : Device) (arp_byte : List ℕ)
    → get_elem? ds tid ≡ some tx
    → get_elem? h.curr_device id ≡ some rx
    → length tx.mac ≡ 6
    → length rx.mac ≡ 6
    → length destmac ≡ 6
    → src < 2 ^ 32
    → dest < 2 ^ 32
    → 20 + length payload < 65536
    → (packet frame : List ℕ) × (construct_ip_packet src dest proto payload (length payload) ttl
        ≡ some packet)
      × (send_frame ds packet (length packet) l2_ipv4 destmac tid
          ≡ some (record { device = tid; frame = frame }))
      × (recv_frame h frame (length frame) id arp_byte ≡ (
          if memcmp_eq tx.mac rx.mac
          then some (record { ok = false; host = h; sent = []; up = none })
          else handled h id rx tx.mac arp_byte packet src dest (u8 proto) payload (u8 ttl)))
      × (length frame ≡ 38 + length payload)
unfolding send_frame
recv_frame-send_frame ds tid tx destmac src dest proto payload ttl h id rx arp_byte at rat ht hr hd
      hs hdst hp =
    let (packet, hdr, made, size, back, ends, rest, _, _) =
      read-construct_ip_packet src dest proto payload ttl hs hdst hp in
    let frame : List ℕ = eth_bytes destmac tx.mac l2_ipv4 ++ (packet ++ replicate 4 0) in
    (
      packet,
      frame,
      made,
      rw (construct_frame_eq ds packet l2_ipv4 destmac tid tx at ht hd),
      rw (ends.0, ends.1, rest.0, rest.1) at
          (received h id rx destmac tx.mac packet payload arp_byte l2_ipv4 hdr rat hr hd ht back
            size),
      omega (arith, length-frame destmac tx.mac packet l2_ipv4 hd ht),
    )
