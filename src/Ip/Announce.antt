-- ===== src/Ip/Announce.antt =====
-- sendArpBroadCast and sendArp of src/myArp.cc: one frame on each device for each announcement.
use i_tcp.Common.{
  ℕ, suc, ◌+◌, ◌≡◌, ◌<◌, ◌^◌, refl, sym, ◌∙◌, ap, true, some, List, [], ◌∷◌, ◌++◌, map, arith,
  length, All, replicate, >>=-eq-some, get_elem?,
}
use i_tcp.Device.{Device}
use i_tcp.Device.Table.{IsTable, IdsFrom}
use i_tcp.Route.{bcm, all_ones, broadcast_hops, look_for_route}
use i_tcp.Packet.{l2_ipv4, l3_myarp, construct_ip_packet}
use i_tcp.Packet.Frames.{eth_bytes, construct_frame_eq, read-construct_ip_packet}
use i_tcp.Ip.Host.{Host, Sent, full_mask, send_frame, send_hops, send_all, send_ip_packet}
use i_tcp.Ip.Arp.{send_arp_broadcast, send_arp_from, send_arp}

-- The broadcast frame of a packet on one device, and on each.
abbrev pub on_device : List ℕ → Device → Sent
on_device packet d = record {
  device = d.id;
  frame = eth_bytes bcm d.mac l2_ipv4 ++ (packet ++ replicate 4 0);
}

abbrev pub on_each : List ℕ → List Device → List Sent
on_each packet = map (on_device packet)

abbrev pub HasMac : Device → Type 0
HasMac d = length d.mac ≡ 6

-- A device is at the index that is its ID.
abbrev At : List Device → Device → Type 0
At devices d = get_elem? devices d.id ≡ some d

All-At :
    (devices ds : List Device) (k : ℕ)
    → ((i : ℕ) → get_elem? ds i ≡ get_elem? devices (k + i))
    → IdsFrom k ds
    → All (At devices) ds
All-At devices [] k same ids = tt
All-At devices (d ∷ ds) k same (e, ids) =
    let here : k + 0 ≡ d.id = omega arith in
    (
      sym (same 0 ∙ ap (get_elem? devices) here),
      All-At devices ds (k + 1) (λ i. same (suc i) ∙ ap (get_elem? devices) (omega arith)) ids,
    )

-- Every device of a table is at the index that is its ID.
pub IsTable-At :
    (ds : List Device) → IsTable ds → All (λ (d : Device). get_elem? ds d.id ≡ some d) ds
IsTable-At ds v = All-At ds ds 0 (λ i. ap (get_elem? ds) (omega arith)) v.ids

send_hops_each :
    (devices ds : List Device) (packet : List ℕ)
    → All (At devices) ds
    → All HasMac ds
    → send_hops devices packet (length packet) (broadcast_hops ds) ≡ some (on_each packet ds)
unfolding send_hops broadcast_hops send_frame
send_hops_each devices [] packet at macs = refl
send_hops_each devices (d ∷ ds) packet (at, rest) (mac, macs) = rw (
  at,
  construct_frame_eq devices packet l2_ipv4 bcm d.id d at mac refl,
  send_hops_each devices ds packet rest macs,
)

to_all :
    (h : Host)
    → look_for_route h.curr_device h.route_table all_ones full_mask ≡ broadcast_hops h.curr_device
unfolding look_for_route
to_all h = refl

send_all_each :
    (ds : List Device) (packet : List ℕ) (id : ℕ) (d : Device)
    → get_elem? ds id ≡ some d
    → IsTable ds
    → All HasMac ds
    → send_all ds packet (length packet) (broadcast_hops ds) ≡ some (true, on_each packet ds)
unfolding send_all broadcast_hops
send_all_each [] packet id d at v macs = cc at
send_all_each (c ∷ ds) packet id d at v macs = rw (
    send_hops_each (c ∷ ds) (c ∷ ds) packet
      (All-At (c ∷ ds) (c ∷ ds) 0 (λ i. ap (get_elem? (c ∷ ds)) (omega arith)) v.ids) macs)

pub send_arp_broadcast_lem :
    (h : Host) (src ttl b id : ℕ) (d : Device)
    → get_elem? h.curr_device id ≡ some d
    → IsTable h.curr_device
    → All HasMac h.curr_device
    → src < 2 ^ 32
    → (packet : List ℕ) × (construct_ip_packet src all_ones l3_myarp (b ∷ []) 1 ttl ≡ some packet)
      × (send_arp_broadcast h src ttl (b ∷ []) ≡ some (on_each packet h.curr_device))
unfolding send_arp_broadcast send_ip_packet
send_arp_broadcast_lem h src ttl b id d at v macs hs =
    let (packet, hdr, made, size, _, _, _, _, _) =
      read-construct_ip_packet src all_ones l3_myarp (b ∷ []) ttl hs (omega arith) (omega arith) in
    let n : 21 ≡ length packet = omega arith in
    (packet, made, rw (made, to_all h, n, send_all_each h.curr_device packet id d at v macs))

-- The frames of an announcement of each device on each of `devices`.
abbrev pub Announced : List Device → ℕ → List Device → List Sent → Type 0
Announced devices b [] sent = sent ≡ []
Announced devices b (d ∷ ds) sent =
    (packet : List ℕ) × (rest : List Sent) × (construct_ip_packet d.ip all_ones l3_myarp (b ∷ []) 1
        8
      ≡ some packet)
    × (sent ≡ on_each packet devices ++ rest)
    × Announced devices b ds rest

send_arp_from_lem :
    (h : Host) (b id : ℕ) (at_id : Device) (ds : List Device)
    → get_elem? h.curr_device id ≡ some at_id
    → IsTable h.curr_device
    → All HasMac h.curr_device
    → All (λ (d : Device). d.ip < 2 ^ 32) ds
    → (sent : List Sent) × (send_arp_from h ds (b ∷ []) ≡ some sent)
      × Announced h.curr_device b ds sent
unfolding send_arp_from send_arp_broadcast
send_arp_from_lem h b id at_id [] at v macs small = ([], refl, refl)
send_arp_from_lem h b id at_id (d ∷ ds) at v macs (low, small) =
    let (packet, made, told) = send_arp_broadcast_lem h d.ip 8 b id at_id at v macs low in
    let ((ok, one), p, q) =
      >>=-eq-some (send_ip_packet h d.ip all_ones l3_myarp (b ∷ []) 1 8) _ told in
    let same : one ≡ on_each packet h.curr_device = cc q in
    let (rest, more, v') = send_arp_from_lem h b id at_id ds at v macs small in
    (on_each packet h.curr_device ++ rest, rw (p, more, same), (packet, rest, made, refl, v'))

-- sendArp announces the address of each device, in turn, with one frame on each device.
pub send_arp_lem :
    (h : Host) (b : ℕ)
    → IsTable h.curr_device
    → All HasMac h.curr_device
    → All (λ (d : Device). d.ip < 2 ^ 32) h.curr_device
    → (sent : List Sent) × (send_arp h (b ∷ []) ≡ some sent)
      × Announced h.curr_device b h.curr_device sent
unfolding send_arp
send_arp_lem h b v macs small = from h.curr_device refl small
  where
    from :
        (ds : List Device)
        → h.curr_device ≡ ds
        → All (λ (d : Device). d.ip < 2 ^ 32) ds
        → (sent : List Sent) × (send_arp_from h ds (b ∷ []) ≡ some sent)
          × Announced h.curr_device b ds sent
    from [] e low = ([], unfold send_arp_from in refl, refl)
    from (d ∷ ds) e low = send_arp_from_lem h b 0 d (d ∷ ds) (rw e refl) v macs low
