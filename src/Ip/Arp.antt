-- ===== src/Ip/Arp.antt =====
-- The announcement protocol of src/myArp.cc, and recvFrame of src/ip.cc, which calls it. `buf` is the
-- content of the one byte that sendArp and sendArpBroadCast allocate and do not set.
use i_tcp.Common.{
  ℕ, ◌+◌, ◌-◌, ◌^◌, Bool, true, false, Option, none, some, List, [], ◌∷◌, ◌++◌, ◌==◌, if◌then◌else◌,
  ◌>>=◌, ◌>>◌, guard, ltb, leb, get_elem?, take, drop,
}
use i_tcp.Word.{u32}
use i_tcp.Device.{Device}
use i_tcp.Packet.{IpHdr, sizeof_eth_hdr, sizeof_ip_hdr, l3_myarp, memcpy, read_ip_hdr}
use i_tcp.Route.{all_ones, set_routing_table, my_arp_look_for_route}
use i_tcp.Ip.Host.{Host, Sent, send_ip_packet, forward}

-- The loop of sendArp over the devices.
unfoldable pub send_arp_from : Host → List Device → List ℕ → Option (List Sent)
send_arp_from h [] buf = some []
send_arp_from h (d ∷ ds) buf = do
  (_, sent) ← send_ip_packet h d.ip all_ones l3_myarp buf 1 8
  rest ← send_arp_from h ds buf
  some (sent ++ rest)

unfoldable pub send_arp : Host → List ℕ → Option (List Sent)
send_arp h buf = send_arp_from h h.curr_device buf

-- `ttl` is an int: the callers pass `ttl - 1`, which may be -1.
unfoldable pub send_arp_broadcast : Host → ℕ → ℕ → List ℕ → Option (List Sent)
send_arp_broadcast h src_ip ttl buf = do
  (_, sent) ← send_ip_packet h src_ip all_ones l3_myarp buf 1 ttl
  some sent

-- `ttl - 1` as the pattern of an int.
abbrev pub less_one : ℕ → ℕ
less_one ttl = u32 (ttl + 2 ^ 32 - 1)

unfoldable pub own_ip : List Device → ℕ → Bool
own_ip [] src_ip = false
own_ip (d ∷ ds) src_ip = if d.ip == src_ip then true else own_ip ds src_ip

-- setRoutingTable with the name of the device that received the announcement.
unfoldable pub learn : Host → ℕ → ℕ → ℕ → List ℕ → ℕ → Option Host
learn h src_ip mask id src_mac ttl = do
  d ← get_elem? h.curr_device id
  let (_, table) = set_routing_table h.curr_device h.route_table src_ip mask src_mac d.name ttl
  some (record h { route_table = table })

-- The loop over ttlList.
unfoldable pub refresh : Host → ℕ → ℕ → ℕ → List ℕ → ℕ → List ℕ → Option Host
unfolding learn
refresh h src_ip mask id src_mac ttl [] = some h
refresh h src_ip mask id src_mac ttl (t ∷ ts) = do
  h' ← if ltb t ttl then learn h src_ip mask id src_mac ttl else some h
  refresh h' src_ip mask id src_mac ttl ts

-- `ttlList.size() == 0`: a new route; otherwise the loop.
unfoldable pub note_route : Host → ℕ → ℕ → ℕ → List ℕ → ℕ → List ℕ → Option Host
unfolding learn refresh
note_route h src_ip mask id src_mac ttl [] = learn h src_ip mask id src_mac ttl
note_route h src_ip mask id src_mac ttl (t ∷ ts) = refresh h src_ip mask id src_mac ttl (t ∷ ts)

unfoldable pub recv_arp : Host → ℕ → ℕ → ℕ → List ℕ → ℕ → List ℕ → Option (Host × List Sent)
recv_arp h src_ip mask id src_mac ttl buf =
    let (_, ttl_list) = my_arp_look_for_route h.route_table src_ip mask in
    if own_ip h.curr_device src_ip then some (h, []) else (do
      h' ← note_route h src_ip mask id src_mac ttl ttl_list
      sent ← send_arp_broadcast h' src_ip (less_one ttl) buf
      some (h', sent))

-- What recvFrame returns and does. `up` is the packet for the IP callback, which is called last.
pub record Outcome : Type 0 where
  pub ok : Bool  -- false is the return value -1
  pub host : Host
  pub sent : List Sent
  pub up : Option (List ℕ)

-- The loop that sets reachDst. It runs once for each device, and reads currDevice[id] each time.
unfoldable pub reach_dst : List Device → Device → ℕ → Bool → Bool
reach_dst [] here ip_dst reached = reached
reach_dst (_ ∷ ds) here ip_dst reached =
    reach_dst ds here ip_dst (if here.ip == ip_dst then true else reached)

-- Comparison of two byte strings of equal length.
unfoldable pub memcmp_eq : List ℕ → List ℕ → Bool
memcmp_eq [] [] = true
memcmp_eq (a ∷ as') (b ∷ bs) = if a == b then memcmp_eq as' bs else false
memcmp_eq _ _ = false

-- The three branches of recvFrame: deliver, myArp, forward. `len` is the length of the IP packet.
unfoldable pub dispatch :
    Host → Device → ℕ → List ℕ → List ℕ → ℕ → List ℕ → IpHdr → List ℕ → Option Outcome
dispatch h device id eth_src eth_payload len arp_byte ip_hdr ip_payload =
    if reach_dst h.curr_device device ip_hdr.dst false
    then some (record { ok = true; host = h; sent = []; up = some eth_payload })
    else (if ip_hdr.protocol == l3_myarp
        then (recv_arp h ip_hdr.src 0xffff_ffff id eth_src ip_hdr.ttl arp_byte >>= λ r.
            some (record { ok = true; host = r.0; sent = r.1; up = none }))
        else (forward h ip_hdr.src ip_hdr.dst ip_hdr.protocol ip_payload (len - sizeof_ip_hdr)
              ip_hdr.ttl
            >>= λ r. some (record { ok = true; host = h; sent = r.1; up = none })))

-- `len - sizeof(eth_hdr_t) - 4` is unsigned, so a frame below 18 bytes makes the allocation fail.
unfoldable pub recv_frame : Host → List ℕ → ℕ → ℕ → List ℕ → Option Outcome
recv_frame h buf len id arp_byte = do
  eth_hdr ← memcpy buf 0 sizeof_eth_hdr
  guard (leb (sizeof_eth_hdr + 4) len)
  eth_payload ← memcpy buf sizeof_eth_hdr (len - sizeof_eth_hdr - 4)
  eth_check_sum ← memcpy buf (len - 4) 4
  let eth_src = take 6 (drop 6 eth_hdr)
  device ← get_elem? h.curr_device id
  mac ← memcpy device.mac 0 6
  if memcmp_eq eth_src mac
      then some (record { ok = false; host = h; sent = []; up = none })
      else (read_ip_hdr eth_payload >>= λ r.
          dispatch h device id eth_src eth_payload (len - sizeof_eth_hdr - 4) arp_byte r.0 r.1)
