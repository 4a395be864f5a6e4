-- ===== src/Ip/Host.antt =====
-- The state of a host below TCP, and sendFrame, sendIPPacket and forward over it.
use i_tcp.Common.{
  ℕ, ◌+◌, ◌-◌, Bool, true, false, Option, some, List, [], ◌∷◌, ◌==◌, if◌then◌else◌, ◌>>=◌,
  get_elem?,
}
use i_tcp.Device.{Device}
use i_tcp.Packet.{sizeof_ip_hdr, l2_ipv4, construct_ip_packet, construct_frame}
use i_tcp.Route.{RtTable, NextHop, look_for_route}

-- Two members of iTCP_kernel_t.
pub record Host : Type 0 where
  pub curr_device : List Device  -- currDevice
  pub route_table : RtTable  -- routeTable

-- A frame handed to pcap_sendpacket.
pub record Sent : Type 0 where
  pub device : ℕ
  pub frame : List ℕ

-- sendFrame with the device method of that name.
unfoldable pub send_frame : List Device → List ℕ → ℕ → ℕ → List ℕ → ℕ → Option Sent
send_frame devices buf len ethtype destmac id = do
  frame ← construct_frame devices buf len ethtype destmac id
  some (record { device = id; frame = frame })

abbrev pub full_mask : ℕ
full_mask = 0xffff_ffff

-- The loop of sendIPPacket over the next hops.
unfoldable pub send_hops : List Device → List ℕ → ℕ → List NextHop → Option (List Sent)
send_hops devices packet n [] = some []
send_hops devices packet n (hop ∷ hops) = do
  src_device ← get_elem? devices hop.src_device
  sent ← send_frame devices packet n l2_ipv4 hop.dst_mac src_device.id
  rest ← send_hops devices packet n hops
  some (sent ∷ rest)

-- `Len == 0`: the return value -1, here `false`.
unfoldable pub send_all : List Device → List ℕ → ℕ → List NextHop → Option (Bool × List Sent)
send_all devices packet n [] = some (false, [])
send_all devices packet n (hop ∷ hops) = do
  sent ← send_hops devices packet n (hop ∷ hops)
  some (true, sent)

unfoldable pub send_ip_packet : Host → ℕ → ℕ → ℕ → List ℕ → ℕ → ℕ → Option (Bool × List Sent)
send_ip_packet h src dest proto buf len ttl = do
  full_ip_packet ← construct_ip_packet src dest proto buf len ttl
  send_all h.curr_device full_ip_packet (len + sizeof_ip_hdr)
      (look_for_route h.curr_device h.route_table dest full_mask)

-- `false` is the return value -1.
unfoldable pub forward : Host → ℕ → ℕ → ℕ → List ℕ → ℕ → ℕ → Option (Bool × List Sent)
forward h src dest proto buf len ttl =
    if ttl == 0 then some (false, []) else send_ip_packet h src dest proto buf len (ttl - 1)
