-- ===== src/Ip/Tests.antt =====
-- One hop from veth_a to veth_b.
use i_tcp.Common.{
  ℕ, ◌+◌, ◌≡◌, refl, false, none, some, List, [], ◌∷◌, length, if◌then◌else◌, arith, ◌⊎◌,
}
use i_tcp.Word.{u8}
use i_tcp.Dict.{find, pair_ordered}
use i_tcp.Device.Table.{IsTable}
use i_tcp.Route.{all_ones}
use i_tcp.Route.Table.{entry}
use i_tcp.Ip.Announce.{on_each}
use i_tcp.Ip.Learning.{Owns, Rerouted, better, recv_arp_lem}
use i_tcp.Packet.{l2_ipv4, l3_myarp, construct_ip_packet}
use i_tcp.Ip.Host.{Host, full_mask, send_frame}
use i_tcp.Ip.Arp.{recv_frame, recv_arp, less_one, memcmp_eq}
use i_tcp.Ip.Recv.{handled, recv_frame-send_frame}
use i_tcp.Sample.{mac_a, mac_b, ip_a, ip_b, veth_a, veth_b, host_a, host_b}

abbrev payload : List ℕ
payload = 1 ∷ 2 ∷ 3 ∷ []

recv_frame-send_frame_example :
    (packet frame : List ℕ) × (construct_ip_packet ip_a ip_b 17 payload (length payload) 10
      ≡ some packet)
    × (send_frame host_a.curr_device packet (length packet) l2_ipv4 mac_b 0
        ≡ some (record { device = 0; frame = frame }))
    × (recv_frame host_b frame (length frame) 0 (0 ∷ []) ≡ (
        if memcmp_eq mac_a mac_b
        then some (record { ok = false; host = host_b; sent = []; up = none })
        else handled host_b 0 veth_b mac_a (0 ∷ []) packet ip_a ip_b (u8 17) payload (u8 10)))
    × (length frame ≡ 38 + length payload)
recv_frame-send_frame_example =
    recv_frame-send_frame host_a.curr_device 0 veth_a mac_b ip_a ip_b 17 payload 10 host_b 0 veth_b
      (0 ∷ []) refl refl refl refl refl (omega arith) (omega arith) (omega arith)

host_b-IsTable : IsTable host_b.curr_device
host_b-IsTable = record { ids = (refl, tt); names = (tt, tt) }

-- An announcement of ip_a by the host that has it.
recv_arp_example :
    (Owns host_b.curr_device ip_a
      × (recv_arp host_b ip_a full_mask 0 mac_a 8 (0 ∷ []) ≡ some (host_b, [])))
    ⊎ (¬ Owns host_b.curr_device ip_a
        × ((h' : Host) × (packet : List ℕ) × (recv_arp host_b ip_a full_mask 0 mac_a 8 (0 ∷ [])
              ≡ some (h', on_each packet host_b.curr_device))
            × (construct_ip_packet ip_a all_ones l3_myarp (0 ∷ []) 1 (less_one 8) ≡ some packet)
            × Rerouted host_b
                (ip_a, full_mask)
                (better (find (ip_a, full_mask) host_b.route_table) (entry 0 mac_a 8))
                h'))
recv_arp_example =
    recv_arp_lem host_b ip_a full_mask 0 8 0 veth_b mac_a refl host_b-IsTable (refl, tt)
      (record { ascends = tt; devices = tt }) (omega arith)
