-- ===== src/Program/MainTests.antt =====
-- A round of src/main.cc on host_b, with a frame that host_a has sent.
use i_tcp.Common.{ℕ, ◌≡◌, ◌>>=◌, refl, true, false, none, some, List, [], ◌∷◌, ◌⊎◌, length, arith}
use i_tcp.Packet.{l2_ipv4, construct_ip_packet}
use i_tcp.Ip.Host.{send_frame}
use i_tcp.Ip.Arp.{memcmp_eq}
use i_tcp.Tcp.Kernel.{Kernel, recv_ip_packet}
use i_tcp.Daemon.{booted}
use i_tcp.Program.Main.{test_callbacks, daemon_callbacks, test_round, test_round_lem}
use i_tcp.Sample.{ip_a, mac_b, veth_a, veth_b, host_a, host_b}

abbrev idle : Kernel
idle = (booted (veth_b ∷ [])).kernel

abbrev message : List ℕ
message = 1 ∷ 2 ∷ 3 ∷ []

test_round_lem_example :
    (packet frame : List ℕ) × (construct_ip_packet ip_a veth_b.ip 17 message 3 10 ≡ some packet)
    × (send_frame host_a.curr_device packet (length packet) l2_ipv4 mac_b 0
        ≡ some (record { device = 0; frame = frame }))
    × (((memcmp_eq veth_a.mac veth_b.mac ≡ false)
          × (test_round daemon_callbacks host_b idle frame (0 ∷ [])
              ≡ (recv_ip_packet idle packet >>= λ r. some (host_b, r.1, [])))
          × (test_round test_callbacks host_b idle frame (0 ∷ []) ≡ none))
        ⊎ ((memcmp_eq veth_a.mac veth_b.mac ≡ true)
            × (test_round daemon_callbacks host_b idle frame (0 ∷ []) ≡ some (host_b, idle, []))
            × (test_round test_callbacks host_b idle frame (0 ∷ []) ≡ some (host_b, idle, []))))
test_round_lem_example =
    test_round_lem host_a.curr_device 0 veth_a veth_b host_b idle mac_b message (0 ∷ []) ip_a 17 10
      refl refl refl refl refl (omega arith) (omega arith) (omega arith)
