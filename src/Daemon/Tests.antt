-- ===== src/Daemon/Tests.antt =====
-- The start of the program, and the packet of Sample on its way from host_a to a connected socket of host_b.
use i_tcp.Common.{true, ℕ, ◌≡◌, refl, some, List, [], ◌∷◌, arith}
use i_tcp.Word.{is_syn, is_fin, is_ack, set_ack}
use i_tcp.Dict.{find, nat_ordered}
use i_tcp.Queue.{new}
use i_tcp.Queue.Holds.{Holds, new-Holds}
use mathlib.Core.List.{Memᴰ}
use i_tcp.Device.{Ifaddr, af_packet, af_inet}
use i_tcp.Device.Table.{IsTable, NamedAt}
use i_tcp.Device.Discover.{is_wanted}
use i_tcp.Ip.Host.{Sent}
use i_tcp.Ip.Announce.{Announced}
use i_tcp.Tcp.Types.{estab, server, MySocket, back}
use i_tcp.Tcp.Data.{recv_tcp_packet, recv_ack}
use i_tcp.Tcp.Handler.{handle}
use i_tcp.Tcp.Wire.{send_tcp_packet}
use i_tcp.Tcp.Kernel.{Kernel, process_ip_packet}
use i_tcp.Tcp.Demux.{Queued, Others}
use i_tcp.Daemon.{main_start, period_send_my_arp, Daemon, recv_pcap_packet, main_step}
use i_tcp.Daemon.Start.{start_lem}
use i_tcp.Daemon.Hop.{IsWaiting, arrive}
use i_tcp.Sample.{
  message-Sendable, route, message-OneHop, mac_b, veth_a, veth_b, host_a, host_b, a_to_b, message,
  socket_in,
}

abbrev connected : MySocket
connected = record (socket_in server estab 0) { address = back a_to_b }

abbrev waiting : Daemon
waiting = record {
  host = host_b;
  kernel = record {
    un_solved_socket = new 2 0;
    socket_queue = (101, new 2 []) ∷ [];
    socket_set = (101, connected) ∷ [];
  };
  frames = new 2 (record { packet = []; len = 0; id = 1024 });
}

waiting-IsWaiting : IsWaiting waiting 101 connected a_to_b
unfolding find new
waiting-IsWaiting = record {
  frames = new-Holds 2 (record { packet = []; len = 0; id = 1024 });
  frame_room = omega arith;
  socket = refl;
  address = refl;
  only = (λ e. refl, tt);
  q = new 2 [];
  queue = refl;
  packets = new-Holds 2 [];
  packet_room = omega arith;
  noted = new-Holds 2 0;
  note_room = omega arith;
}

arrive_example :
    (frame : List ℕ) × (d₁ d₂ : Daemon) × (k : Kernel) × (send_tcp_packet host_a 0 1 message
      ≡ some (record { device = 0; frame = frame } ∷ []))
    × (recv_pcap_packet waiting frame 0 ≡ some d₁)
    × (main_step d₁ (0 ∷ []) ≡ some (d₂, []))
    × (process_ip_packet d₂.kernel 5 ≡ some (k, []))
    × (find 101 k.socket_set ≡ some connected)
    × Others 101 waiting.kernel.socket_set k.socket_set
    × ((d₂.host ≡ waiting.host)
        × Holds d₂.frames []
        × Queued k 101 []
        × Holds k.un_solved_socket [])
unfolding handle set_ack is_syn is_fin is_ack recv_tcp_packet recv_ack
arrive_example =
    arrive host_a waiting message route veth_a veth_b 0 0 1 101 5 (0 ∷ []) connected connected []
      message-Sendable message-OneHop (omega arith) (omega arith) waiting-IsWaiting refl refl

abbrev interfaces : List Ifaddr
interfaces =
    record { ifa_name = "veth0"; has_addr = true; sa_family = af_packet; addr = mac_b }
    ∷ record {
      ifa_name = "veth0";
      has_addr = true;
      sa_family = af_inet;
      addr = 10 ∷ 0 ∷ 0 ∷ 2 ∷ [];
    }
    ∷ []

start_example :
    (device_num : ℕ) × (d : Daemon) × (sent : List Sent) × (main_start (some interfaces)
      ≡ some (device_num, d))
    × IsTable d.host.curr_device
    × ((ifa : Ifaddr)
        → Memᴰ ifa interfaces
        → is_wanted ifa ≡ true
        → (k : ℕ) × NamedAt d.host.curr_device k ifa.ifa_name)
    × (Holds d.frames [] × Holds d.kernel.un_solved_socket [] × (d.kernel.socket_set ≡ []))
    × (period_send_my_arp d (0 ∷ []) ≡ some sent)
    × Announced d.host.curr_device 0 d.host.curr_device sent
start_example = start_lem interfaces 0 ((refl, omega arith), ((refl, omega arith), tt))
