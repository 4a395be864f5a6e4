-- ===== src/Tcp/DemuxTests.antt =====
-- One packet on its way to one connected socket.
use i_tcp.Common.{true, ◌≤◌, ◌<◌, ℕ, ◌≡◌, refl, none, some, List, [], ◌∷◌, ◌++◌, arith, All, ◌⊎◌}
use i_tcp.Word.{is_syn, is_fin, is_ack, set_ack, htonl, ptr2ip_t}
use i_tcp.Dict.{find, nat_ordered}
use i_tcp.Queue.{new}
use i_tcp.Queue.Holds.{Holds, new-Holds}
use i_tcp.Packet.{
  construct_ip_packet, ip_hdr_bytes, tcp_hdr_bytes, read_ip_hdr, read_tcp_hdr, ip_row1, memcpy,
}
use i_tcp.Tcp.Listen.{IsListener, find_listener_cases}
use i_tcp.Tcp.Types.{estab, listen, server, MySocket, back}
use i_tcp.Tcp.Data.{recv_tcp_packet, recv_ack}
use i_tcp.Tcp.Handler.{handle}
use i_tcp.Tcp.Wire.{segment_of, tcp_bytes, parse_packet}
use i_tcp.Tcp.Kernel.{Kernel, find_listener, recv_ip_packet, process_ip_packet}
use i_tcp.Tcp.Demux.{Queued, Others, recv_ip_packet_lem, process_ip_packet_lem}
use i_tcp.Tcp.Sockets.{socket_create, socket_bind, socket_listen}
use i_tcp.Tcp.Listening.{Taken, listen_lem}
use i_tcp.Sample.{ip_a, ip_b, a_to_b, message, socket_in}

abbrev packet : List ℕ
packet = elim (construct_ip_packet ip_a ip_b 6 (tcp_bytes 0 1 message) 23 10) [
  | none ↦ []
  | some p ↦ p
]

packet-parses : parse_packet packet ≡ some (segment_of message)
unfolding parse_packet construct_ip_packet tcp_bytes ip_hdr_bytes tcp_hdr_bytes read_ip_hdr
    read_tcp_hdr htonl set_ack ptr2ip_t ip_row1 memcpy
packet-parses = refl

abbrev connected : MySocket
connected = record (socket_in server estab 0) { address = back a_to_b }

abbrev idle : Kernel
idle = record {
  un_solved_socket = new 2 0;
  socket_queue = (101, new 2 []) ∷ [];
  socket_set = (101, connected) ∷ [];
}

recv_ip_packet_example :
    (k' : Kernel) × (recv_ip_packet idle packet ≡ some (101, k'))
    × Queued k' 101 (packet ∷ [])
    × Holds k'.un_solved_socket (101 ∷ [])
    × (k'.socket_set ≡ idle.socket_set)
    × Others 101 idle.socket_queue k'.socket_queue
unfolding find new set_ack is_syn
recv_ip_packet_example =
    recv_ip_packet_lem idle packet (segment_of message) 101 connected (new 2 []) [] [] packet-parses
      refl refl refl (λ e. refl, tt) refl (new-Holds 2 []) (omega arith) (new-Holds 2 0)
      (omega arith)

abbrev queued : Kernel
queued = record {
  un_solved_socket = record { start = 0; end = 1; capacity = 2; vt = 101 ∷ 0 ∷ 0 ∷ [] };
  socket_queue =
      (101, record { start = 2; end = 0; capacity = 2; vt = [] ∷ [] ∷ packet ∷ [] }) ∷ [];
  socket_set = (101, connected) ∷ [];
}

process_ip_packet_example :
    (k' : Kernel) × (process_ip_packet queued 5 ≡ some (k', []))
    × (find 101 k'.socket_set ≡ some connected)
    × Others 101 queued.socket_set k'.socket_set
    × Queued k' 101 []
    × Others 101 queued.socket_queue k'.socket_queue
    × Holds k'.un_solved_socket []
unfolding find handle set_ack is_syn is_fin is_ack recv_tcp_packet recv_ack
process_ip_packet_example =
    process_ip_packet_lem queued packet (segment_of message) 101 5 connected connected [] [] []
      (record {
        storage = refl;
        start_in = omega arith;
        fits = omega arith;
        end_at = refl;
        slots = (refl, tt);
      })
      (
        record { start = 2; end = 0; capacity = 2; vt = [] ∷ [] ∷ packet ∷ [] },
        refl,
        record {
          storage = refl;
          start_in = omega arith;
          fits = omega arith;
          end_at = refl;
          slots = (refl, tt);
        },
      )
      packet-parses refl refl

abbrev listening : List (ℕ × MySocket)
listening =
    (100, connected) ∷ (101, record (socket_in server listen 0) { address = back a_to_b }) ∷ []

find_listener_cases_example :
    ((find_listener listening a_to_b ≡ none)
      × All (λ (e : ℕ × MySocket). ¬ IsListener a_to_b e.1) listening)
    ⊎ ((pre post : List (ℕ × MySocket)) × (fd : ℕ) × (s : MySocket) × (listening
          ≡ pre ++ ((fd, s) ∷ post))
        × All (λ (e : ℕ × MySocket). ¬ IsListener a_to_b e.1) pre
        × IsListener a_to_b s
        × (find_listener listening a_to_b
            ≡ some (fd, pre ++ ((fd, record s { address = back a_to_b }) ∷ post))))
find_listener_cases_example = find_listener_cases listening a_to_b

-- A table whose first descriptor is taken.
abbrev one_socket : Kernel
one_socket = record {
  un_solved_socket = new 2 0;
  socket_queue = (100, new 2 []) ∷ [];
  socket_set = (100, connected) ∷ [];
}

listen_example :
    (Taken one_socket 100 200 × (socket_create one_socket 1 a_to_b true ≡ (200, one_socket)))
    ⊎ ((fd : ℕ) × (k₁ k₂ k₃ : Kernel) × (s : MySocket) × ((100 ≤ fd)
          × (fd < 200)
          × (find fd one_socket.socket_set ≡ none)
          × Taken one_socket 100 fd)
        × (socket_create one_socket 1 a_to_b true ≡ (fd, k₁))
        × (socket_bind k₁ fd (back a_to_b) ≡ (true, k₂))
        × (socket_listen k₂ fd ≡ some k₃)
        × (find fd k₃.socket_set ≡ some s)
        × ((s.role ≡ server) × (s.tcb.status ≡ listen) × (s.address ≡ back a_to_b) × (s.sizep ≡ 0))
        × Others fd one_socket.socket_set k₃.socket_set)
listen_example = listen_lem one_socket a_to_b (back a_to_b) true
