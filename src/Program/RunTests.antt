-- ===== src/Program/RunTests.antt =====
-- A program with one new socket gets a packet for offset 2 ^ 20, which its socket cannot handle, and
-- one that gets a packet without data, which it works on.
use i_tcp.Common.{true, ℕ, ◌≡◌, refl, none, some, List, [], ◌∷◌, ◌++◌, ◌⊎◌, length}
use i_tcp.Word.{set_ack, is_syn, is_fin, is_ack, htonl, ptr2ip_t, read16, read32, read8}
use i_tcp.Queue.{push, pop, new, is_empty, is_full}
use i_tcp.Dict.{find, insert, assign, nat_ordered}
use i_tcp.Packet.{
  construct_ip_packet, ip_row1, memcpy, ip_hdr_bytes, tcp_hdr_bytes, read_ip_hdr, read_tcp_hdr,
}
use i_tcp.Tcp.Types.{Reply, copy_in, copy_out, slice, store}
use i_tcp.Tcp.Data.{recv_tcp_packet, recv_data, recv_ack}
use i_tcp.Tcp.Handler.{handle}
use i_tcp.Tcp.Wire.{tcp_bytes, parse_packet}
use i_tcp.Tcp.Kernel.{Kernel, read_info, choose, find_connected, recv_ip_packet, process_ip_packet}
use i_tcp.Tcp.Sockets.{socket_create, create_from, new_socket}
use i_tcp.Socket.{wrap_socket}
use i_tcp.Daemon.{booted}
use i_tcp.Program.Calls.{Given, Call, Runs, next}
use i_tcp.Program.Backlog.{IsBacklog}
use i_tcp.Program.Rounds.{Stuck}
use i_tcp.Program.Fifo.{one_fifo, never_waits}
use i_tcp.Sample.{ip_a, ip_b, a_to_b, message}

abbrev far : Reply
far = record message { seq = 0x10_0000; flag = 0 }

abbrev packet_of : Reply → List ℕ
packet_of r =
    let bytes = tcp_bytes 0 1 r in
    elim (construct_ip_packet ip_a ip_b 6 bytes (length bytes) 10) [ none ↦ [] | some p ↦ p ]

abbrev opened : Kernel
opened = (wrap_socket (booted []).kernel 1 a_to_b true).1

abbrev after_packet : Kernel → Reply → Kernel
after_packet k r = elim (recv_ip_packet k (packet_of r)) [ none ↦ k | some (_, k') ↦ k' ]

abbrev worked : Kernel
worked = elim (process_ip_packet (after_packet opened message) 7) [
  | none ↦ opened
  | some (k', _) ↦ k'
]

abbrev got : List Given
got = (100, packet_of message) ∷ (100, packet_of far) ∷ []

abbrev done : List Given
done = (100, packet_of message) ∷ []

run : Runs (booted []).kernel got done (after_packet worked far)
unfolding recv_ip_packet read_info choose read_ip_hdr construct_ip_packet ptr2ip_t ip_row1 memcpy
    tcp_bytes tcp_hdr_bytes ip_hdr_bytes read_tcp_hdr is_syn find wrap_socket socket_create insert
    push new next pop process_ip_packet assign is_empty is_full handle parse_packet htonl is_ack
    is_fin set_ack recv_tcp_packet recv_data recv_ack copy_in store slice copy_out create_from
    new_socket read16 read32 read8 find_connected
run =
    Runs.receives (packet_of far)
      (Runs.works 7
        (Runs.receives (packet_of message) (Runs.calls Runs.start (Call.sockets 1 a_to_b true refl))
          refl)
        refl refl)
      refl

stuck : process_ip_packet (after_packet worked far) 7 ≡ none
unfolding recv_ip_packet read_info choose read_ip_hdr construct_ip_packet ptr2ip_t ip_row1 memcpy
    tcp_bytes tcp_hdr_bytes ip_hdr_bytes read_tcp_hdr is_syn find wrap_socket socket_create insert
    push new next pop process_ip_packet assign is_empty is_full handle parse_packet htonl is_ack
    is_fin set_ack recv_tcp_packet recv_data recv_ack copy_in store slice copy_out create_from
    new_socket read16 read32 read8 find_connected
stuck = refl

one_fifo_example :
    (pending : List Given) × (got ≡ done ++ pending) × IsBacklog (after_packet worked far) pending
one_fifo_example = one_fifo [] run

never_waits_example :
    (got ≡ done)
    ⊎ ((fd : ℕ) × (buf : List ℕ) × (rest : List Given) × (got ≡ done ++ ((fd, buf) ∷ rest))
        × Stuck (after_packet worked far) 7 fd buf)
never_waits_example = never_waits [] 7 run stuck
