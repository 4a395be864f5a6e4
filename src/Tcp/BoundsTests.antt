-- ===== src/Tcp/BoundsTests.antt =====
-- The bounds of databuf at concrete packets.
use i_tcp.Common.{◌+◌, ◌^◌, refl, true, [], ◌∷◌, arith, All}
use i_tcp.Word.{is_syn, is_ack, set_syn, set_ack}
use i_tcp.Tcp.Types.{client, syn_sent, MySocket, Segment, store}
use i_tcp.Tcp.Handler.{handle, answer}
use i_tcp.Tcp.Replies.{IsSmall, handle-IsSmall}
use i_tcp.Tcp.Sockets.{new_socket}
use i_tcp.Sample.{a_to_b, socket_in, flagged}

-- Two bytes written to a new socket, and then a packet without data for an offset beyond databuf.
abbrev two_bytes : MySocket
two_bytes = record (new_socket 1 a_to_b true) {
  databuf = store (new_socket 1 a_to_b true).databuf 0 (1 ∷ 2 ∷ []);
  sizep = 2;
}

abbrev hollow : Segment
hollow = record { info = a_to_b; seq = 2 ^ 20 + 7; ack = 0; flag = 0; payload = [] }

abbrev stretched : MySocket
stretched = record two_bytes { sizep = 2 ^ 20 + 7 }

abbrev far : Segment
far = record { info = a_to_b; seq = 2 ^ 20; ack = 0; flag = 0; payload = 7 ∷ [] }

handle-IsSmall_example : All IsSmall (answer (flagged (set_syn 0)) 3 (set_ack 0) ∷ [])
unfolding handle set_syn is_syn is_ack
handle-IsSmall_example =
    handle-IsSmall (socket_in client syn_sent 0) (flagged (set_syn 0)) 3 refl (record {
      src_ip = omega arith;
      dst_ip = omega arith;
      src_port = omega arith;
      dst_port = omega arith;
      seq = omega arith;
      ack = omega arith;
    })
